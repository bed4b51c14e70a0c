-- ===== src/Properties/Below.antt =====
-- `property_defined_at_or_below` of server/db_properties.c, and when a name is taken.
use waverous.Base.{
  ℕ, zero, suc, ◌≤◌, ◌≡◌, refl, ap, sym, ◌∙◌, inl, inr, Bool, true, false, ◌||◌, Option, none, some,
  ℤ, eqz, List, [], ◌∷◌, ◌++◌, arith, Bool-cases, Option-cases,
}
use waverous.Base.Int.{eqz_refl}
use waverous.Text.{CStr, str_hash}
use waverous.Values.{Var}
use waverous.Database.{Object, Db, find_object}
use waverous.Database.Chains.{nothing, Distinct}
use waverous.Database.Run.{and_then, ok}
use waverous.Database.Splice.{object-ok}
use waverous.Database.Up.{Up, find-inside}
use waverous.Database.Family.{
  Family, node, Families, nil, cons, root, Spans, Kids, members, all_members, rounds, all_rounds,
  rounds-le, rounds-pos, all_rounds-pos,
}
use waverous.Properties.{BiProp, bp_none, def_place, find_built_in, ptable, db_find_property}
use waverous.Properties.Handles.{is_built_in}
use waverous.Properties.Found.{all_defs, db_find_property-place}
use waverous.Properties.Change.{
  is_some_place, enough, defined_at_or_below, defined_below, property_defined_at_or_below,
  name_taken, db_add_propdef,
}

abbrev pub any : (ℤ → Bool) → List ℤ → Bool
any p [] = false
any p (x ∷ xs) = p x || any p xs

any-append : (p : ℤ → Bool) (xs ys : List ℤ) → any p (xs ++ ys) ≡ (any p xs || any p ys)
any-append p [] ys = refl
any-append p (x ∷ xs) ys = ground (arith, any-append p xs ys)

abbrev pub defines_in : CStr → Option Object → Bool
defines_in name none = false
defines_in name (some o) = is_some_place (def_place name (str_hash name) o.propdefs)

-- The object itself defines a property of that name.
abbrev pub defines : Db → CStr → ℤ → Bool
defines db name x = defines_in name (find_object db x)

not-nothing : (db : Db) (c : ℤ) {o : Object} → find_object db c ≡ some o → eqz c nothing ≡ false
unfolding find_object eqz
not-nothing db c e = let (m, at, lt) = find-inside db c e in rw at

module _ (db : Db) (name : CStr) where
  mutual
    unfolding defined_at_or_below

    defined_at_or_below-any :
        (f : Family) (fuel : ℕ)
        → Spans db f
        → rounds f ≤ fuel
        → defined_at_or_below fuel name (str_hash name) (root f) db
          ≡ ok (any (defines db name) (members f)) db
    defined_at_or_below-any (node x fs) zero s h = absurd (omega arith)
    defined_at_or_below-any (node x fs) (suc fuel) s h =
        rw (object-ok db x s.1, s.1)
          (elim (Bool-cases (is_some_place (def_place name (str_hash name) s.0.propdefs))) [
            | inl t ↦ rw t refl
            | inr n ↦ rw n (defined_below-any fs fuel s.0.child s.2 (omega arith))
          ])

    defined_below-any :
        (fs : Families) (fuel : ℕ) (c : ℤ)
        → Kids db c fs
        → all_rounds fs ≤ fuel
        → defined_below fuel name (str_hash name) c db
          ≡ ok (any (defines db name) (all_members fs)) db
    defined_below-any fs zero c k h = absurd (omega (arith, all_rounds-pos fs))
    defined_below-any nil (suc fuel) c k h = rw (k, eqz_refl) refl
    defined_below-any (cons f fs) (suc fuel) c k h =
        rw
          (
            not-nothing db c k.2.1,
            k.0,
            defined_at_or_below-any f fuel k.1 (omega (arith, all_rounds-pos fs)),
            any-append (defines db name) (members f) (all_members fs),
          )
          (elim (Bool-cases (any (defines db name) (members f))) [
            | inl t ↦ rw (t, and_then) refl
            | inr n ↦
                rw (n, and_then, object-ok db (root f) (ap (find_object db) (sym k.0) ∙ k.2.1))
                  (defined_below-any fs fuel k.2.0.sibling k.2.2 (omega (arith, rounds-pos f)))
          ])

  -- The search through the descendants ends, where they are a tree in which each object stands once,
  -- and tells whether one of them defines the name.
  pub property_defined_at_or_below-any :
      (f : Family)
      → Spans db f
      → Distinct (members f)
      → property_defined_at_or_below name (str_hash name) (root f) db
        ≡ ok (any (defines db name) (members f)) db
  unfolding property_defined_at_or_below
  property_defined_at_or_below-any f s d =
      defined_at_or_below-any f (enough db) s (unfold enough in omega (arith, rounds-le db f s d))

-- The name is built in, or a definition at, above or below the object has it.
abbrev pub is_taken : Db → CStr → List Object → Family → Bool
is_taken db name os f =
    is_built_in (find_built_in name ptable)
    || (is_some_place (def_place name (str_hash name) (all_defs os))
        || any (defines db name) (members f))

pub name_taken-is_taken :
    (db : Db) (name : CStr) (f : Family) (os : List Object)
    → Up db (root f) os
    → Spans db f
    → Distinct (members f)
    → name_taken (root f) name db ≡ ok (is_taken db name os f) db
unfolding name_taken
name_taken-is_taken db name f os u s d = by_table (find_built_in name ptable) refl
  where
    by_table :
        (b : BiProp)
        → find_built_in name ptable ≡ b
        → name_taken (root f) name db ≡ ok (is_taken db name os f) db
    by_table bp_none e =
        rw (db_find_property-place db (root f) os u name false (λ h. cc) e, e)
          (elim (Option-cases (def_place name (str_hash name) (all_defs os))) [
            | inl n ↦ rw (n, and_then) (property_defined_at_or_below-any db name f s d)
            | inr (i, n) ↦ rw (n, and_then) refl
          ])
    by_table _ e = rw (db_find_property, e, and_then) refl

-- Where the way up from the object ends and its descendants are a tree in which each object stands
-- once, `db_add_propdef` refuses a name that is built in or that a definition at, above or below the
-- object has: it returns 0 and changes nothing.
pub db_add_propdef_refused :
    (db : Db) (name : CStr) (value : Var) (owner : ℤ) (flags : ℕ) (f : Family) (os : List Object)
    → Up db (root f) os
    → Spans db f
    → Distinct (members f)
    → is_taken db name os f ≡ true
    → db_add_propdef (root f) name value owner flags db ≡ ok false db
unfolding db_add_propdef
db_add_propdef_refused db name value owner flags f os u s d t =
    rw (name_taken-is_taken db name f os u s d, t, and_then) refl
