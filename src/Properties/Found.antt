-- ===== src/Properties/Found.antt =====
-- `db_find_property` and `dbpriv_count_properties` of server/db_properties.c against one flat list:
-- the definitions of an object, of its parent, and so on upwards.
use waverous.Base.{
  ℕ, zero, suc, ◌+◌, ◌-◌, ◌<◌, ◌≡◌, refl, ap, ◌∙◌, inl, inr, Bool, true, false, Option, none, some,
  ℤ, negsuc, List, [], ◌∷◌, ◌++◌, arith, length, length-append, get_elem?, ltb, if◌then◌else◌,
  Bool-cases, Option-cases,
}
use waverous.Text.{CStr, str_hash}
use waverous.Values.{Var, clear}
use waverous.Database.{Object, Db, Propdef, Pval, find_object}
use waverous.Database.Run.{and_then, ok, pure, ◌>>=◌}
use waverous.Database.Splice.{object-ok}
use waverous.Database.Up.{Up, Up-length}
use waverous.Properties.{
  bp_none, slot, PropHandle, count_up, dbpriv_count_properties, find_built_in, ptable, def_place,
  is_clear, propval_at, clear_loop, no_prop, wanted, find_up, db_find_property,
}

abbrev pub all_defs : List Object → List Propdef
all_defs [] = []
all_defs (o ∷ os) = o.propdefs ++ all_defs os

-- Who defines the property at the place of the flat list.
abbrev pub definer_at : List Object → ℕ → ℤ
definer_at [] n = negsuc 0
definer_at (o ∷ os) n =
    if ltb n (length o.propdefs) then o.id else definer_at os (n - length o.propdefs)

-- The first value on the way up that is not clear.
abbrev pub value_at : List Object → ℕ → Var
value_at [] n = clear
value_at (o ∷ os) n = elim (get_elem? o.propval n) [
  | none ↦ clear
  | some p ↦ if is_clear p.var then value_at os (n - length o.propdefs) else p.var
]

-- Each object on the way up has a value for each property, and one that is not clear for its own.
abbrev pub AreValued : List Object → Type 0
AreValued [] = Unit
AreValued (o ∷ os) =
    (length o.propval ≡ length o.propdefs + length (all_defs os))
    × ((i : ℕ) (p : Pval)
        → i < length o.propdefs
        → get_elem? o.propval i ≡ some p
        → is_clear p.var ≡ false)
    × AreValued os

pub get_elem?-lt : (ps : List Pval) (n : ℕ) → n < length ps → (p : Pval) × (get_elem? ps n ≡ some p)
get_elem?-lt [] n h = absurd (omega arith)
get_elem?-lt (p ∷ ps) zero h = (p, refl)
get_elem?-lt (p ∷ ps) (suc n) h = get_elem?-lt ps n (omega arith)

abbrev pub shift : ℕ → Option ℕ → Option ℕ
shift k none = none
shift k (some i) = some (k + i)

pub def_place-append :
    (name : CStr) (hash : ℕ) (xs ys : List Propdef)
    → def_place name hash (xs ++ ys) ≡ elim (def_place name hash xs) [
      | some i ↦ some i
      | none ↦ shift (length xs) (def_place name hash ys)
    ]
unfolding def_place
def_place-append name hash [] ys = ground arith
def_place-append name hash (x ∷ xs) ys = ground (arith, def_place-append name hash xs ys)

pub def_place-lt :
    (name : CStr) (hash : ℕ) (xs : List Propdef) {n : ℕ}
    → def_place name hash xs ≡ some n
    → n < length xs
unfolding def_place
def_place-lt name hash [] h = cc
def_place-lt name hash (x ∷ xs) {n} h = elim (Option-cases (def_place name hash xs)) [
  | inl e ↦ ground arith
  | inr (i, e) ↦ ground (arith, def_place-lt name hash xs e)
]

value_at-step :
    (o : Object) (os : List Object) (n : ℕ) (p : Pval)
    → get_elem? o.propval n ≡ some p
    → value_at (o ∷ os) n ≡ (if is_clear p.var then value_at os (n - length o.propdefs) else p.var)
value_at-step o os n p e = rw (e, value_at)

module _ (db : Db) where
  count_up-length :
      (fuel : ℕ) (x : ℤ) (n : ℕ) (os : List Object)
      → Up db x os
      → length os < fuel
      → count_up fuel x n db ≡ ok (n + length (all_defs os)) db
  unfolding count_up
  count_up-length zero x n os u h = absurd (omega arith)
  count_up-length (suc fuel) x n [] u h = rw u (ap (λ k. ok k db) (omega arith))
  count_up-length (suc fuel) x n (o ∷ os) u h = rw u.0 (
      count_up-length fuel o.parent (n + length o.propdefs) os u.1 (omega arith)
      ∙ ap (λ k. ok k db) (omega (arith, length-append o.propdefs (all_defs os))))

  -- If the way up from an object ends, counting its properties ends, with as many as there are
  -- definitions on that way.
  pub dbpriv_count_properties-length :
      (x : ℤ) (os : List Object)
      → Up db x os
      → dbpriv_count_properties x db ≡ ok (length (all_defs os)) db
  unfolding dbpriv_count_properties
  dbpriv_count_properties-length x os u =
      count_up-length (db.num_objects + 1) x 0 os u (omega (arith, Up-length db x os u))
      ∙ ap (λ k. ok k db) (omega arith)

  value_at-clear_loop :
      (fuel : ℕ) (x : ℤ) (n : ℕ) (os : List Object)
      → Up db x os
      → AreValued os
      → length os < fuel
      → n < length (all_defs os)
      → (clear_loop fuel x n db ≡ ok (value_at os n) db) × (is_clear (value_at os n) ≡ false)
  unfolding clear_loop
  value_at-clear_loop zero x n os u a h k = absurd (omega arith)
  value_at-clear_loop (suc fuel) x n [] u a h k = absurd (omega arith)
  value_at-clear_loop (suc fuel) x n (o ∷ os) u a h k =
      let more : n < length o.propdefs + length (all_defs os) =
        omega (arith, length-append o.propdefs (all_defs os)) in
      let (p, e) = get_elem?-lt o.propval n (omega (arith, a.0)) in
      rw (object-ok db x u.0, propval_at, e, value_at-step o os n p e)
        (elim (Bool-cases (is_clear p.var)) [
          | inl c ↦
              let own : ltb n (length o.propdefs) ≡ false =
                elim (Bool-cases (ltb n (length o.propdefs))) [
                  | inl t ↦ cc (a.1 n p (ground arith) e)
                  | inr f ↦ f
                ] in
              rw (c, own)
                (value_at-clear_loop fuel o.parent (n - length o.propdefs) os u.1 a.2 (omega arith)
                  (ground arith))
          | inr f ↦ rw f (refl, f)
        ])

-- The outcome of the search for a name, from its place in the flat list.
abbrev pub found : Bool → ℤ → List Object → Option ℕ → PropHandle × Option Var
found value x os none = no_prop
found value x os (some n) = (
  record { built_in = bp_none; definer = definer_at os n; ptr = slot x n },
  if value then some (value_at os n) else none,
)

shift-shift : (n k : ℕ) (i : Option ℕ) → shift (n + k) i ≡ shift n (shift k i)
shift-shift n k none = refl
shift-shift n k (some i) = ap some (omega arith)

module _ (db : Db) (x : ℤ) (whole : List Object) (up : Up db x whole) (name : CStr) (value : Bool)
    (valued : value ≡ true → AreValued whole) where
  -- The read of the value, if it is asked for.
  read :
      (b : Bool) (n : ℕ) (h : PropHandle)
      → (b ≡ true → AreValued whole)
      → n < length (all_defs whole)
      → ◌>>=◌ {B = PropHandle × Option Var}
          (wanted b (clear_loop (db.num_objects + 1) x n))
          (λ v. pure (h, v))
          db
        ≡ ok (h, if b then some (value_at whole n) else none) db
  read true n h a lt =
      rw
        (
          (value_at-clear_loop db (db.num_objects + 1) x n whole up (a refl)
              (omega (arith, Up-length db x whole up)) lt).0,
          and_then,
        )
        refl
  read false n h a lt = refl

  find_up-next :
      (fuel : ℕ) (cur : ℤ) (n : ℕ) (o : Object)
      → find_object db cur ≡ some o
      → def_place name (str_hash name) o.propdefs ≡ none
      → find_up (suc fuel) x name (str_hash name) value cur n db
        ≡ find_up fuel x name (str_hash name) value o.parent (n + length o.propdefs) db
  unfolding find_up
  find_up-next fuel cur n o u e = rw (u, e, find_up, and_then) refl

  find_up-found :
      (fuel : ℕ) (cur : ℤ) (n : ℕ) (os : List Object)
      → Up db cur os
      → length os < fuel
      → n + length (all_defs os) ≡ length (all_defs whole)
      → ((i : ℕ) → i < length (all_defs os) → definer_at whole (n + i) ≡ definer_at os i)
      → find_up fuel x name (str_hash name) value cur n db
        ≡ ok (found value x whole (shift n (def_place name (str_hash name) (all_defs os)))) db
  unfolding find_up
  find_up-found zero cur n os u h b d = absurd (omega arith)
  find_up-found (suc fuel) cur n [] u h b d = rw u (unfold def_place in refl)
  find_up-found (suc fuel) cur n (o ∷ os) u h b d =
      rw (def_place-append name (str_hash name) o.propdefs (all_defs os))
        (elim (Option-cases (def_place name (str_hash name) o.propdefs)) [
          | inl e ↦
              find_up-next fuel cur n o u.0 e
              ∙ rw e (
                  find_up-found fuel o.parent (n + length o.propdefs) os u.1 (omega arith)
                    (omega (arith, size))
                    (λ i lt.
                      ap (definer_at whole) (omega arith)
                      ∙ d (length o.propdefs + i) (omega (arith, size))
                      ∙ above i)
                  ∙ ap (λ r. ok (found value x whole r) db)
                      (shift-shift n (length o.propdefs)
                        (def_place name (str_hash name) (all_defs os))))
          | inr (i, e) ↦
              let lt : i < length o.propdefs = def_place-lt name (str_hash name) o.propdefs e in
              let within : i < length (all_defs (o ∷ os)) = omega (arith, size) in
              rw (u.0, e, d i within, here i lt, find_up, and_then)
                (read value (n + i)
                  (record { built_in = bp_none; definer = o.id; ptr = slot x (n + i) }) valued
                  (omega arith))
        ])
    where
      size : length (all_defs (o ∷ os)) ≡ length o.propdefs + length (all_defs os)
      size = length-append o.propdefs (all_defs os)

      here : (i : ℕ) → i < length o.propdefs → definer_at (o ∷ os) i ≡ o.id
      here i lt = ground arith

      above : (i : ℕ) → definer_at (o ∷ os) (length o.propdefs + i) ≡ definer_at os i
      above i =
          go (length o.propdefs + i - length o.propdefs)
            (ltb (length o.propdefs + i) (length o.propdefs)) (omega arith) (ground arith)
        where
          go :
              (m : ℕ) (b : Bool)
              → m ≡ i
              → b ≡ false
              → (if b then o.id else definer_at os m) ≡ definer_at os i
          go m b p q = rw (p, q)

  -- A name that is not built in is found where it stands first in the flat list.
  pub db_find_property-place :
      find_built_in name ptable ≡ bp_none
      → db_find_property x name value db
        ≡ ok (found value x whole (def_place name (str_hash name) (all_defs whole))) db
  unfolding db_find_property
  db_find_property-place b =
      rw (b, db_find_property)
        (find_up-found (db.num_objects + 1) x 0 whole up (omega (arith, Up-length db x whole up))
            (omega arith) (λ i lt. ap (definer_at whole) (omega arith))
          ∙ ap (λ r. ok (found value x whole r) db)
              (none_added (def_place name (str_hash name) (all_defs whole))))
    where
      none_added : (r : Option ℕ) → shift 0 r ≡ r
      none_added none = refl
      none_added (some i) = ap some (omega arith)

-- If the way up from an object ends and its values are all there, `db_find_property` finds a name
-- that is not built in where it stands first in the flat list of definitions, and no other. The
-- value that it reads is the first on the way up that is not clear, and there is one.
pub db_find_property-found :
    (db : Db) (x : ℤ) (os : List Object) (name : CStr)
    → Up db x os
    → AreValued os
    → find_built_in name ptable ≡ bp_none
    → (db_find_property x name true db
        ≡ ok (found true x os (def_place name (str_hash name) (all_defs os))) db)
      × ((n : ℕ)
          → def_place name (str_hash name) (all_defs os) ≡ some n
          → is_clear (value_at os n) ≡ false)
db_find_property-found db x os name up valued b = (
  db_find_property-place db x os up name true (λ _. valued) b,
  λ n e.
      (value_at-clear_loop db (db.num_objects + 1) x n os up valued
        (omega (arith, Up-length db x os up))
        (def_place-lt name (str_hash name) (all_defs os) e)).1,
)
