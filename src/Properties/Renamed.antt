-- ===== src/Properties/Renamed.antt =====
-- What `db_rename_propdef` of server/db_properties.c makes of a definition whose new name is free.
use waverous.Base.{
  ℕ, zero, suc, ◌<◌, ◌≡◌, refl, ap, sym, ◌∙◌, inl, inr, Bool, true, false, Option, none, some, ℤ,
  pos, eqz, List, [], ◌∷◌, arith, ==_refl, if◌then◌else◌, length, get_elem?, Bool-cases,
  Option-cases,
}
use waverous.Base.Int.{eqz_refl}
use mathlib.Core.Path.{ap₂}
use waverous.Text.{CStr, str_hash, mystrcasecmp}
use waverous.Database.{Object, Db, Propdef, put}
use waverous.Database.Chains.{Distinct}
use waverous.Database.Run.{Cmd, ◌>>=◌, Returns, returns, and_then, ok, pure}
use waverous.Database.Splice.{object-ok}
use waverous.Database.Wiring.{find_object-put}
use waverous.Database.Up.{Up, Distinct-numbers}
use waverous.Database.Family.{Family, root, Spans, members}
use waverous.Properties.{
  BiProp, bp_none, slot, dbpriv_new_propdef, find_built_in, ptable, is_def, def_place,
  db_find_property,
}
use waverous.Properties.Handles.{is_built_in}
use waverous.Properties.Change.{is_some_place, rename_at, name_taken, db_rename_propdef}
use waverous.Properties.Found.{
  all_defs, definer_at, value_at, AreValued, def_place-append, def_place-lt, db_find_property-found,
}
use waverous.Properties.Below.{is_taken, name_taken-is_taken}
use waverous.Properties.Written.{Up-put, handle_at}

mystrcasecmp_refl : (s : CStr) → mystrcasecmp s s ≡ pos 0
unfolding mystrcasecmp
mystrcasecmp_refl [] = refl
mystrcasecmp_refl (c ∷ s) = ground (arith, mystrcasecmp_refl s)

is_def-new : (name : CStr) → is_def name (str_hash name) (dbpriv_new_propdef name) ≡ true
unfolding is_def dbpriv_new_propdef
is_def-new name = rw (==_refl (str_hash name), mystrcasecmp_refl name, eqz_refl) refl

length-rename_at :
    (ps : List Propdef) (i : ℕ) (new : CStr) → length (rename_at ps i new) ≡ length ps
length-rename_at [] i new = refl
length-rename_at (p ∷ ps) zero new = refl
length-rename_at (p ∷ ps) (suc i) new = ap suc (length-rename_at ps i new)

-- Where the new name stood nowhere, it now stands first at the place.
def_place-rename_at :
    (ps : List Propdef) (i : ℕ) (new : CStr)
    → def_place new (str_hash new) ps ≡ none
    → i < length ps
    → def_place new (str_hash new) (rename_at ps i new) ≡ some i
unfolding def_place
def_place-rename_at [] i new h lt = absurd (omega arith)
def_place-rename_at (p ∷ ps) zero new h lt = rw (is_def-new new) refl
def_place-rename_at (p ∷ ps) (suc i) new h lt = elim (Bool-cases (is_def new (str_hash new) p)) [
  | inl t ↦ let no : some 0 ≡ none = rw t at h in cc
  | inr f ↦ elim (Option-cases (def_place new (str_hash new) ps)) [
    | inl n ↦ rw (f, def_place-rename_at ps i new n (omega arith)) refl
    | inr (j, n) ↦ let no : some (suc j) ≡ none = rw (f, n) at h in cc
  ]
]

module _ (db : Db) (x : ℤ) (o : Object) (rest : List Object) (up : Up db x (o ∷ rest))
    (valued : AreValued (o ∷ rest)) (i : ℕ) (new : CStr) where
  abbrev renamed : Object
  renamed = record o { propdefs = rename_at o.propdefs i new }

  renamed-Up : Up (put db x (some renamed)) x (renamed ∷ rest)
  renamed-Up = (
    find_object-put db x renamed x up.0 ∙ rw eqz_refl refl,
    Up-put db x o.parent renamed rest up.0 (Distinct-numbers db x (o ∷ rest) up).0 up.1,
  )

  renamed-AreValued : AreValued (renamed ∷ rest)
  renamed-AreValued = rw (length-rename_at o.propdefs i new) valued

  renamed-value_at : value_at (renamed ∷ rest) i ≡ value_at (o ∷ rest) i
  renamed-value_at = elim (Option-cases (get_elem? o.propval i)) [
    | inl n ↦ rw (value_at, n) refl
    | inr (p, n) ↦ rw (value_at, n, length-rename_at o.propdefs i new) refl
  ]

  renamed-definer_at : definer_at (renamed ∷ rest) i ≡ definer_at (o ∷ rest) i
  renamed-definer_at = rw (length-rename_at o.propdefs i new) refl

  renamed-place :
      i < length o.propdefs
      → def_place new (str_hash new) (all_defs (o ∷ rest)) ≡ none
      → def_place new (str_hash new) (all_defs (renamed ∷ rest)) ≡ some i
  renamed-place lt free = elim (Option-cases (def_place new (str_hash new) o.propdefs)) [
    | inl n ↦
        def_place-append new (str_hash new) (rename_at o.propdefs i new) (all_defs rest)
        ∙ rw (def_place-rename_at o.propdefs i new n lt) refl
    | inr (j, n) ↦
        let no : some j ≡ none =
          sym (def_place-append new (str_hash new) o.propdefs (all_defs rest) ∙ rw n refl) ∙ free in
        cc
  ]

-- A name that is not taken is not built in and stands nowhere on the way up.
not_taken :
    (db : Db) (name : CStr) (os : List Object) (f : Family)
    → is_taken db name os f ≡ false
    → (find_built_in name ptable ≡ bp_none) × (def_place name (str_hash name) (all_defs os) ≡ none)
not_taken db name os f h = (
  by_table (find_built_in name ptable) (ground arith),
  by_place (def_place name (str_hash name) (all_defs os)) (ground arith),
)
  where
    by_table : (b : BiProp) → is_built_in b ≡ false → b ≡ bp_none
    by_table bp_none e = refl
    by_table _ e = cc

    by_place : (r : Option ℕ) → is_some_place r ≡ false → r ≡ none
    by_place none e = refl
    by_place (some i) e = cc

run_then :
    {A B : Type 0} {P : B → Db → Type 0} {a : A} {db g : Db} (m : Cmd A) (k : A → Cmd B)
    → m db ≡ ok a g
    → Returns P (k a g)
    → Returns P ((m >>= k) db)
run_then m k e r = rw e r

-- Where the way up from an object ends and its values are all there, and its descendants are a tree
-- in which each object stands once, renaming one of its own definitions to a name that is not taken
-- ends with 1; then `db_find_property` finds the new name, defined by the object, and reads the
-- value that the property had.
pub db_find_property-db_rename_propdef :
    (db : Db) (f : Family) (o : Object) (rest : List Object) (old new : CStr) (i : ℕ)
    → Up db (root f) (o ∷ rest)
    → AreValued (o ∷ rest)
    → Spans db f
    → Distinct (members f)
    → def_place old (str_hash old) o.propdefs ≡ some i
    → is_taken db new (o ∷ rest) f ≡ false
    → Returns
        (λ (r : Bool) g.
          (r ≡ true)
          × (db_find_property (root f) new true g
              ≡ ok (handle_at (root f) (o ∷ rest) i, some (value_at (o ∷ rest) i)) g))
        (db_rename_propdef (root f) old new db)
unfolding db_rename_propdef
db_find_property-db_rename_propdef db f o rest old new i up valued s d at free =
    let lt : i < length o.propdefs = def_place-lt old (str_hash old) o.propdefs at in
    let (no_table, no_place) = not_taken db new (o ∷ rest) f free in
    let n : Object = renamed db (root f) o rest up valued i new in
    let g : Db = put db (root f) (some n) in
    let place : def_place new (str_hash new) (all_defs (n ∷ rest)) ≡ some i =
      renamed-place db (root f) o rest up valued i new lt no_place in
    let (found_eq, _) =
      db_find_property-found g (root f) (n ∷ rest) new
        (renamed-Up db (root f) o rest up valued i new)
        (renamed-AreValued db (root f) o rest up valued i new) no_table in
    let read : db_find_property (root f) new true g
        ≡ ok (handle_at (root f) (o ∷ rest) i, some (value_at (o ∷ rest) i)) g =
      found_eq
      ∙ rw place (
          ap₂
            (λ c v.
              ok (record { built_in = bp_none; definer = c; ptr = slot (root f) i }, some v) g)
            (renamed-definer_at db (root f) o rest up valued i new)
            (renamed-value_at db (root f) o rest up valued i new)) in
    rw (object-ok db (root f) up.0, and_then, at)
      (run_then (if eqz (mystrcasecmp old new) (pos 0) then pure false else name_taken (root f) new)
        _ (allowed (eqz (mystrcasecmp old new) (pos 0)))
        (rw (object-ok db (root f) up.0, and_then) (returns (refl, read))))
  where
    allowed : (b : Bool) → (if b then pure false else name_taken (root f) new) db ≡ ok false db
    allowed true = refl
    allowed false = name_taken-is_taken db new f (o ∷ rest) up s d ∙ ap (λ r. ok r db) free
