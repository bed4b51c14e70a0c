-- ===== src/Properties/Written.antt =====
-- A value that is set with `db_set_property_value` of server/db_properties.c is the one that
-- `db_find_property` and `db_property_value` read.
use waverous.Base.{
  ℕ, zero, suc, ◌+◌, ◌<◌, ◌≡◌, ◌⊎◌, refl, ap, sym, ◌∙◌, inl, inr, Bool, true, false, some, ℤ, eqz,
  eqz_iff, List, [], ◌∷◌, arith, length, length-append, get_elem?, Bool-cases,
}
use waverous.Base.Int.{eqz_refl}
use waverous.Text.{CStr, str_hash}
use waverous.Values.{Var}
use waverous.Database.{Object, Db, Pval, find_object, put}
use waverous.Database.Chains.{has}
use waverous.Database.Run.{Returns, returns, and_then, ok}
use waverous.Database.Splice.{object-ok}
use waverous.Database.Wiring.{find_object-put}
use waverous.Database.Up.{Up, numbers, Distinct-numbers}
use waverous.Properties.{
  bp_none, slot, PropHandle, find_built_in, ptable, def_place, is_clear, propval_at,
  db_find_property,
}
use waverous.Properties.Handles.{
  set, slot_of, update_slot, db_property_value, db_set_property_value,
}
use waverous.Properties.Found.{
  all_defs, definer_at, value_at, AreValued, get_elem?-lt, def_place-lt, db_find_property-found,
}

length-set : (ps : List Pval) (i : ℕ) (w : Pval) → length (set ps i w) ≡ length ps
length-set [] i w = refl
length-set (p ∷ ps) zero w = refl
length-set (p ∷ ps) (suc i) w = ap suc (length-set ps i w)

get_elem?-set :
    (ps : List Pval) (i : ℕ) (w : Pval) → i < length ps → get_elem? (set ps i w) i ≡ some w
get_elem?-set [] i w h = absurd (omega arith)
get_elem?-set (p ∷ ps) zero w h = refl
get_elem?-set (p ∷ ps) (suc i) w h = get_elem?-set ps i w (omega arith)

-- What stands in the list after a write is the new value or was there before.
set-cases :
    (ps : List Pval) (i j : ℕ) (w q : Pval)
    → get_elem? (set ps i w) j ≡ some q
    → (w ≡ q) ⊎ (get_elem? ps j ≡ some q)
set-cases [] i j w q e = cc
set-cases (p ∷ ps) zero zero w q e = inl cc
set-cases (p ∷ ps) zero (suc j) w q e = inr e
set-cases (p ∷ ps) (suc i) zero w q e = inr e
set-cases (p ∷ ps) (suc i) (suc j) w q e = set-cases ps i j w q e

-- A write to an object leaves a way up that does not pass it.
pub Up-put :
    (db : Db) (x y : ℤ) {o : Object} (n : Object) (os : List Object)
    → find_object db x ≡ some o
    → has x (numbers y os) ≡ false
    → Up db y os
    → Up (put db x (some n)) y os
Up-put db x y n [] at k u = find_object-put db x n y at ∙ (elim (Bool-cases (eqz y x)) [
  | inl t ↦ let same : y ≡ x = (eqz_iff y x).0 t in cc (ap (find_object db) same, u, at)
  | inr f ↦ rw f u
])
Up-put db x y n (p ∷ os) at k u = (
  find_object-put db x n y at ∙ (elim (Bool-cases (eqz y x)) [
    | inl t ↦
        let here : eqz x y ≡ true = (eqz_iff x y).1 (sym ((eqz_iff y x).0 t)) in
        let there : has x (numbers y (p ∷ os)) ≡ true = rw here refl in cc (there, k)
    | inr f ↦ rw f u.0
  ]),
  Up-put db x p.parent n os at (ground arith) u.1,
)

module _ (db : Db) (x : ℤ) (o : Object) (rest : List Object) (up : Up db x (o ∷ rest)) (n : ℕ)
    (p : Pval) (v : Var) where
  abbrev written : Object
  written = record o { propval = set o.propval n (record p { var = v }) }

  written-AreValued : is_clear v ≡ false → AreValued (o ∷ rest) → AreValued (written ∷ rest)
  written-AreValued c a = (
    length-set o.propval n (record p { var = v }) ∙ a.0,
    (λ i q lt e. elim (set-cases o.propval n i (record p { var = v }) q e) [
      | inl same ↦ let var_eq : v ≡ q.var = ap (λ (r : Pval). r.var) same in rw⁻¹ var_eq c
      | inr old ↦ a.1 i q lt old
    ]),
    a.2,
  )

  written-Up : Up (put db x (some written)) x (written ∷ rest)
  written-Up = (
    find_object-put db x written x up.0 ∙ rw eqz_refl refl,
    Up-put db x o.parent written rest up.0 (Distinct-numbers db x (o ∷ rest) up).0 up.1,
  )

  -- The write itself, and the read through the handle.
  slot-written :
      (fzero : ℕ → Bool) (definer : ℤ)
      → get_elem? o.propval n ≡ some p
      → n < length o.propval
      → let h : PropHandle = record { built_in = bp_none; definer = definer; ptr = slot x n } in
        (db_set_property_value fzero h v db ≡ ok tt (put db x (some written)))
        × (db_property_value h (put db x (some written)) ≡ ok v (put db x (some written)))
  unfolding db_set_property_value db_property_value slot_of update_slot propval_at
  slot-written fzero definer e lt = (
    rw (object-ok db x up.0, and_then, e, propval_at) refl,
    rw
        (
          object-ok (put db x (some written)) x written-Up.0,
          and_then,
          get_elem?-set o.propval n (record p { var = v }) lt,
          propval_at,
        )
        refl,
  )

-- The handle of the property at a place of the flat list of definitions.
abbrev pub handle_at : ℤ → List Object → ℕ → PropHandle
handle_at x os n = record { built_in = bp_none; definer = definer_at os n; ptr = slot x n }

-- If the way up from an object ends and its values are all there, then for a name that is not
-- built in and stands in the flat list of definitions, setting a value that is not clear through
-- the handle that `db_find_property` finds ends well; then the handle reads that value, and
-- `db_find_property` finds the same handle and reads that value.
pub db_find_property-db_set_property_value :
    (fzero : ℕ → Bool) (db : Db) (x : ℤ) (os : List Object) (name : CStr) (v : Var) (n : ℕ)
    → Up db x os
    → AreValued os
    → find_built_in name ptable ≡ bp_none
    → def_place name (str_hash name) (all_defs os) ≡ some n
    → is_clear v ≡ false
    → Returns
        (λ (_ : Unit {0}) g.
          (db_property_value (handle_at x os n) g ≡ ok v g)
          × (db_find_property x name true g ≡ ok (handle_at x os n, some v) g))
        (db_set_property_value fzero (handle_at x os n) v db)
unfolding def_place
db_find_property-db_set_property_value fzero db x [] name v n up a b d c = cc
db_find_property-db_set_property_value fzero db x (o ∷ rest) name v n up a b d c =
    let size : length (all_defs (o ∷ rest)) ≡ length o.propdefs + length (all_defs rest) =
      length-append o.propdefs (all_defs rest) in
    let lt : n < length o.propval =
      omega (arith, size, a.0, def_place-lt name (str_hash name) (all_defs (o ∷ rest)) d) in
    let (p, e) = get_elem?-lt o.propval n lt in
    let (set_eq, get_eq) = slot-written db x o rest up n p v fzero (definer_at (o ∷ rest) n) e lt in
    let w : Object = written db x o rest up n p v in
    let (found_eq, _) =
      db_find_property-found (put db x (some w)) x (w ∷ rest) name (written-Up db x o rest up n p v)
        (written-AreValued db x o rest up n p v c a) b in
    let here : get_elem? w.propval n ≡ some (record p { var = v }) =
      get_elem?-set o.propval n (record p { var = v }) lt in
    rw set_eq (returns (get_eq, found_eq ∙ rw (d, value_at, here, c) refl))
