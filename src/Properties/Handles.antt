-- ===== src/Properties/Handles.antt =====
-- The functions of server/db_properties.c on a handle: value, owner and flags of a property.
use waverous.Base.{ℕ, zero, suc, Bool, true, false, ℤ, eqz, List, [], ◌∷◌, if◌then◌else◌}
use waverous.Values.{Var, str, obj}
use waverous.Equality.{is_true}
use waverous.Database.{Pval}
use waverous.Database.Run.{Cmd, Skip, fault, panic, pure, ◌>>=◌, object, store}
use waverous.Database.Objects.{
  Flag, programmer, wizard, read, write, fertile, test_bit, db_set_object_name, db_set_object_owner,
  db_set_object_flag, db_clear_object_flag, is_wizard,
}
use waverous.Properties.{
  BiProp, bp_none, bp_name, bp_owner, bp_programmer, bp_wizard, bp_r, bp_w, bp_f, PropPtr, objid,
  slot, PropHandle, get_bi_value, propval_at,
}

abbrev pub set : List Pval → ℕ → Pval → List Pval
set [] i v = []
set (p ∷ ps) zero v = v ∷ ps
set (p ∷ ps) (suc i) v = p ∷ set ps i v

-- `*(Pval *) h.ptr`
unfoldable pub slot_of : PropPtr → Cmd Pval
unfolding propval_at
slot_of (slot oid n) = do o ← object oid; propval_at o n
slot_of _ = λ _. fault

unfoldable pub update_slot : PropPtr → (Pval → Pval) → Cmd Skip
unfolding propval_at
update_slot (slot oid n) f = do
  o ← object oid
  p ← propval_at o n
  store oid (record o { propval = set o.propval n (f p) })
update_slot _ f = λ _. fault

-- `*((Objid *) h.ptr)`
abbrev pub objid_of : PropPtr → Cmd ℤ
objid_of (objid oid) = pure oid
objid_of _ = λ _. fault

abbrev pub is_built_in : BiProp → Bool
is_built_in bp_none = false
is_built_in _ = true

unfoldable pub db_property_value : PropHandle → Cmd Var
unfolding slot_of
db_property_value h =
    if is_built_in h.built_in
    then (do oid ← objid_of h.ptr; get_bi_value h.built_in oid)
    else (do p ← slot_of h.ptr; pure p.var)

-- `fzero` is the test `*v.v.fnum == 0.0` of the machine.
module _ (fzero : ℕ → Bool) where
  set_flag : ℤ → Flag → Var → Cmd Skip
  set_flag oid f v =
      if is_true fzero v then db_set_object_flag oid f else db_clear_object_flag oid f

  set_bi_value : BiProp → ℤ → Var → Cmd Skip
  unfolding set_flag
  set_bi_value bp_name oid (str s) = db_set_object_name oid s
  set_bi_value bp_owner oid (obj o) = db_set_object_owner oid o
  set_bi_value bp_programmer oid v = set_flag oid programmer v
  set_bi_value bp_wizard oid v = set_flag oid wizard v
  set_bi_value bp_r oid v = set_flag oid read v
  set_bi_value bp_w oid v = set_flag oid write v
  set_bi_value bp_f oid v = set_flag oid fertile v
  set_bi_value _ oid v = λ _. panic

  unfoldable pub db_set_property_value : PropHandle → Var → Cmd Skip
  unfolding update_slot set_bi_value
  db_set_property_value h v =
      if is_built_in h.built_in
      then (do oid ← objid_of h.ptr; set_bi_value h.built_in oid v)
      else update_slot h.ptr (λ p. record p { var = v })

-- A built-in property has no owner and no flags.
abbrev pub not_built_in : {A : Type 0} → PropHandle → Cmd A → Cmd A
not_built_in h m = if is_built_in h.built_in then (λ _. panic) else m

unfoldable pub db_property_owner : PropHandle → Cmd ℤ
db_property_owner h = not_built_in h (do p ← slot_of h.ptr; pure p.owner)

unfoldable pub db_set_property_owner : PropHandle → ℤ → Cmd Skip
db_set_property_owner h oid = not_built_in h (update_slot h.ptr (λ p. record p { owner = oid }))

unfoldable pub db_property_flags : PropHandle → Cmd ℕ
db_property_flags h = not_built_in h (do p ← slot_of h.ptr; pure p.perms)

unfoldable pub db_set_property_flags : PropHandle → ℕ → Cmd Skip
db_set_property_flags h flags = not_built_in h (update_slot h.ptr (λ p. record p { perms = flags }))

-- `enum db_prop_flag`, as the place of its bit.
pub data PropFlag : Type 0 where
  pf_read pf_write pf_chown : PropFlag

abbrev pub prop_bit : PropFlag → ℕ
prop_bit pf_read = 0
prop_bit pf_write = 1
prop_bit pf_chown = 2

unfoldable pub db_property_allows : PropHandle → ℤ → PropFlag → Cmd Bool
unfolding db_property_flags db_property_owner
db_property_allows h progr flag = do
  flags ← db_property_flags h
  if test_bit flags (prop_bit flag)
      then pure true
      else do owner ← db_property_owner h; if eqz progr owner then pure true else is_wizard progr
