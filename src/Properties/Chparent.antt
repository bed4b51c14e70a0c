-- ===== src/Properties/Chparent.antt =====
-- What a change of parent does to the properties: the check before it and the new arrays of values
-- after it, of server/db_properties.c, and `db_change_parent` of server/db_objects.c.
use waverous.Base.{
  ℕ, zero, suc, ◌+◌, ◌-◌, Bool, true, false, ◌&&◌, ◌||◌, not, Option, none, some, ℤ, eqz, List, [],
  ◌∷◌, ◌++◌, map, ltb, ◌==◌, if◌then◌else◌, length, take, drop,
}
use waverous.Database.{Object, Propdef, Pval, Verbdef, find_object}
use waverous.Database.Chains.{nothing}
use waverous.Database.Run.{
  Cmd, Skip, fault, out_of_fuel, pure, ◌>>=◌, ◌>>◌, gets, object, store, modify, when,
}
use waverous.Database.Links.{child_links, ll_remove, ll_append}
use waverous.Database.Objects.{db_object_parent, db_priv_affected_callable_verb_lookup}
use waverous.Properties.{dbpriv_count_properties}
use waverous.Properties.Change.{property_defined_at_or_below, enough, chown, cleared}

abbrev pub values_of : Option Object → List Pval
values_of none = []
values_of (some o) = o.propval

-- The values of `me`: its own and those of descendants of the new parent, then those that come with
-- the new parent, then those of the common ancestor. A read out of bounds is a fault.
unfoldable pub fixed :
    Object → List Pval → (local parent_local old new common : ℕ) → Option (List Pval)
unfolding chown
fixed me parent local parent_local old new common =
    if ltb (length me.propval) (local + old + common)
      || (not (new == 0) && ltb (length parent) (parent_local + new))
    then none
    else some (
        take local me.propval
        ++ (map (λ p. chown me (cleared p)) (take new (drop parent_local parent))
            ++ take common (drop (local + old) me.propval)))

abbrev pub or_fault : {A : Type 0} → Option A → Cmd A
or_fault none = λ _. fault
or_fault (some a) = pure a

unfoldable mutual
  unfolding fixed

  pub fix_loop : ℕ → ℤ → (parent_local old new common : ℕ) → Cmd Skip
  fix_loop zero oid parent_local old new common = λ _. out_of_fuel
  fix_loop (suc fuel) oid parent_local old new common = do
    me ← object oid
    parent ← gets (λ db. find_object db me.parent)
    values ← or_fault (
        fixed me (values_of parent) (parent_local + length me.propdefs) parent_local old new common)
    store oid (record me { propval = values })
    fix_below fuel me.child (parent_local + length me.propdefs) old new common

  pub fix_below : ℕ → ℤ → (local old new common : ℕ) → Cmd Skip
  fix_below zero c local old new common = λ _. out_of_fuel
  fix_below (suc fuel) c local old new common = if eqz c nothing then pure tt else do
    fix_loop fuel c local old new common
    o ← object c
    fix_below fuel o.sibling local old new common

unfoldable pub fix_props : ℤ → (parent_local old new common : ℕ) → Cmd Skip
unfolding fix_loop enough
fix_props oid parent_local old new common = do
  n ← gets enough
  fix_loop n oid parent_local old new common

-- Is one of the definitions at or below the object?
unfoldable pub any_below : List Propdef → ℤ → Cmd Bool
unfolding property_defined_at_or_below
any_below [] oid = pure false
any_below (p ∷ ps) oid = do
  b ← property_defined_at_or_below p.name p.hash oid
  if b then pure true else any_below ps oid

unfoldable pub check_up : ℕ → ℤ → ℤ → Cmd Bool
unfolding any_below
check_up zero oid cur = λ _. out_of_fuel
check_up (suc fuel) oid cur = do
  found ← gets (λ db. find_object db cur)
  elim found [
    | none ↦ pure true
    | some o ↦ do b ← any_below o.propdefs oid; if b then pure false else check_up fuel oid o.parent
  ]

unfoldable pub dbpriv_check_properties_for_chparent : ℤ → ℤ → Cmd Bool
unfolding check_up
dbpriv_check_properties_for_chparent oid new_parent = do
  n ← gets (λ db. db.num_objects + 1)
  check_up n oid new_parent

-- The inner loop: is `o1` on the way up from `o2`?
unfoldable pub on_way_up : ℕ → ℤ → ℤ → Cmd Bool
on_way_up zero o1 o2 = λ _. out_of_fuel
on_way_up (suc fuel) o1 o2 =
    if eqz o2 nothing
    then pure false
    else if eqz o1 o2
    then pure true
    else do p ← db_object_parent o2; on_way_up fuel o1 p

-- The outer loop.
unfoldable pub common_ancestor : ℕ → ℤ → ℤ → Cmd ℤ
unfolding on_way_up
common_ancestor zero o1 old_parent = λ _. out_of_fuel
common_ancestor (suc fuel) o1 old_parent = if eqz o1 nothing then pure nothing else do
  n ← gets (λ db. db.num_objects + 1)
  b ← on_way_up n o1 old_parent
  if b then pure o1 else do p ← db_object_parent o1; common_ancestor fuel p old_parent

-- The common ancestor stands above both parents, so that no difference is negative.
unfoldable pub dbpriv_fix_properties_after_chparent : ℤ → ℤ → Cmd Skip
unfolding common_ancestor fix_props dbpriv_count_properties
dbpriv_fix_properties_after_chparent oid old_parent = do
  new_parent ← db_object_parent oid
  n ← gets (λ db. db.num_objects + 1)
  common ← common_ancestor n new_parent old_parent
  common_props ← (if eqz common nothing then pure 0 else dbpriv_count_properties common)
  old_count ← dbpriv_count_properties old_parent
  new_count ← dbpriv_count_properties new_parent
  fix_props oid 0 (old_count - common_props) (new_count - common_props) common_props

abbrev has_verbs : List Verbdef → Bool
has_verbs [] = false
has_verbs (v ∷ vs) = true

unfoldable pub db_change_parent : ℤ → ℤ → Cmd Bool
unfolding dbpriv_check_properties_for_chparent dbpriv_fix_properties_after_chparent
db_change_parent oid parent = do
  fits ← dbpriv_check_properties_for_chparent oid parent
  if not fits then pure false else do
    o ← object oid
    when (not (eqz o.child nothing) || has_verbs o.verbdefs) db_priv_affected_callable_verb_lookup
    n ← gets (λ db. db.num_objects + 1)
    when (not (eqz o.parent nothing)) (ll_remove child_links n o.parent oid)
    when (not (eqz parent nothing)) (ll_append child_links n parent oid)
    modify oid (λ o. record o { parent = parent })
    dbpriv_fix_properties_after_chparent oid o.parent
    pure true
