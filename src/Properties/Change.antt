-- ===== src/Properties/Change.antt =====
-- The functions of server/db_properties.c that add, rename and delete the definition of a property,
-- with the values of all descendants.
use waverous.Base.{
  ℕ, zero, suc, ◌+◌, ◌-◌, ◌*◌, ◌/◌, Bool, true, false, ◌&&◌, ◌||◌, not, Option, none, some, ℤ, pos,
  eqz, List, [], ◌∷◌, ◌++◌, ltb, leb, ◌==◌, if◌then◌else◌, length, take, drop,
}
use waverous.Text.{CStr, mystrcasecmp, str_hash}
use waverous.Values.{Var, clear}
use waverous.Database.{Object, Db, Propdef, Pval}
use waverous.Database.Chains.{nothing}
use waverous.Database.Run.{
  Cmd, Skip, fault, out_of_fuel, pure, ◌>>=◌, ◌>>◌, gets, object, store, modify,
}
use waverous.Database.Objects.{test_bit}
use waverous.Properties.{
  PropPtr, null, dbpriv_new_propdef, dbpriv_count_properties, def_place, db_find_property,
}

abbrev pub is_some_place : Option ℕ → Bool
is_some_place none = false
is_some_place (some i) = true

-- The recursion through the descendants and the loop over the children share their fuel. Each object
-- takes two rounds of it, so that twice the number of objects, and two, is enough for a tree.
unfoldable pub enough : Db → ℕ
enough db = db.num_objects + db.num_objects + 2

unfoldable mutual
  unfolding def_place

  pub defined_at_or_below : ℕ → CStr → ℕ → ℤ → Cmd Bool
  defined_at_or_below zero pname phash oid = λ _. out_of_fuel
  defined_at_or_below (suc fuel) pname phash oid = do
    o ← object oid
    if is_some_place (def_place pname phash o.propdefs)
        then pure true
        else defined_below fuel pname phash o.child

  pub defined_below : ℕ → CStr → ℕ → ℤ → Cmd Bool
  defined_below zero pname phash c = λ _. out_of_fuel
  defined_below (suc fuel) pname phash c = if eqz c nothing then pure false else do
    b ← defined_at_or_below fuel pname phash c
    if b then pure true else do o ← object c; defined_below fuel pname phash o.sibling

unfoldable pub property_defined_at_or_below : CStr → ℕ → ℤ → Cmd Bool
unfolding defined_at_or_below enough
property_defined_at_or_below pname phash oid = do
  n ← gets enough
  defined_at_or_below n pname phash oid

-- `if (perms & PF_CHOWN) owner = o->owner;`
unfoldable pub chown : Object → Pval → Pval
unfolding test_bit
chown o p = if test_bit p.perms 2 then record p { owner = o.owner } else p

-- A new array of `nprops` values, with `pval` at `place`; a read or write out of bounds is a fault.
unfoldable pub insert_prop : ℤ → ℕ → Pval → Cmd Skip
unfolding chown
insert_prop oid place pval = do
  nprops ← dbpriv_count_properties oid
  o ← object oid
  if leb nprops place || ltb (length o.propval) (nprops - 1)
      then (λ _. fault)
      else store oid (record o {
        propval =
            take place o.propval ++ chown o pval ∷ take (nprops - 1 - place) (drop place o.propval);
      })

abbrev pub cleared : Pval → Pval
cleared p = record p { var = clear }

unfoldable mutual
  unfolding insert_prop

  pub insert_recursively : ℕ → ℤ → ℕ → Pval → Cmd Skip
  insert_recursively zero root root_pos pv = λ _. out_of_fuel
  insert_recursively (suc fuel) root root_pos pv = do
    insert_prop root root_pos pv
    o ← object root
    insert_below fuel o.child root_pos (cleared pv)

  pub insert_below : ℕ → ℤ → ℕ → Pval → Cmd Skip
  insert_below zero c root_pos pv = λ _. out_of_fuel
  insert_below (suc fuel) c root_pos pv = if eqz c nothing then pure tt else do
    o ← object c
    insert_recursively fuel c (length o.propdefs + root_pos) pv
    o' ← object c
    insert_below fuel o'.sibling root_pos pv

unfoldable pub insert_prop_recursively : ℤ → ℕ → Pval → Cmd Skip
unfolding insert_recursively enough
insert_prop_recursively root root_pos pv = do n ← gets enough; insert_recursively n root root_pos pv

abbrev pub is_null : PropPtr → Bool
is_null null = true
is_null _ = false

-- The array of definitions is doubled when it is full.
abbrev pub room_for_def : Object → Object
room_for_def o =
    if length o.propdefs == o.max_propdefs
    then record o { max_propdefs = if o.max_propdefs == 0 then 8 else 2 * o.max_propdefs }
    else o

abbrev pub append_def : CStr → Object → Object
append_def pname o = record (room_for_def o) {
  propdefs = o.propdefs ++ dbpriv_new_propdef pname ∷ [];
}

-- `h.ptr || property_defined_at_or_below(...)`
unfoldable pub name_taken : ℤ → CStr → Cmd Bool
unfolding property_defined_at_or_below db_find_property
name_taken oid pname = do
  (h, _) ← db_find_property oid pname false
  if not (is_null h.ptr) then pure true else property_defined_at_or_below pname (str_hash pname) oid

unfoldable pub db_add_propdef : ℤ → CStr → Var → ℤ → ℕ → Cmd Bool
unfolding name_taken insert_prop_recursively dbpriv_new_propdef
db_add_propdef oid pname value owner flags = do
  taken ← name_taken oid pname
  if taken then pure false else do
    modify oid (append_def pname)
    o ← object oid
    insert_prop_recursively oid (length o.propdefs - 1)
        (record { var = value; owner = owner; perms = flags })
    pure true

-- The list with another definition at the place.
abbrev pub rename_at : List Propdef → ℕ → CStr → List Propdef
rename_at [] i new = []
rename_at (p ∷ ps) zero new = dbpriv_new_propdef new ∷ ps
rename_at (p ∷ ps) (suc i) new = p ∷ rename_at ps i new

unfoldable pub db_rename_propdef : ℤ → CStr → CStr → Cmd Bool
unfolding name_taken dbpriv_new_propdef def_place
db_rename_propdef oid old new = do
  o ← object oid
  elim (def_place old (str_hash old) o.propdefs) [
    | none ↦ pure false
    | some i ↦ do
      taken ← (if eqz (mystrcasecmp old new) (pos 0) then pure false else name_taken oid new)
      if taken
          then pure false
          else do modify oid (λ o. record o { propdefs = rename_at o.propdefs i new }); pure true
  ]

unfoldable pub remove_prop : ℤ → ℕ → Cmd Skip
remove_prop oid place = do
  o ← object oid
  nprops ← dbpriv_count_properties oid
  if leb (length o.propval) place
        || (not (nprops == 0) && (ltb nprops place || leb (length o.propval) nprops))
      then (λ _. fault)
      else store oid (record o {
        propval =
            if nprops == 0
            then []
            else take place o.propval ++ take (nprops - place) (drop (place + 1) o.propval);
      })

unfoldable mutual
  unfolding remove_prop

  pub remove_recursively : ℕ → ℤ → ℕ → Cmd Skip
  remove_recursively zero root root_pos = λ _. out_of_fuel
  remove_recursively (suc fuel) root root_pos = do
    remove_prop root root_pos
    o ← object root
    remove_below fuel o.child root_pos

  pub remove_below : ℕ → ℤ → ℕ → Cmd Skip
  remove_below zero c root_pos = λ _. out_of_fuel
  remove_below (suc fuel) c root_pos = if eqz c nothing then pure tt else do
    o ← object c
    remove_recursively fuel c (length o.propdefs + root_pos)
    o' ← object c
    remove_below fuel o'.sibling root_pos

unfoldable pub remove_prop_recursively : ℤ → ℕ → Cmd Skip
unfolding remove_recursively enough
remove_prop_recursively root root_pos = do n ← gets enough; remove_recursively n root root_pos

-- The definition is taken out, and the array halved when it is nearly empty.
abbrev pub delete_def : ℕ → Object → Object
delete_def i o = record o {
  propdefs = take i o.propdefs ++ drop (i + 1) o.propdefs;
  max_propdefs =
      if ltb 8 o.max_propdefs && leb (length o.propdefs) (o.max_propdefs * 3 / 8)
      then o.max_propdefs / 2
      else o.max_propdefs;
}

unfoldable pub db_delete_propdef : ℤ → CStr → Cmd Bool
unfolding remove_prop_recursively def_place
db_delete_propdef oid pname = do
  o ← object oid
  elim (def_place pname (str_hash pname) o.propdefs) [
    | none ↦ pure false
    | some i ↦ do modify oid (delete_def i); remove_prop_recursively oid i; pure true
  ]
