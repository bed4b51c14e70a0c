-- ===== src/Properties.antt =====
-- The properties of objects, server/db_properties.c and the handles of server/db.h. An object holds
-- a value for each property that it or an ancestor defines: first for its own definitions, then for
-- its parent's, and so on upwards.
pub mod Handles
pub mod Change
pub mod Chparent
pub mod Found
pub mod Below
pub mod Written
pub mod Renamed
use waverous.Base.{
  ℕ, zero, suc, ◌+◌, ◌-◌, Bool, true, false, ◌&&◌, ◌||◌, Option, none, some, ℤ, pos, eqz, List, [],
  ◌∷◌, ◌++◌, ltb, leb, ◌==◌, if◌then◌else◌, length, get_elem?, take, drop,
}
use waverous.Text.{CStr, mystrcasecmp, str_hash}
use waverous.Values.{Var, Vars, int, obj, str, err, list, clear, nil, cons}
use waverous.Equality.{is_true}
use waverous.Database.{Object, Db, Propdef, Pval, find_object}
use waverous.Database.Chains.{nothing}
use waverous.Database.Run.{
  Cmd, Skip, ok, fault, panic, out_of_fuel, pure, ◌>>=◌, ◌>>◌, gets, object, store, modify,
}
use waverous.Database.Links.{contents_links}
use waverous.Database.Objects.{
  Flag, programmer, wizard, read, write, fertile, test_bit, for_all_items, db_object_name,
  db_object_owner, db_object_location, db_object_has_flag, db_set_object_name, db_set_object_owner,
  db_set_object_flag, db_clear_object_flag, is_wizard,
}

-- `enum bi_prop`
pub data BiProp : Type 0 where
  bp_none bp_name bp_owner bp_programmer bp_wizard bp_r bp_w bp_f bp_location bp_contents : BiProp

-- What the `ptr` of a handle points to: nothing, the number of an object, or a value of an object.
pub data PropPtr : Type 0 where
  null : PropPtr
  objid : ℤ → PropPtr
  slot : ℤ → ℕ → PropPtr

pub record PropHandle : Type 0 where
  pub built_in : BiProp
  pub definer : ℤ
  pub ptr : PropPtr

unfoldable pub dbpriv_new_propdef : CStr → Propdef
dbpriv_new_propdef name = record { name = name; hash = str_hash name }

-- A loop up the parents has as fuel one more than the number of objects.
unfoldable pub count_up : ℕ → ℤ → ℕ → Cmd ℕ
count_up zero oid nprops = λ _. out_of_fuel
count_up (suc fuel) oid nprops = do
  found ← gets (λ db. find_object db oid)
  elim found [ none ↦ pure nprops | some o ↦ count_up fuel o.parent (nprops + length o.propdefs) ]

unfoldable pub dbpriv_count_properties : ℤ → Cmd ℕ
unfolding count_up
dbpriv_count_properties oid = do n ← gets (λ db. db.num_objects + 1); count_up n oid 0

unfoldable pub db_count_propdefs : ℤ → Cmd ℕ
db_count_propdefs oid = do o ← object oid; pure (length o.propdefs)

module _ {D : Type 0} (func : D → CStr → D × Bool) where
  propdefs_loop : List Propdef → D → D × Bool
  propdefs_loop [] d = (d, false)
  propdefs_loop (p ∷ ps) d =
      let rest = propdefs_loop ps (func d p.name).0 in
      if (func d p.name).1 then ((func d p.name).0, true) else rest

  unfoldable pub db_for_all_propdefs : ℤ → D → Cmd (D × Bool)
  unfolding propdefs_loop
  db_for_all_propdefs oid d = do o ← object oid; pure (propdefs_loop o.propdefs d)

abbrev pub bool_int : Bool → Var
bool_int true = int (pos 1)
bool_int false = int (pos 0)

-- The callback `add_to_list`, which fills the list from its first place on.
unfoldable pub add_item : Vars → ℤ → Vars
add_item nil c = cons (obj c) nil
add_item (cons v vs) c = cons v (add_item vs c)

unfoldable pub add_to_list : Vars → ℤ → Cmd (Vars × Bool)
unfolding add_item
add_to_list d c = pure (add_item d c, false)

unfoldable pub get_bi_value : BiProp → ℤ → Cmd Var
unfolding add_to_list
get_bi_value bp_name oid = do n ← db_object_name oid; pure (str n)
get_bi_value bp_owner oid = do o ← db_object_owner oid; pure (obj o)
get_bi_value bp_programmer oid = do b ← db_object_has_flag oid programmer; pure (bool_int b)
get_bi_value bp_wizard oid = do b ← db_object_has_flag oid wizard; pure (bool_int b)
get_bi_value bp_r oid = do b ← db_object_has_flag oid read; pure (bool_int b)
get_bi_value bp_w oid = do b ← db_object_has_flag oid write; pure (bool_int b)
get_bi_value bp_f oid = do b ← db_object_has_flag oid fertile; pure (bool_int b)
get_bi_value bp_location oid = do l ← db_object_location oid; pure (obj l)
get_bi_value bp_contents oid = do
  (d, _) ← for_all_items contents_links add_to_list oid nil
  pure (list d)
get_bi_value bp_none oid = λ _. panic

-- The table `ptable`.
abbrev pub ptable : List (CStr × BiProp)
ptable =
    (b'n' ∷ b'a' ∷ b'm' ∷ b'e' ∷ [], bp_name)
    ∷ (b'o' ∷ b'w' ∷ b'n' ∷ b'e' ∷ b'r' ∷ [], bp_owner)
    ∷ (b'p' ∷ b'r' ∷ b'o' ∷ b'g' ∷ b'r' ∷ b'a' ∷ b'm' ∷ b'm' ∷ b'e' ∷ b'r' ∷ [], bp_programmer)
    ∷ (b'w' ∷ b'i' ∷ b'z' ∷ b'a' ∷ b'r' ∷ b'd' ∷ [], bp_wizard)
    ∷ (b'r' ∷ [], bp_r)
    ∷ (b'w' ∷ [], bp_w)
    ∷ (b'f' ∷ [], bp_f)
    ∷ (b'l' ∷ b'o' ∷ b'c' ∷ b'a' ∷ b't' ∷ b'i' ∷ b'o' ∷ b'n' ∷ [], bp_location)
    ∷ (b'c' ∷ b'o' ∷ b'n' ∷ b't' ∷ b'e' ∷ b'n' ∷ b't' ∷ b's' ∷ [], bp_contents)
    ∷ []

-- The first entry with the name, `bp_none` if there is none.
unfoldable pub find_built_in : CStr → List (CStr × BiProp) → BiProp
find_built_in name [] = bp_none
find_built_in name ((entry, prop) ∷ table) =
    let rest = find_built_in name table in
    if str_hash entry == str_hash name && eqz (mystrcasecmp name entry) (pos 0) then prop else rest

-- `defs[p].hash == hash && !mystrcasecmp(defs[p].name, name)`
unfoldable pub is_def : CStr → ℕ → Propdef → Bool
is_def name hash p = p.hash == hash && eqz (mystrcasecmp p.name name) (pos 0)

-- The place of the first definition with the name.
unfoldable pub def_place : CStr → ℕ → List Propdef → Option ℕ
def_place name hash [] = none
def_place name hash (p ∷ defs) =
    let rest = def_place name hash defs in
    if is_def name hash p then some 0 else elim rest [ none ↦ none | some i ↦ some (suc i) ]

abbrev pub is_clear : Var → Bool
is_clear clear = true
is_clear _ = false

-- A read of `o->propval[n]`, past the end of the array in a fault.
unfoldable pub propval_at : Object → ℕ → Cmd Pval
propval_at o n db = elim (get_elem? o.propval n) [ none ↦ fault | some p ↦ ok p db ]

-- `while (prop->var.type == TYPE_CLEAR) { ... }`
unfoldable pub clear_loop : ℕ → ℤ → ℕ → Cmd Var
unfolding propval_at
clear_loop zero oid n = λ _. out_of_fuel
clear_loop (suc fuel) oid n = do
  o ← object oid
  p ← propval_at o n
  if is_clear p.var
      then (if ltb n (length o.propdefs)
          then (λ _. fault)
          else clear_loop fuel o.parent (n - length o.propdefs))
      else pure p.var

abbrev pub no_prop : PropHandle × Option Var
no_prop = (record { built_in = bp_none; definer = nothing; ptr = null }, none)

-- `if (value) ...`
abbrev pub wanted : Bool → Cmd Var → Cmd (Option Var)
wanted true m = do v ← m; pure (some v)
wanted false m = pure none

-- The loop up the parents from `cur`; `n` counts the definitions that were passed.
unfoldable pub find_up : ℕ → ℤ → CStr → ℕ → Bool → ℤ → ℕ → Cmd (PropHandle × Option Var)
unfolding clear_loop def_place
find_up zero oid name hash value cur n = λ _. out_of_fuel
find_up (suc fuel) oid name hash value cur n = do
  found ← gets (λ db. find_object db cur)
  elim found [
    | none ↦ pure no_prop
    | some o ↦ elim (def_place name hash o.propdefs) [
      | none ↦ find_up fuel oid name hash value o.parent (n + length o.propdefs)
      | some p ↦ do
        rounds ← gets (λ db. db.num_objects + 1)
        v ← wanted value (clear_loop rounds oid (n + p))
        pure (record { built_in = bp_none; definer = o.id; ptr = slot oid (n + p) }, v)
    ]
  ]

-- The handle, and the value if it is asked for.
unfoldable pub db_find_property : ℤ → CStr → Bool → Cmd (PropHandle × Option Var)
unfolding find_up find_built_in
db_find_property oid name value = elim (find_built_in name ptable) [
  | bp_none ↦ do n ← gets (λ db. db.num_objects + 1); find_up n oid name (str_hash name) value oid 0
  | prop ↦ do
    v ← wanted value (get_bi_value prop oid)
    pure (record { built_in = prop; definer = nothing; ptr = objid oid }, v)
]
