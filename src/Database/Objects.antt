-- ===== src/Database/Objects.antt =====
-- The operations of server/db_objects.c on objects, their flags and their locations.
use waverous.Base.{
  ℕ, zero, suc, ◌+◌, ◌-◌, ◌*◌, ◌/◌, ◌%◌, ◌^◌, Bool, true, false, not, ◌&&◌, none, some, ℤ, pos, eqz,
  [], ◌∷◌, ◌++◌, leb, ◌==◌, if◌then◌else◌,
}
use waverous.Base.Int.{sub_ℕ}
use waverous.Text.{CStr}
use waverous.Database.{Object, Db, find_object, valid, put}
use waverous.Database.Chains.{nothing, has, erase}
use waverous.Database.Run.{
  Cmd, Skip, ok, fault, panic, out_of_fuel, pure, ◌>>=◌, ◌>>◌, gets, modify_db, object, modify,
  when,
}
use waverous.Database.Links.{Links, contents_links, child_links, ll_remove, ll_append}

unfoldable pub db_last_used_objid : Db → ℤ
db_last_used_objid db = sub_ℕ db.num_objects 1

-- `while (!objects[num_objects - 1]) num_objects--;` with the count as the measure. The array is
-- read in front of its start if no object is left.
unfoldable pub reset_loop : ℕ → Cmd Skip
reset_loop zero db = fault
reset_loop (suc n) db =
    let rest = reset_loop n (record db { num_objects = n }) in
    elim (db.slot n) [ none ↦ rest | some o ↦ ok tt db ]

unfoldable pub db_reset_last_used_objid : Cmd Skip
unfolding reset_loop
db_reset_last_used_objid db = reset_loop db.num_objects db

-- The array of pointers grows; what it holds is kept.
unfoldable pub ensure_new_object : Cmd Skip
ensure_new_object db =
    let size = if db.max_objects == 0 then 100 else db.max_objects in
    ok tt (record db { max_objects = if leb size db.num_objects then size * 2 else size })

-- `raw` is what `mymalloc` returned, with whatever its fields hold.
unfoldable pub dbpriv_new_object : Object → Cmd ℤ
unfolding ensure_new_object
dbpriv_new_object raw = do
  ensure_new_object
  n ← gets (λ db. db.num_objects)
  modify_db (λ db. record db {
    slot = λ i. if i == n then some (record raw { id = pos n }) else db.slot i;
    num_objects = n + 1;
  })
  pure (pos n)

unfoldable pub dbpriv_new_recycled_object : Cmd Skip
unfolding ensure_new_object
dbpriv_new_recycled_object = do
  ensure_new_object
  modify_db (λ db. record db {
    slot = λ i. if i == db.num_objects then none else db.slot i;
    num_objects = db.num_objects + 1;
  })

-- The fields that a new object is given; its owner is left as it was found.
abbrev pub blank : Object → Object
blank o = record o {
  name = [];
  flags = 0;
  parent = nothing;
  child = nothing;
  sibling = nothing;
  location = nothing;
  contents = nothing;
  next = nothing;
  propval = [];
  max_propdefs = 0;
  propdefs = [];
  verbdefs = [];
}

unfoldable pub db_create_object : Object → Cmd ℤ
unfolding dbpriv_new_object
db_create_object raw = do oid ← dbpriv_new_object raw; modify oid blank; pure oid

-- `enum db_object_flag` of server/db.h.
pub data Flag : Type 0 where
  user programmer wizard read write fertile : Flag

abbrev pub bit : Flag → ℕ
bit user = 0
bit programmer = 1
bit wizard = 2
bit read = 4
bit write = 5
bit fertile = 7

-- `flags & (1 << f)`
unfoldable pub test_bit : ℕ → ℕ → Bool
test_bit flags f = flags / 2 ^ f % 2 == 1

-- `flags | (1 << f)` and `flags & ~(1 << f)`
unfoldable pub set_bit : ℕ → ℕ → ℕ
unfolding test_bit
set_bit flags f = if test_bit flags f then flags else flags + 2 ^ f

unfoldable pub clear_bit : ℕ → ℕ → ℕ
unfolding test_bit
clear_bit flags f = if test_bit flags f then flags - 2 ^ f else flags

unfoldable pub db_object_has_flag : ℤ → Flag → Cmd Bool
unfolding test_bit
db_object_has_flag oid f = do o ← object oid; pure (test_bit o.flags (bit f))

abbrev pub is_user_flag : Flag → Bool
is_user_flag user = true
is_user_flag _ = false

-- `setadd(all_users, v)` and `setremove(all_users, v)`.
unfoldable pub add_user : ℤ → Db → Db
add_user oid db = record db {
  all_users = if has oid db.all_users then db.all_users else db.all_users ++ oid ∷ [];
}

unfoldable pub remove_user : ℤ → Db → Db
remove_user oid db = record db { all_users = erase oid db.all_users }

unfoldable pub db_set_object_flag : ℤ → Flag → Cmd Skip
unfolding set_bit add_user
db_set_object_flag oid f = do
  modify oid (λ o. record o { flags = set_bit o.flags (bit f) })
  when (is_user_flag f) (modify_db (add_user oid))

unfoldable pub db_clear_object_flag : ℤ → Flag → Cmd Skip
unfolding clear_bit remove_user
db_clear_object_flag oid f = do
  modify oid (λ o. record o { flags = clear_bit o.flags (bit f) })
  when (is_user_flag f) (modify_db (remove_user oid))

-- `valid(oid) && db_object_has_flag(oid, f)`: the second is asked only of a valid object.
unfoldable pub valid_with : Flag → ℤ → Cmd Bool
valid_with f oid = do
  v ← gets (λ db. valid db oid)
  if v then db_object_has_flag oid f else pure false

unfoldable pub is_wizard : ℤ → Cmd Bool
unfolding valid_with
is_wizard = valid_with wizard

unfoldable pub is_programmer : ℤ → Cmd Bool
unfolding valid_with
is_programmer = valid_with programmer

unfoldable pub is_user : ℤ → Cmd Bool
unfolding valid_with
is_user = valid_with user

unfoldable pub db_object_owner : ℤ → Cmd ℤ
db_object_owner oid = do o ← object oid; pure o.owner

unfoldable pub db_set_object_owner : ℤ → ℤ → Cmd Skip
db_set_object_owner oid owner = modify oid (λ o. record o { owner = owner })

unfoldable pub db_object_name : ℤ → Cmd CStr
db_object_name oid = do o ← object oid; pure o.name

unfoldable pub db_set_object_name : ℤ → CStr → Cmd Skip
db_set_object_name oid name = modify oid (λ o. record o { name = name })

unfoldable pub db_object_parent : ℤ → Cmd ℤ
db_object_parent oid = do o ← object oid; pure o.parent

unfoldable pub db_object_allows : ℤ → ℤ → Flag → Cmd Bool
unfolding db_object_owner is_wizard
db_object_allows oid progr f = do
  owner ← db_object_owner oid
  if eqz progr owner
      then pure true
      else do w ← is_wizard progr; if w then pure true else db_object_has_flag oid f

-- Each of the four links that must be -1.
abbrev is_barren : Object → Bool
is_barren o =
    eqz o.location nothing && eqz o.contents nothing && eqz o.parent nothing && eqz o.child nothing

-- Of server/db_verbs.c: every bucket of the verb cache is emptied, once there is a table.
unfoldable pub db_priv_affected_callable_verb_lookup : Cmd Skip
db_priv_affected_callable_verb_lookup db = elim db.vc_table [
  | none ↦ ok tt db
  | some table ↦
      ok tt
        (record db { vc_table = some (λ _. []); db_verb_generation = db.db_verb_generation + 1 })
]

unfoldable pub db_destroy_object : ℤ → Cmd Skip
unfolding is_user remove_user db_priv_affected_callable_verb_lookup
db_destroy_object oid = do
  db_priv_affected_callable_verb_lookup
  found ← gets (λ db. find_object db oid)
  elim found [
    | none ↦ λ _. panic
    | some o ↦ if not (is_barren o) then (λ _. panic) else do
      u ← is_user oid
      when u (modify_db (remove_user oid))
      modify_db (λ db. put db oid none)
  ]

unfoldable pub db_object_location : ℤ → Cmd ℤ
db_object_location oid = do o ← object oid; pure o.location

-- The two loops run through a list of at most `num_objects` items.
unfoldable pub db_change_location : ℤ → ℤ → Cmd Skip
db_change_location oid location = do
  o ← object oid
  n ← gets (λ db. db.num_objects + 1)
  old ← gets (λ db. valid db o.location)
  when old (ll_remove contents_links n o.location oid)
  new ← gets (λ db. valid db location)
  when new (ll_append contents_links n location oid)
  modify oid (λ o. record o { location = location })

module _ (k : Links) where
  -- The loop of `db_count_children` and of `db_count_contents`.
  unfoldable pub count_loop : ℕ → ℤ → ℕ → Cmd ℕ
  count_loop zero c i = λ _. out_of_fuel
  count_loop (suc fuel) c i =
      if eqz c nothing then pure i else do o ← object c; count_loop fuel (k.next o) (i + 1)

  unfoldable pub count_items : ℤ → Cmd ℕ
  unfolding count_loop
  count_items oid = do
    o ← object oid
    n ← gets (λ db. db.num_objects + 1)
    count_loop n (k.head o) 0

  -- The loop of `db_for_all_children` and of `db_for_all_contents`, with a callback that updates
  -- its data and says whether to stop.
  module _ {D : Type 0} (func : D → ℤ → Cmd (D × Bool)) where
    unfoldable pub for_all_loop : ℕ → ℤ → D → Cmd (D × Bool)
    for_all_loop zero c d = λ _. out_of_fuel
    for_all_loop (suc fuel) c d = if eqz c nothing then pure (d, false) else do
      o ← object c
      called ← func d c
      if called.1 then pure (called.0, true) else for_all_loop fuel (k.next o) called.0

    unfoldable pub for_all_items : ℤ → D → Cmd (D × Bool)
    unfolding for_all_loop
    for_all_items oid d = do
      o ← object oid
      n ← gets (λ db. db.num_objects + 1)
      for_all_loop n (k.head o) d

unfoldable pub db_count_children : ℤ → Cmd ℕ
unfolding count_items
db_count_children = count_items child_links

unfoldable pub db_count_contents : ℤ → Cmd ℕ
unfolding count_items
db_count_contents = count_items contents_links
