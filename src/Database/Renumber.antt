-- ===== src/Database/Renumber.antt =====
-- `db_renumber_object` of server/db_objects.c: an object gets the lowest free number below its own,
-- and every link, owner and user that names it is changed.
use waverous.Base.{
  ℕ, zero, suc, ◌+◌, true, false, Option, none, some, ℤ, pos, negsuc, eqz, List, [], ◌∷◌, ◌++◌, map,
  ltb, if◌then◌else◌, length, take, drop,
}
use waverous.Database.{Object, Db, Verbdef, Pval, find_object, put}
use waverous.Database.Chains.{nothing}
use waverous.Database.Run.{
  Cmd, Skip, fault, panic, out_of_fuel, pure, ◌>>=◌, ◌>>◌, gets, modify_db, object, store, modify,
  when,
}
use waverous.Database.Links.{Links, contents_links, child_links}
use waverous.Database.Objects.{db_priv_affected_callable_verb_lookup, is_user}
use waverous.Properties.{dbpriv_count_properties}

-- `for (_new = 0; _new < old; _new++) if (objects[_new] == 0)`: `left` numbers from `i` on.
unfoldable pub lowest_free : (left i : ℕ) → Db → Option ℕ
lowest_free zero i db = none
lowest_free (suc left) i db =
    let rest = lowest_free left (i + 1) db in elim (db.slot i) [ none ↦ some i | some o ↦ rest ]

module _ (k : Links) where
  -- `*oidp = _new`, where `oidp` runs from the link behind the item `lid` to the one that holds `old`.
  unfoldable pub relink_loop : ℕ → (lid old new : ℤ) → Cmd Skip
  relink_loop zero lid old new = λ _. out_of_fuel
  relink_loop (suc fuel) lid old new = do
    l ← object lid
    if eqz (k.next l) old
        then store lid (k.set_next l new)
        else if eqz (k.next l) nothing
        then (λ _. panic)
        else relink_loop fuel (k.next l) old new

  unfoldable pub relink : (owner old new : ℤ) → Cmd Skip
  unfolding relink_loop
  relink owner old new = do
    n ← gets (λ db. db.num_objects + 1)
    o ← object owner
    if eqz (k.head o) old
        then store owner (k.set_head o new)
        else if eqz (k.head o) nothing
        then (λ _. panic)
        else relink_loop n (k.head o) old new

  -- A write to each item of a list, from `oid` on.
  unfoldable pub each_item : (Object → Object) → ℕ → ℤ → Cmd Skip
  each_item f zero oid = λ _. out_of_fuel
  each_item f (suc fuel) oid =
      if eqz oid nothing
      then pure tt
      else do modify oid f; o ← object oid; each_item f fuel (k.next o)

-- `if (x == _new) x = NOTHING; else if (x == old) x = _new;`
unfoldable pub new_owner : (old new : ℤ) → ℤ → ℤ
new_owner old new x = if eqz x new then nothing else if eqz x old then new else x

-- The owners of an object, of its verbs and of its first `count` values.
unfoldable pub new_owners : (old new : ℤ) → (count : ℕ) → Object → Object
unfolding new_owner
new_owners old new count o = record o {
  owner = new_owner old new o.owner;
  verbdefs = map (λ (v : Verbdef). record v { owner = new_owner old new v.owner }) o.verbdefs;
  propval =
      map (λ (p : Pval). record p { owner = new_owner old new p.owner }) (take count o.propval)
      ++ drop count o.propval;
}

unfoldable pub owners_loop : (left i : ℕ) → (old new : ℤ) → Cmd Skip
unfolding new_owners dbpriv_count_properties
owners_loop zero i old new = pure tt
owners_loop (suc left) i old new = do
  found ← gets (λ db. find_object db (pos i))
  elim found [
    | none ↦ owners_loop left (i + 1) old new
    | some o ↦ do
      count ← dbpriv_count_properties (pos i)
      if ltb (length o.propval) count
          then (λ _. fault)
          else store (pos i) (new_owners old new count o)
      owners_loop left (i + 1) old new
  ]

abbrev pub replace_first : (old new : ℤ) → List ℤ → List ℤ
replace_first old new [] = []
replace_first old new (x ∷ xs) = if eqz x old then new ∷ xs else x ∷ replace_first old new xs

-- The object at its new number.
unfoldable pub move_slot : (old new : ℤ) → Object → Db → Db
move_slot old new o db = put (put db new (some (record o { id = new }))) old none

unfoldable pub renumber : (old new : ℤ) → Cmd ℤ
unfolding relink each_item owners_loop move_slot
renumber old new = do
  o ← object old
  modify_db (move_slot old new o)
  n ← gets (λ db. db.num_objects + 1)
  when (if eqz o.parent nothing then false else true) (relink child_links o.parent old new)
  each_item child_links (λ c. record c { parent = new }) n o.child
  when (if eqz o.location nothing then false else true) (relink contents_links o.location old new)
  each_item contents_links (λ c. record c { location = new }) n o.contents
  user ← is_user new
  when user (modify_db (λ db. record db { all_users = replace_first old new db.all_users }))
  count ← gets (λ db. db.num_objects)
  owners_loop count 0 old new
  pure new

abbrev below : ℤ → ℕ
below (pos n) = n
below (negsuc n) = 0

unfoldable pub db_renumber_object : ℤ → Cmd ℤ
unfolding lowest_free renumber
db_renumber_object old = do
  db_priv_affected_callable_verb_lookup
  free ← gets (lowest_free (below old) 0)
  elim free [ none ↦ pure old | some n ↦ renumber old (pos n) ]
