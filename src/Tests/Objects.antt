-- ===== src/Tests/Objects.antt =====
-- server/db_objects.c on the table of `World`.
use waverous.Base.{◌≡◌, refl, Bool, true, false, ℤ, pos, eqz, []}
use waverous.Database.{find_object, put, valid}
use waverous.Database.Chains.{nothing}
use waverous.Database.Run.{Returns, returns, ◌>>◌, object}
use waverous.Database.Location.{Located, Placed, moved, db_change_location-Located}
use waverous.Database.Creation.{Created, db_create_object-Located}
use waverous.Database.Links.{ll_remove, ll_append}
use waverous.Database.Objects.{
  db_change_location, db_create_object, db_count_contents, user, wizard, db_set_object_flag,
  db_clear_object_flag,
}
use waverous.Database.Flags.{
  UsersListed, FlagChanged, db_set_object_flag-UsersListed, db_clear_object_flag-UsersListed,
}
use waverous.Tests.World.{
  thing, world, owned, world-Located, thing-valid, nothing_ahead, world-UsersListed,
}

-- After the move the box holds one object and the room none.
move_counts :
    Returns (λ n _. n ≡ 1) ((db_change_location (pos 1) (pos 2) >> db_count_contents (pos 2)) world)
    × Returns
        (λ n _. n ≡ 0)
        ((db_change_location (pos 1) (pos 2) >> db_count_contents (pos 0)) world)
unfolding db_change_location ll_remove ll_append object find_object put valid db_count_contents eqz
move_counts = (returns refl, returns refl)

db_change_location-Located_example :
    Returns
      (λ _ g.
        Located g (moved (pos 1) (pos 2) (valid world (pos 2)) owned)
        × Placed (pos 1) (pos 2) world g)
      (db_change_location (pos 1) (pos 2) world)
db_change_location-Located_example =
    db_change_location-Located (pos 1) (pos 2) world-Located thing-valid

db_create_object-Located_example :
    Returns
      (λ oid g.
        Created (thing nothing nothing nothing nothing) world oid g
        × Located g owned
        × (owned oid ≡ [])
        × (valid g oid ≡ true))
      (db_create_object (thing nothing nothing nothing nothing) world)
db_create_object-Located_example =
    db_create_object-Located (thing nothing nothing nothing nothing) world-Located nothing_ahead

-- The last number seen, and no stop.
abbrev keep_last : ℤ → ℤ → ℤ × Bool
keep_last seen x = (x, false)

db_set_object_flag-UsersListed_example :
    Returns
      (λ _ g. UsersListed g × FlagChanged (pos 1) user true world g)
      (db_set_object_flag (pos 1) user world)
db_set_object_flag-UsersListed_example =
    db_set_object_flag-UsersListed (pos 1) user world-UsersListed thing-valid

db_clear_object_flag-UsersListed_example :
    Returns
      (λ _ g. UsersListed g × FlagChanged (pos 1) wizard false world g)
      (db_clear_object_flag (pos 1) wizard world)
db_clear_object_flag-UsersListed_example =
    db_clear_object_flag-UsersListed (pos 1) wizard world-UsersListed thing-valid
