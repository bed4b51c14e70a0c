-- ===== src/Tests/Properties.antt =====
-- Properties of server/db_properties.c.
use waverous.Base.{false, ◌==◌, Bool, ◌≡◌, refl, true, false, some, eqz, pos, [], ◌∷◌, codes, ℕ}
use waverous.Text.{str_hash, hash_from, hash_step, mystrcasecmp, cmap}
use waverous.Values.{int}
use waverous.Database.{find_object}
use waverous.Database.Run.{ok, Returns}
use waverous.Database.Chains.{Distinct}
use waverous.Database.Family.{members}
use waverous.Properties.{
  find_built_in, ptable, bp_none, def_place, is_def, db_find_property, dbpriv_new_propdef, is_clear,
}
use waverous.Properties.Change.{property_defined_at_or_below, db_add_propdef}
use waverous.Properties.Found.{all_defs, found, value_at, db_find_property-found}
use waverous.Properties.Below.{
  any, defines, is_taken, property_defined_at_or_below-any, db_add_propdef_refused,
}
use waverous.Properties.Handles.{db_property_value, db_set_property_value}
use waverous.Properties.Written.{handle_at, db_find_property-db_set_property_value}
use waverous.Properties.Change.{db_rename_propdef}
use waverous.Properties.Renamed.{db_find_property-db_rename_propdef}
use waverous.Tests.Tree.{tree, way, way-Up, upper, upper-Up, way-AreValued, family, family-Spans}

not_built_in : find_built_in (codes "Q") ptable ≡ bp_none
unfolding find_built_in str_hash hash_from hash_step cmap mystrcasecmp eqz
not_built_in = refl

db_find_property-found_example :
    (db_find_property (pos 1) (codes "Q") true tree
      ≡ ok
          (found true (pos 1) way (def_place (codes "Q") (str_hash (codes "Q")) (all_defs way)))
          tree)
    × ((n : ℕ)
        → def_place (codes "Q") (str_hash (codes "Q")) (all_defs way) ≡ some n
        → is_clear (value_at way n) ≡ false)
db_find_property-found_example =
    db_find_property-found tree (pos 1) way (codes "Q") way-Up way-AreValued not_built_in

-- The child has a clear value, so that its parent's counts.
q_place : def_place (codes "Q") (str_hash (codes "Q")) (all_defs way) ≡ some 1
unfolding def_place is_def dbpriv_new_propdef str_hash hash_from hash_step cmap mystrcasecmp eqz
q_place = refl

inherited : value_at way 1 ≡ int (pos 5)
inherited = refl

members-Distinct : Distinct (members family)
unfolding eqz
members-Distinct = (refl, (refl, tt))

property_defined_at_or_below-any_example :
    property_defined_at_or_below (codes "z") (str_hash (codes "z")) (pos 0) tree
    ≡ ok (any (defines tree (codes "z")) (members family)) tree
property_defined_at_or_below-any_example =
    property_defined_at_or_below-any tree (codes "z") family family-Spans members-Distinct

z_taken : is_taken tree (codes "z") (upper ∷ []) family ≡ true
unfolding find_built_in def_place find_object is_def dbpriv_new_propdef str_hash hash_from hash_step
    cmap mystrcasecmp eqz
z_taken = refl

db_add_propdef_refused_example :
    db_add_propdef (pos 0) (codes "z") (int (pos 3)) (pos 0) 0 tree ≡ ok false tree
db_add_propdef_refused_example =
    db_add_propdef_refused tree (codes "z") (int (pos 3)) (pos 0) 0 family (upper ∷ []) upper-Up
      family-Spans members-Distinct z_taken

-- The machine's test for the double 0.
abbrev fzero : ℕ → Bool
fzero n = n == 0

db_find_property-db_set_property_value_example :
    Returns
      (λ (_ : Unit {0}) g.
        (db_property_value (handle_at (pos 1) way 1) g ≡ ok (int (pos 8)) g)
        × (db_find_property (pos 1) (codes "Q") true g
            ≡ ok (handle_at (pos 1) way 1, some (int (pos 8))) g))
      (db_set_property_value fzero (handle_at (pos 1) way 1) (int (pos 8)) tree)
db_find_property-db_set_property_value_example =
    db_find_property-db_set_property_value fzero tree (pos 1) way (codes "Q") (int (pos 8)) 1 way-Up
      way-AreValued not_built_in q_place refl

weight_free : is_taken tree (codes "weight") (upper ∷ []) family ≡ false
unfolding find_built_in def_place find_object is_def dbpriv_new_propdef str_hash hash_from hash_step
    cmap mystrcasecmp eqz
weight_free = refl

q_first : def_place (codes "Q") (str_hash (codes "Q")) upper.propdefs ≡ some 0
unfolding def_place is_def dbpriv_new_propdef str_hash hash_from hash_step cmap mystrcasecmp eqz
q_first = refl

db_find_property-db_rename_propdef_example :
    Returns
      (λ (r : Bool) g.
        (r ≡ true)
        × (db_find_property (pos 0) (codes "weight") true g
            ≡ ok (handle_at (pos 0) (upper ∷ []) 0, some (value_at (upper ∷ []) 0)) g))
      (db_rename_propdef (pos 0) (codes "Q") (codes "weight") tree)
db_find_property-db_rename_propdef_example =
    db_find_property-db_rename_propdef tree family upper [] (codes "Q") (codes "weight") 0 upper-Up
      way-AreValued.2 family-Spans members-Distinct q_first weight_free
