-- ===== src/Tests/Tree.antt =====
-- A table of two objects: #0 with the property `q` and the verb `l*ook`, and its child #1 with a
-- property of its own.
use waverous.Base.{
  ℕ, zero, suc, ◌≡◌, refl, false, Option, none, some, ℤ, pos, negsuc, List, [], ◌∷◌, ◌<◌, arith,
  codes, length, get_elem?,
}
use waverous.Values.{Var, int, clear}
use waverous.Database.{Object, Db, Pval, find_object}
use waverous.Database.Chains.{nothing}
use waverous.Database.Up.{Up}
use waverous.Database.Family.{Family, node, nil, cons, Spans}
use waverous.Properties.{dbpriv_new_propdef, is_clear}
use waverous.Properties.Found.{AreValued}
use waverous.Verbs.Coherent.{HaveIds}
use waverous.Verbs.Views.{Coherent}

abbrev value : Var → Pval
value v = record { var = v; owner = pos 0; perms = 0 }

abbrev pub upper : Object
upper = record {
  id = pos 0;
  owner = pos 0;
  location = nothing;
  contents = nothing;
  next = nothing;
  parent = nothing;
  child = pos 1;
  sibling = nothing;
  name = [];
  flags = 0;
  verbdefs =
      record { name = codes "l*ook"; program = 0; owner = pos 0; perms = 4; prep = negsuc 0 } ∷ [];
  propdefs = dbpriv_new_propdef (codes "q") ∷ [];
  max_propdefs = 8;
  propval = value (int (pos 5)) ∷ [];
}

abbrev pub lower_one : Object
lower_one = record upper {
  id = pos 1;
  parent = pos 0;
  child = nothing;
  verbdefs = [];
  propdefs = dbpriv_new_propdef (codes "z") ∷ [];
  propval = value (int (pos 1)) ∷ value clear ∷ [];
}

abbrev slots : ℕ → Option Object
slots zero = some upper
slots (suc zero) = some lower_one
slots (suc (suc n)) = none

abbrev pub tree : Db
tree = record {
  slot = slots;
  num_objects = 2;
  max_objects = 100;
  all_users = [];
  vc_table = none;
  db_verb_generation = 0;
  verbcache_hit = 0;
  verbcache_neg_hit = 0;
  verbcache_miss = 0;
}

abbrev pub way : List Object
way = lower_one ∷ upper ∷ []

pub way-Up : Up tree (pos 1) way
unfolding find_object
way-Up = (refl, (refl, refl))

pub upper-Up : Up tree (pos 0) (upper ∷ [])
unfolding find_object
upper-Up = (refl, refl)

abbrev pub family : Family
family = node (pos 0) (cons (node (pos 1) nil) nil)

pub family-Spans : Spans tree family
unfolding find_object
family-Spans = (upper, refl, (refl, (lower_one, refl, refl), (lower_one, refl, refl)))

own_value :
    (o : Object) (v : Var) (ps : List Pval)
    → o.propval ≡ value v ∷ ps
    → is_clear v ≡ false
    → length o.propdefs ≡ 1
    → (i : ℕ) (p : Pval) → i < length o.propdefs
    → get_elem? o.propval i ≡ some p
    → is_clear p.var ≡ false
own_value o v ps e c k zero p lt h =
    let at : some (value v) ≡ some p = rw e at h in let same : v ≡ p.var = cc in rw⁻¹ same c
own_value o v ps e c k (suc i) p lt h = absurd (omega (arith, k))

pub way-AreValued : AreValued way
way-AreValued = (
  refl,
  own_value lower_one (int (pos 1)) (value clear ∷ []) refl refl refl,
  (refl, own_value upper (int (pos 5)) [] refl refl refl, tt),
)

ups : (x : ℤ) → (os : List Object) × Up tree x os
unfolding find_object
ups (pos zero) = (upper ∷ [], (refl, refl))
ups (pos (suc zero)) = (way, (refl, (refl, refl)))
ups (pos (suc (suc n))) = ([], ground arith)
ups (negsuc n) = ([], refl)

tree-HaveIds : HaveIds tree
unfolding find_object
tree-HaveIds (pos zero) o e = cc
tree-HaveIds (pos (suc zero)) o e = cc
tree-HaveIds (pos (suc (suc n))) o e = ground arith
tree-HaveIds (negsuc n) o e = cc

pub tree-Coherent : Coherent tree
tree-Coherent = (tree-HaveIds, tt, ups)
