-- ===== src/Tests/World.antt =====
-- A table of three objects: a room #0 that holds the thing #1, and an empty box #2.
use waverous.Base.{
  ℕ, zero, suc, ◌≡◌, ◌≢◌, ◌⊎◌, inl, inr, refl, ap, sym, ◌∙◌, true, false, Option, none, some, ℤ,
  pos, negsuc, eqz, [], ◌∷◌, arith,
}
use mathlib.Core.Path.{ap₂}
use waverous.Database.{Object, Db, find_object, valid}
use waverous.Database.Chains.{nothing, has, first, Linked}
use waverous.Database.Links.{contents_links}
use waverous.Database.Wiring.{heads, nexts}
use waverous.Database.Holds.{Owned}
use waverous.Database.Flags.{UsersListed, flagged}
use waverous.Database.Objects.{user, test_bit}
use waverous.Database.Location.{Located, locations}

abbrev pub thing : ℤ → ℤ → ℤ → ℤ → Object
thing id location contents next = record {
  id = id;
  owner = nothing;
  location = location;
  contents = contents;
  next = next;
  parent = nothing;
  child = nothing;
  sibling = nothing;
  name = [];
  flags = 0;
  verbdefs = [];
  propdefs = [];
  max_propdefs = 0;
  propval = [];
}

abbrev slots : ℕ → Option Object
slots zero = some (thing (pos 0) nothing (pos 1) nothing)
slots (suc zero) = some (thing (pos 1) (pos 0) nothing nothing)
slots (suc (suc zero)) = some (thing (pos 2) nothing nothing nothing)
slots (suc (suc (suc n))) = none

abbrev pub world : Db
world = record {
  slot = slots;
  num_objects = 3;
  max_objects = 100;
  all_users = [];
  vc_table = none;
  db_verb_generation = 0;
  verbcache_hit = 0;
  verbcache_neg_hit = 0;
  verbcache_miss = 0;
}

abbrev pub owned : Owned
owned (pos zero) = pos 1 ∷ []
owned (pos (suc n)) = []
owned (negsuc n) = []

inside : (x o : ℤ) → has x (owned o) ≡ true → (x ≡ pos 1) × (o ≡ pos 0)
unfolding eqz
inside (pos n) (pos zero) h = (ground arith, refl)
inside (negsuc n) (pos zero) h = cc
inside x (pos (suc m)) h = cc
inside x (negsuc m) h = cc

heads_of : (o : ℤ) → valid world o ≡ true → heads contents_links world o ≡ some (first (owned o))
unfolding valid find_object
heads_of (pos zero) v = refl
heads_of (pos (suc zero)) v = refl
heads_of (pos (suc (suc zero))) v = refl
heads_of (pos (suc (suc (suc n)))) v = ground arith
heads_of (negsuc n) v = cc

Linked-slots : (o : ℤ) → Linked (nexts contents_links world) (owned o)
unfolding find_object
Linked-slots (pos zero) = (refl, refl, tt)
Linked-slots (pos (suc n)) = tt
Linked-slots (negsuc n) = tt

unowned_of : (o : ℤ) → valid world o ≡ false → owned o ≡ []
unfolding valid find_object
unowned_of (pos zero) v = cc
unowned_of (pos (suc n)) v = refl
unowned_of (negsuc n) v = refl

location_at : (x o : ℤ) → locations world x ≡ some o → (x ≡ pos 1) × (o ≡ pos 0) ⊎ (o ≡ nothing)
unfolding find_object
location_at (pos zero) o e = ground arith
location_at (pos (suc zero)) o e = ground arith
location_at (pos (suc (suc zero))) o e = ground arith
location_at (pos (suc (suc (suc n)))) o e = ground arith
location_at (negsuc n) o e = cc

in_room : locations world (pos 1) ≡ some (pos 0)
unfolding find_object
in_room = refl

listed : has (pos 1) (owned (pos 0)) ≡ true
unfolding eqz
listed = refl

nothing-invalid : valid world nothing ≡ false
unfolding valid find_object
nothing-invalid = refl

pub world-Located : Located world owned
world-Located = record {
  holds = record {
    heads_eq = heads_of;
    linked = Linked-slots;
    apart = λ x o p i j. (inside x o i).1 ∙ sym (inside x p j).1;
    unowned = unowned_of;
  };
  location_of = λ x o h.
      let (at_x, at_o) = inside x o h in ap (locations world) at_x ∙ in_room ∙ ap some (sym at_o);
  contained = λ x o e v. elim (location_at x o e) [
    | inl (at_x, at_o) ↦ ap₂ (λ a b. has a (owned b)) at_x at_o ∙ listed
    | inr away ↦ cc (ap (valid world) away, nothing-invalid, v)
  ];
}

pub thing-valid : valid world (pos 1) ≡ true
unfolding valid find_object
thing-valid = refl

-- No object is at the number that comes next.
pub nothing_ahead : (x : ℤ) → locations world x ≢ some (pos 3)
unfolding find_object
nothing_ahead (pos zero) e = cc
nothing_ahead (pos (suc zero)) e = ground arith
nothing_ahead (pos (suc (suc zero))) e = cc
nothing_ahead (pos (suc (suc (suc n)))) e = ground arith
nothing_ahead (negsuc n) e = cc

pub room-valid : valid world (pos 0) ≡ true
unfolding valid find_object
room-valid = refl

no_users : (x : ℤ) → false ≡ flagged world x user
unfolding find_object test_bit
no_users (pos zero) = refl
no_users (pos (suc zero)) = refl
no_users (pos (suc (suc zero))) = refl
no_users (pos (suc (suc (suc n)))) = ground arith
no_users (negsuc n) = refl

pub world-UsersListed : UsersListed world
world-UsersListed = record { users_eq = no_users; once = tt }
