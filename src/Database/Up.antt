-- ===== src/Database/Up.antt =====
-- The way up from an object through its parents, which many loops of server/db_objects.c,
-- server/db_properties.c and server/db_verbs.c follow until there is no object.
use waverous.Base.{
  ℕ, ◌≤◌, ◌<◌, ◌≡◌, refl, ap, sym, ◌∙◌, inl, inr, true, none, some, ℤ, pos, negsuc, eqz, eqz_iff,
  List, [], ◌∷◌, arith, length, Bool-cases,
}
use mathlib.Core.Path.{ap₂, subst}
use waverous.Database.{Object, Db, find_object}
use waverous.Database.Chains.{has, Distinct, length-le-bound}

-- The objects on the way up from the number, itself included, and no object behind the last.
abbrev pub Up : Db → ℤ → List Object → Type 0
Up db x [] = find_object db x ≡ none
Up db x (o ∷ os) = (find_object db x ≡ some o) × Up db o.parent os

pub Up-unique : (db : Db) (x : ℤ) (os ps : List Object) → Up db x os → Up db x ps → os ≡ ps
Up-unique db x [] [] u v = refl
Up-unique db x [] (o ∷ ps) u v = cc
Up-unique db x (o ∷ os) [] u v = cc
Up-unique db x (o ∷ os) (p ∷ ps) u v =
    let e : p ≡ o = cc in
    ap₂ (λ q qs. q ∷ qs) (sym e)
      (Up-unique db o.parent os ps u.1 (subst (λ (q : Object). Up db q.parent ps) e v.1))

abbrev pub numbers : ℤ → List Object → List ℤ
numbers x [] = []
numbers x (o ∷ os) = x ∷ numbers o.parent os

length-numbers : (x : ℤ) (os : List Object) → length (numbers x os) ≡ length os
length-numbers x [] = refl
length-numbers x (o ∷ os) = omega (arith, length-numbers o.parent os)

-- From a number on the way up, the way goes on with what is left.
later :
    (db : Db) (x y : ℤ) (os : List Object)
    → Up db x os
    → has y (numbers x os) ≡ true
    → (o : Object) × (rest : List Object) × Up db y (o ∷ rest) × (length rest < length os)
later db x y [] u h = cc
later db x y (o ∷ os) u h = elim (Bool-cases (eqz y x)) [
  | inl t ↦
      let e : x ≡ y = sym ((eqz_iff y x).0 t) in
      (o, os, (ap (find_object db) (sym e) ∙ u.0, u.1), omega arith)
  | inr f ↦
      let (p, rest, v, lt) = later db o.parent y os u.1 (ground arith) in (p, rest, v, omega arith)
]

pub Distinct-numbers : (db : Db) (x : ℤ) (os : List Object) → Up db x os → Distinct (numbers x os)
Distinct-numbers db x [] u = tt
Distinct-numbers db x (o ∷ os) u = (
  elim (Bool-cases (has x (numbers o.parent os))) [
    | inl t ↦
        let (p, rest, v, lt) = later db o.parent x os u.1 t in
        let same : o ∷ os ≡ p ∷ rest = Up-unique db x (o ∷ os) (p ∷ rest) u v in
        absurd (omega (arith, ap (length {A = Object}) same))
    | inr f ↦ f
  ],
  Distinct-numbers db o.parent os u.1,
)

pub find-inside :
    (db : Db) (a : ℤ) {o : Object}
    → find_object db a ≡ some o
    → (m : ℕ) × (a ≡ pos m) × (m < db.num_objects)
unfolding find_object
find-inside db (pos m) h = (m, refl, ground arith)
find-inside db (negsuc m) h = cc

-- No way up is longer than the table.
pub Up-length : (db : Db) (x : ℤ) (os : List Object) → Up db x os → length os ≤ db.num_objects
Up-length db x os u = omega (
  arith,
  length-numbers x os,
  length-le-bound db.num_objects (numbers x os) (Distinct-numbers db x os u)
      λ a h. let (o, rest, v, lt) = later db x a os u h in find-inside db a v.0,
)
