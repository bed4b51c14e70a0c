-- ===== src/Database/Family.antt =====
-- The descendants of an object in the table of server/db_objects.c, as the tree that the links
-- `child` and `sibling` spell out.
use waverous.Base.{
  ℕ, suc, ◌+◌, ◌≤◌, ◌≡◌, refl, ap, ◌∙◌, inl, inr, true, ◌||◌, some, ℤ, eqz, eqz_iff, List, [], ◌∷◌,
  ◌++◌, arith, length, length-append, Bool-cases,
}
use waverous.Database.{Object, Db, find_object}
use waverous.Database.Chains.{nothing, has, Distinct, length-le-bound}
use waverous.Database.Up.{find-inside}

mutual
  pub data Family : Type 0 where
    node : ℤ → Families → Family

  pub data Families : Type 0 where
    nil : Families
    cons : Family → Families → Families

abbrev pub root : Family → ℤ
root (node x fs) = x

-- The tree is there: each node's children are those that its links lead to, in order.
abbrev mutual
  pub Spans : Db → Family → Type 0
  Spans db (node x fs) = (o : Object) × (find_object db x ≡ some o) × Kids db o.child fs

  pub Kids : Db → ℤ → Families → Type 0
  Kids db c nil = c ≡ nothing
  Kids db c (cons f fs) =
      (c ≡ root f)
      × Spans db f
      × ((o : Object) × (find_object db c ≡ some o) × Kids db o.sibling fs)

abbrev mutual
  pub members : Family → List ℤ
  members (node x fs) = x ∷ all_members fs

  pub all_members : Families → List ℤ
  all_members nil = []
  all_members (cons f fs) = members f ++ all_members fs

-- The fuel that a recursion over the tree takes.
abbrev mutual
  pub rounds : Family → ℕ
  rounds (node x fs) = suc (all_rounds fs)

  pub all_rounds : Families → ℕ
  all_rounds nil = 1
  all_rounds (cons f fs) = rounds f + all_rounds fs

mutual
  rounds-members : (f : Family) → rounds f ≡ length (members f) + length (members f)
  rounds-members (node x fs) = omega (arith, all_rounds-members fs)

  all_rounds-members :
      (fs : Families) → all_rounds fs ≡ suc (length (all_members fs) + length (all_members fs))
  all_rounds-members nil = omega arith
  all_rounds-members (cons f fs) =
      omega
        (arith, rounds-members f, all_rounds-members fs, length-append (members f) (all_members fs))

pub rounds-pos : (f : Family) → 1 ≤ rounds f
rounds-pos (node x fs) = omega arith

pub all_rounds-pos : (fs : Families) → 1 ≤ all_rounds fs
all_rounds-pos fs = omega (arith, all_rounds-members fs)

has-append_either : (a : ℤ) (xs ys : List ℤ) → has a (xs ++ ys) ≡ (has a xs || has a ys)
has-append_either a [] ys = refl
has-append_either a (x ∷ xs) ys = ground (arith, has-append_either a xs ys)

module _ (db : Db) (a : ℤ) where
  mutual
    member-found :
        (f : Family)
        → Spans db f
        → has a (members f) ≡ true
        → (o : Object) × (find_object db a ≡ some o)
    member-found (node x fs) s h = elim (Bool-cases (eqz a x)) [
      | inl t ↦ (s.0, ap (find_object db) ((eqz_iff a x).0 t) ∙ s.1)
      | inr n ↦ all_member-found fs s.0.child s.2 (ground arith)
    ]

    all_member-found :
        (fs : Families) (c : ℤ)
        → Kids db c fs
        → has a (all_members fs) ≡ true
        → (o : Object) × (find_object db a ≡ some o)
    all_member-found nil c k h = cc
    all_member-found (cons f fs) c k h = elim (Bool-cases (has a (members f))) [
      | inl t ↦ member-found f k.1 t
      | inr n ↦
          all_member-found fs k.2.0.sibling k.2.2
            (ground (arith, has-append_either a (members f) (all_members fs)))
    ]

-- A tree in which each object stands once takes at most two rounds for each object of the table.
pub rounds-le :
    (db : Db) (f : Family)
    → Spans db f
    → Distinct (members f)
    → rounds f ≤ db.num_objects + db.num_objects
rounds-le db f s d = omega (
  arith,
  rounds-members f,
  length-le-bound db.num_objects (members f) d
      λ a h. let (o, e) = member-found db a f s h in find-inside db a e,
)
