-- ===== src/Verbs/Views.antt =====
-- What the verb cache of server/db_verbs.c depends on: tables that look alike from there have the
-- same entries right.
use waverous.Base.{
  ℕ, ◌≡◌, refl, ap, sym, ◌∙◌, inl, inr, Bool, true, Option, none, some, ℤ, List, [], ◌∷◌, All,
  Bool-cases, Option-cases,
}
use mathlib.Core.Path.{subst}
use waverous.Text.{CStr}
use waverous.Database.{Object, Db, VcEntry, find_object}
use waverous.Database.Up.{Up}
use waverous.Verbs.{apart, find_verbdef_by_name}
use waverous.Verbs.Callable.{callable, first_verbs}
use waverous.Verbs.Cache.{Buckets, key_of, has_verbs}
use waverous.Verbs.Coherent.{HaveIds, IsRight, AreRight}

-- The cache is right, each object has its number, and the way up from each number ends.
abbrev pub Coherent : Db → Type 0
Coherent db = HaveIds db × AreRight db db.vc_table × ((x : ℤ) → (os : List Object) × Up db x os)

-- What the way up depends on.
abbrev pub shape : Option Object → Option (ℤ × ℤ)
shape none = none
shape (some o) = some (o.id, o.parent)

-- What a search for an executable verb depends on.
abbrev pub view : Option Object → Option (ℤ × ℤ × Bool × (CStr → Option ℕ))
view none = none
view (some o) =
    some (o.id, o.parent, has_verbs o.verbdefs, λ w. find_verbdef_by_name apart o w true)

module _ (db g : Db) (same : (x : ℤ) → shape (find_object g x) ≡ shape (find_object db x)) where
  HaveIds-shape : HaveIds db → HaveIds g
  HaveIds-shape ids x o e = elim (Option-cases (find_object db x)) [
    | inl n ↦ let p : shape (some o) ≡ none = sym (ap shape e) ∙ same x ∙ ap shape n in cc
    | inr (q, n) ↦
        let p : shape (some o) ≡ shape (some q) = sym (ap shape e) ∙ same x ∙ ap shape n in
        cc (p, ids x q n)
  ]

  Up-shape : (x : ℤ) (os : List Object) → Up db x os → (ps : List Object) × Up g x ps
  Up-shape x [] u = elim (Option-cases (find_object g x)) [
    | inl n ↦ ([], n)
    | inr (o, n) ↦ let p : shape (some o) ≡ none = sym (ap shape n) ∙ same x ∙ ap shape u in cc
  ]
  Up-shape x (o ∷ os) u = elim (Option-cases (find_object g x)) [
    | inl n ↦ let p : none ≡ shape (some o) = sym (ap shape n) ∙ same x ∙ ap shape u.0 in cc
    | inr (q, n) ↦
        let p : shape (some q) ≡ shape (some o) = sym (ap shape n) ∙ same x ∙ ap shape u.0 in
        let at : o.parent ≡ q.parent = cc in
        let (ps, v) = Up-shape o.parent os u.1 in (q ∷ ps, (n, subst (λ y. Up g y ps) at v))
  ]

-- Without entries, the cache is right if the numbers and the ways up are there.
pub Coherent-shape :
    (db g : Db)
    → ((x : ℤ) → shape (find_object g x) ≡ shape (find_object db x))
    → AreRight g g.vc_table
    → Coherent db
    → Coherent g
Coherent-shape db g same a (ids, _, ups) =
    (HaveIds-shape db g same ids, a, λ x. let (os, u) = ups x in Up-shape db g same x os u)

callable-alike :
    (o q : Object) (os ps : List Object) (w : CStr)
    → o.id ≡ q.id
    → find_verbdef_by_name apart o w true ≡ find_verbdef_by_name apart q w true
    → callable os w ≡ callable ps w
    → callable (o ∷ os) w ≡ callable (q ∷ ps) w
unfolding callable
callable-alike o q os ps w id_eq find_eq rest =
    elim (Option-cases (find_verbdef_by_name apart q w true)) [
      | inl m ↦ rw (callable, find_eq, m) rest
      | inr (i, m) ↦ rw (callable, find_eq, m, id_eq) refl
    ]

module _ (db g : Db) (same : (x : ℤ) → view (find_object g x) ≡ view (find_object db x)) where
  -- A way up in the second table has one like it in the first.
  Up-view :
      (x : ℤ) (os : List Object)
      → Up g x os
      → (ps : List Object) × Up db x ps
        × ((w : CStr) → callable os w ≡ callable ps w)
        × (key_of (first_verbs os) ≡ key_of (first_verbs ps))
  unfolding callable
  Up-view x [] u = elim (Option-cases (find_object db x)) [
    | inl n ↦ ([], n, λ w. refl, refl)
    | inr (o, n) ↦ let p : none ≡ view (some o) = sym (ap view u) ∙ same x ∙ ap view n in cc
  ]
  Up-view x (o ∷ os) u = elim (Option-cases (find_object db x)) [
    | inl n ↦ let p : view (some o) ≡ none = sym (ap view u.0) ∙ same x ∙ ap view n in cc
    | inr (q, n) ↦
        let p : view (some o) ≡ view (some q) = sym (ap view u.0) ∙ same x ∙ ap view n in
        let at : o.parent ≡ q.parent = cc in
        let id_eq : o.id ≡ q.id = cc in
        let has_eq : has_verbs o.verbdefs ≡ has_verbs q.verbdefs = cc in
        let find_eq : (λ (w : CStr). find_verbdef_by_name apart o w true)
            ≡ (λ w. find_verbdef_by_name apart q w true) =
          cc in
        let (ps, v, c, k) = Up-view o.parent os u.1 in
        let find_at : (w : CStr)
            → find_verbdef_by_name apart o w true ≡ find_verbdef_by_name apart q w true =
          λ w. ap (λ (f : CStr → Option ℕ). f w) find_eq in
        (
          q ∷ ps,
          (n, subst (λ y. Up db y ps) at v),
          λ w. callable-alike o q os ps w id_eq (find_at w) (c w),
          elim (Bool-cases (has_verbs q.verbdefs)) [
            | inl t ↦ rw (has_eq, t) id_eq
            | inr f ↦ rw (has_eq, f) k
          ],
        )
  ]

  All-IsRight_view : (vcs : List VcEntry) → All (IsRight db) vcs → All (IsRight g) vcs
  All-IsRight_view [] a = tt
  All-IsRight_view (vc ∷ vcs) a = (
    (
      a.0.0,
      λ x os u k. let (ps, v, c, k') = Up-view x os u in c vc.verbname ∙ a.0.1 x ps v (sym k' ∙ k),
    ),
    All-IsRight_view vcs a.1,
  )

  pub AreRight-view : (t : Option Buckets) → AreRight db t → AreRight g t
  AreRight-view none a = tt
  AreRight-view (some table) a = λ b. All-IsRight_view (table b) (a b)
