-- ===== src/Verbs/Coherent.antt =====
-- What the entries of the verb cache of server/db_verbs.c must say: the answers that a search
-- without it would give.
use waverous.Base.{
  if◌then◌else◌, ℕ, ◌≡◌, refl, ap, sym, ◌∙◌, inl, inr, Bool, true, ◌&&◌, Option, none, some, ℤ, pos,
  negsuc, eqz, eqz_iff, List, [], ◌∷◌, arith, ◌==◌, leb, All, Bool-cases, Option-cases,
}
use mathlib.Core.Path.{subst, ap₂}
use waverous.Text.{CStr, IsText, mystrcasecmp}
use waverous.Text.Compare.{mystrcasecmp-eq-zero}
use waverous.Database.{Object, Db, VcEntry, find_object}
use waverous.Database.Chains.{nothing}
use waverous.Database.Up.{Up, Up-unique, find-inside}
use waverous.Verbs.{Handle}
use waverous.Verbs.Callable.{callable, callable-lower, first_verbs, callable-none, callable-first}
use waverous.Verbs.Cache.{Buckets, key_of, find_entry, handle_of, new_entry}

-- The answer of an entry is the one of a lookup from any object with that key.
abbrev pub IsRight : Db → VcEntry → Type 0
IsRight db vc =
    IsText vc.verbname
    × ((x : ℤ) (os : List Object)
        → Up db x os
        → key_of (first_verbs os) ≡ vc.oid_key
        → callable os vc.verbname ≡ handle_of vc)

-- All entries are right.
abbrev pub AreRight : Db → Option Buckets → Type 0
AreRight db none = Unit
AreRight db (some table) = (b : ℕ) → All (IsRight db) (table b)

-- The field `id` of an object is its number.
abbrev pub HaveIds : Db → Type 0
HaveIds db = (x : ℤ) (o : Object) → find_object db x ≡ some o → o.id ≡ x

module _ (db g : Db) (same : (x : ℤ) → find_object g x ≡ find_object db x) where
  pub Up-same : (x : ℤ) (os : List Object) → Up db x os → Up g x os
  Up-same x [] u = same x ∙ u
  Up-same x (o ∷ os) u = (same x ∙ u.0, Up-same o.parent os u.1)

module _ (db g : Db) (same : (x : ℤ) → find_object g x ≡ find_object db x) where
  All-IsRight : (vcs : List VcEntry) → All (IsRight db) vcs → All (IsRight g) vcs
  All-IsRight [] a = tt
  All-IsRight (vc ∷ vcs) a = (
    (a.0.0, λ x os u k. a.0.1 x os (Up-same g db (λ y. sym (same y)) x os u) k),
    All-IsRight vcs a.1,
  )

  pub AreRight-same : (t : Option Buckets) → AreRight db t → AreRight g t
  AreRight-same none a = tt
  AreRight-same (some table) a = λ b. All-IsRight (table b) (a b)

-- The objects are those of the array and its size, whatever else changes.
pub find_object-array :
    (db g : Db)
    → g.slot ≡ db.slot
    → g.num_objects ≡ db.num_objects
    → (x : ℤ) → find_object g x ≡ find_object db x
unfolding find_object
find_object-array db g s k (pos n) =
    ap₂ (λ m (t : ℕ → Option Object). if leb m n then none else t n) k s
find_object-array db g s k (negsuc n) = refl

module _ (db : Db) (ids : HaveIds db) where
  -- Lookups from two objects with one key give one answer.
  one_answer :
      (x y : ℤ) (os ps : List Object) (word : CStr)
      → Up db x os
      → Up db y ps
      → key_of (first_verbs os) ≡ key_of (first_verbs ps)
      → callable os word ≡ callable ps word
  one_answer x y os ps word u v k = elim (Option-cases (first_verbs os)) [
    | inl n ↦ elim (Option-cases (first_verbs ps)) [
      | inl m ↦ callable-none os word n ∙ sym (callable-none ps word m)
      | inr (q, m) ↦
          let (z, rest, w, lt, c) = callable-first db y ps q v m in
          let at : nothing ≡ z = ap key_of (sym n) ∙ k ∙ ap key_of m ∙ ids z q w.0 in
          absurd (outside z q (sym at) w.0)
    ]
    | inr (o, n) ↦
        let (z, rest, w, lt, c) = callable-first db x os o u n in
        elim (Option-cases (first_verbs ps)) [
          | inl m ↦
              let at : z ≡ nothing = sym (ids z o w.0) ∙ ap key_of (sym n) ∙ k ∙ ap key_of m in
              absurd (outside z o at w.0)
          | inr (q, m) ↦
              let (z', rest', w', lt', c') = callable-first db y ps q v m in
              let at : z' ≡ z =
                sym (ids z' q w'.0) ∙ ap key_of (sym m) ∙ sym k ∙ ap key_of n ∙ ids z o w.0 in
              c word
              ∙ ap (λ l. callable l word)
                  (Up-unique db z (o ∷ rest) (q ∷ rest') w (subst (λ t. Up db t (q ∷ rest')) at w'))
              ∙ sym (c' word)
        ]
  ]
    where
      outside : (z : ℤ) (o : Object) → z ≡ nothing → find_object db z ≡ some o → ⊥
      outside z o at e = let (m, p, lt) = find-inside db z e in cc

  -- An entry for the answer of a lookup is right.
  pub new_entry-IsRight :
      (hash : ℕ) (x : ℤ) (os : List Object) (word : CStr)
      → Up db x os
      → IsText word
      → IsRight db (new_entry hash (key_of (first_verbs os)) word (callable os word))
  new_entry-IsRight hash x os word u t = go (callable os word) refl
    where
      go :
          (h : Option Handle)
          → callable os word ≡ h
          → IsRight db (new_entry hash (key_of (first_verbs os)) word h)
      go none e = (t, λ y ps v k. one_answer y x ps os word v u k ∙ e)
      go (some h) e = (t, λ y ps v k. one_answer y x ps os word v u k ∙ e)

  -- A hit is an entry for the key, and for the word up to case.
  pub find_entry-hit :
      (hash : ℕ) (key : ℤ) (word : CStr) (bucket : List VcEntry) (vc : VcEntry)
      → All (IsRight db) bucket
      → find_entry hash key word bucket ≡ some vc
      → IsRight db vc × (key ≡ vc.oid_key) × (mystrcasecmp word vc.verbname ≡ pos 0)
  unfolding find_entry
  find_entry-hit hash key word [] vc a h = cc
  find_entry-hit hash key word (e ∷ bucket) vc a h =
      elim (Bool-cases
        (hash == e.hash && (eqz key e.oid_key && eqz (mystrcasecmp word e.verbname) (pos 0)))) [
          | inl t ↦
              let p : some e ≡ some vc = rw t at h in
              let same : e ≡ vc = cc in
              let parts : (eqz key e.oid_key ≡ true)
                  × (eqz (mystrcasecmp word e.verbname) (pos 0) ≡ true) =
                both (hash == e.hash) (eqz key e.oid_key)
                  (eqz (mystrcasecmp word e.verbname) (pos 0)) t in
              subst (λ c. IsRight db c × (key ≡ c.oid_key) × (mystrcasecmp word c.verbname ≡ pos 0))
                same
                (
                  a.0,
                  (eqz_iff key e.oid_key).0 parts.0,
                  (eqz_iff (mystrcasecmp word e.verbname) (pos 0)).0 parts.1,
                )
          | inr f ↦ find_entry-hit hash key word bucket vc a.1 (rw f at h)
        ]
    where
      both : (a b c : Bool) → (a && (b && c)) ≡ true → (b ≡ true) × (c ≡ true)
      both a b c t = ground arith

  pub hit-callable :
      (x : ℤ) (os : List Object) (word : CStr) (vc : VcEntry)
      → Up db x os
      → IsText word
      → IsRight db vc
        × (key_of (first_verbs os) ≡ vc.oid_key)
        × (mystrcasecmp word vc.verbname ≡ pos 0)
      → handle_of vc ≡ callable os word
  hit-callable x os word vc u t (r, k, m) = sym (
      callable-lower os word vc.verbname ((mystrcasecmp-eq-zero word vc.verbname t r.0).0 m)
      ∙ r.1 x os u k)
