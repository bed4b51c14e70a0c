-- ===== src/Verbs/Callable.antt =====
-- What `db_find_callable_verb` of server/db_verbs.c looks for, with no cache: the first executable
-- verb that matches the text of the word, on the way up from an object.
use waverous.Base.{
  ℕ, zero, suc, ◌<◌, ◌≡◌, refl, ◌∙◌, inl, inr, true, false, Option, none, some, ℤ, List, [], ◌∷◌,
  arith, if◌then◌else◌, length, Bool-cases, Option-cases,
}
use waverous.Text.{CStr}
use waverous.Text.Compare.{lower}
use waverous.Database.{Object, Db, Verbdef}
use waverous.Database.Run.{and_then, ok}
use waverous.Database.Up.{Up}
use waverous.Verbs.{Handle, apart, is_verb, first_verb, find_verbdef_by_name, search_up}
use waverous.Verbs.Same.{names_match-lower}
use waverous.Verbs.Cache.{has_verbs, first_with_verbs, search_from}

-- The first verb on the way up that the word may call.
unfoldable pub callable : List Object → CStr → Option Handle
callable [] word = none
callable (o ∷ os) word =
    let rest = callable os word in
    elim (find_verbdef_by_name apart o word true) [
      | none ↦ rest
      | some i ↦ some (record { definer = o.id; verbdef = i })
    ]

-- The first object on the way up that has verbs.
abbrev pub first_verbs : List Object → Option Object
first_verbs [] = none
first_verbs (o ∷ os) = if has_verbs o.verbdefs then some o else first_verbs os

first_verb-lower :
    (w u : CStr) (vs : List Verbdef)
    → lower w ≡ lower u
    → first_verb (is_verb apart w true) vs ≡ first_verb (is_verb apart u true) vs
unfolding first_verb is_verb
first_verb-lower w u [] h = refl
first_verb-lower w u (v ∷ vs) h =
    rw (names_match-lower v.name w u h, first_verb-lower w u vs h) refl

pub callable-lower :
    (os : List Object) (w u : CStr) → lower w ≡ lower u → callable os w ≡ callable os u
unfolding callable find_verbdef_by_name
callable-lower [] w u h = refl
callable-lower (o ∷ os) w u h = elim (Option-cases (first_verb (is_verb apart u true) o.verbdefs)) [
  | inl n ↦
      let m : first_verb (is_verb apart w true) o.verbdefs ≡ none =
        first_verb-lower w u o.verbdefs h ∙ n in
      rw (callable, m, n) (callable-lower os w u h)
  | inr (i, n) ↦
      let m : first_verb (is_verb apart w true) o.verbdefs ≡ some i =
        first_verb-lower w u o.verbdefs h ∙ n in
      rw (callable, m, n) refl
]

no_verb :
    (o : Object) (word : CStr)
    → has_verbs o.verbdefs ≡ false
    → find_verbdef_by_name apart o word true ≡ none
unfolding find_verbdef_by_name first_verb
no_verb o word h = go o.verbdefs h
  where
    go : (vs : List Verbdef) → has_verbs vs ≡ false → first_verb (is_verb apart word true) vs ≡ none
    go [] h = refl
    go (v ∷ vs) h = cc

callable-skip :
    (o : Object) (os : List Object) (word : CStr)
    → has_verbs o.verbdefs ≡ false
    → callable (o ∷ os) word ≡ callable os word
unfolding callable
callable-skip o os word h = rw (no_verb o word h, callable) refl

-- Objects without verbs contribute nothing.
pub callable-none :
    (os : List Object) (word : CStr) → first_verbs os ≡ none → callable os word ≡ none
callable-none [] word h = unfold callable in refl
callable-none (o ∷ os) word h = elim (Bool-cases (has_verbs o.verbdefs)) [
  | inl t ↦ let p : some o ≡ none = rw t at h in cc
  | inr f ↦ callable-skip o os word f ∙ callable-none os word (rw f at h)
]

pub callable-first :
    (db : Db) (x : ℤ) (os : List Object) (o : Object)
    → Up db x os
    → first_verbs os ≡ some o
    → (y : ℤ) × (rest : List Object) × Up db y (o ∷ rest)
      × (length rest < length os)
      × ((word : CStr) → callable os word ≡ callable (o ∷ rest) word)
callable-first db x [] o u h = cc
callable-first db x (p ∷ os) o u h = elim (Bool-cases (has_verbs p.verbdefs)) [
  | inl t ↦
      let e : some p ≡ some o = rw t at h in
      let same : o ≡ p = cc in (x, os, rw same u, omega arith, λ word. rw same refl)
  | inr f ↦
      let (y, rest, v, lt, c) = callable-first db p.parent os o u.1 (rw f at h) in
      (y, rest, v, omega arith, λ word. callable-skip p os word f ∙ c word)
]

module _ (db : Db) where
  pub first_with_verbs-first :
      (fuel : ℕ) (x : ℤ) (os : List Object)
      → Up db x os
      → length os < fuel
      → first_with_verbs fuel x db ≡ ok (first_verbs os) db
  unfolding first_with_verbs
  first_with_verbs-first zero x os u h = absurd (omega arith)
  first_with_verbs-first (suc fuel) x [] u h = rw u refl
  first_with_verbs-first (suc fuel) x (o ∷ os) u h =
      rw (u.0, and_then)
        (elim (Bool-cases (has_verbs o.verbdefs)) [
          | inl t ↦ rw t refl
          | inr f ↦ rw f (first_with_verbs-first fuel o.parent os u.1 (omega arith))
        ])

  search_up-callable :
      (fuel : ℕ) (x : ℤ) (os : List Object) (word : CStr)
      → Up db x os
      → length os < fuel
      → search_up (λ p. find_verbdef_by_name apart p word true) fuel x db ≡ ok (callable os word) db
  unfolding search_up callable
  search_up-callable zero x os word u h = absurd (omega arith)
  search_up-callable (suc fuel) x [] word u h = rw u refl
  search_up-callable (suc fuel) x (o ∷ os) word u h =
      elim (Option-cases (find_verbdef_by_name apart o word true)) [
        | inl n ↦
            rw (u.0, n, and_then, callable)
              (search_up-callable fuel o.parent os word u.1 (omega arith))
        | inr (i, n) ↦ rw (u.0, n, and_then, callable) refl
      ]

  pub search_from-callable :
      (fuel : ℕ) (y : ℤ) (o : Object) (rest : List Object) (word : CStr)
      → Up db y (o ∷ rest)
      → length rest < fuel
      → search_from apart fuel (some o) word db ≡ ok (callable (o ∷ rest) word) db
  unfolding search_from callable
  search_from-callable fuel y o rest word u h =
      elim (Option-cases (find_verbdef_by_name apart o word true)) [
        | inl n ↦ rw (n, callable, search_from) (search_up-callable fuel o.parent rest word u.1 h)
        | inr (i, n) ↦ rw (n, callable, search_from) refl
      ]
