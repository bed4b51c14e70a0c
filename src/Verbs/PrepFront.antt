-- ===== src/Verbs/PrepFront.antt =====
-- Which phrase of the table `db_find_prep` of server/db_verbs.c finds at the front of some words.
use waverous.Base.{
  ℕ, zero, suc, ◌<◌, ◌≡◌, refl, ap, sym, ◌∙◌, inl, inr, true, false, Option, none, some, pos, eqz,
  eqz_iff, List, [], ◌∷◌, arith, length, get_elem?, Bool-cases, Option-cases,
}
use mathlib.Core.Path.{subst}
use waverous.Text.{CStr, mystrcasecmp}
use waverous.Verbs.Preps.{Aliases, next_prep, phrase_at, alias_at, prep_at}

-- The words of the phrase stand at the front, in whatever case.
pub data Stands : List CStr → List CStr → Type 0 where
  here : {argv : List CStr} → Stands [] argv
  word :
      {w a : CStr} {ws argv : List CStr}
      → mystrcasecmp a w ≡ pos 0
      → Stands ws argv
      → Stands (w ∷ ws) (a ∷ argv)

-- The phrase is one of those of the preposition.
abbrev pub IsPhrase : List Aliases → ℕ → List CStr → Type 0
IsPhrase table j alias =
    (aliases : Aliases) × (k : ℕ) × (get_elem? table j ≡ some aliases)
    × (get_elem? aliases k ≡ some alias)

phrase_at-Stands : (alias argv : List CStr) → phrase_at alias argv ≡ true → Stands alias argv
unfolding phrase_at
phrase_at-Stands [] argv h = here
phrase_at-Stands (w ∷ ws) [] h = cc
phrase_at-Stands (w ∷ ws) (a ∷ argv) h = elim (Bool-cases (eqz (mystrcasecmp a w) (pos 0))) [
  | inl t ↦ word ((eqz_iff (mystrcasecmp a w) (pos 0)).0 t) (phrase_at-Stands ws argv (rw t at h))
  | inr f ↦ let no : false ≡ true = rw f at h in cc
]

Stands-phrase_at : (alias argv : List CStr) → Stands alias argv → phrase_at alias argv ≡ true
unfolding phrase_at
Stands-phrase_at _ _ here = refl
Stands-phrase_at _ _ (word {w} {a} {ws} {argv} e s) =
    let same : eqz (mystrcasecmp a w) (pos 0) ≡ true = (eqz_iff (mystrcasecmp a w) (pos 0)).1 e in
    rw (same, Stands-phrase_at ws argv s) refl

alias_at-none :
    (aliases : Aliases) (argv : List CStr) (k : ℕ) (alias : List CStr)
    → alias_at false aliases argv ≡ none
    → get_elem? aliases k ≡ some alias
    → ¬ Stands alias argv
unfolding alias_at
alias_at-none [] argv k alias h e = cc
alias_at-none (a ∷ aliases) argv zero alias h e = λ s.
    let same : a ≡ alias = cc in
    let t : phrase_at a argv ≡ true = rw same (Stands-phrase_at alias argv s) in
    let no : some (length a) ≡ none = rw t at h in cc
alias_at-none (a ∷ aliases) argv (suc k) alias h e = elim (Bool-cases (phrase_at a argv)) [
  | inl t ↦ let no : some (length a) ≡ none = rw t at h in cc
  | inr f ↦ alias_at-none aliases argv k alias (rw f at h) e
]

alias_at-some :
    (aliases : Aliases) (argv : List CStr) (n : ℕ)
    → alias_at false aliases argv ≡ some n
    → (k : ℕ) × (alias : List CStr) × (get_elem? aliases k ≡ some alias)
      × Stands alias argv
      × (length alias ≡ n)
unfolding alias_at
alias_at-some [] argv n h = cc
alias_at-some (a ∷ aliases) argv n h = elim (Bool-cases (phrase_at a argv)) [
  | inl t ↦
      let e : some (length a) ≡ some n = rw t at h in (0, a, refl, phrase_at-Stands a argv t, cc)
  | inr f ↦
      let (k, alias, at, s, l) = alias_at-some aliases argv n (rw f at h) in
      (suc k, alias, at, s, l)
]

-- No phrase of the table stands at the front.
abbrev pub NoneStands : List Aliases → List CStr → Type 0
NoneStands table argv = (j : ℕ) (alias : List CStr) → IsPhrase table j alias → ¬ Stands alias argv

next_prep-none : (r : Option (ℕ × ℕ)) → next_prep r ≡ none → r ≡ none
next_prep-none none h = refl
next_prep-none (some (j, n)) h = cc

prep_at-next :
    (first : Aliases) (table : List Aliases) (argv : List CStr)
    → alias_at false first argv ≡ none
    → prep_at false (first ∷ table) argv ≡ next_prep (prep_at false table argv)
unfolding prep_at
prep_at-next first table argv n = rw (n, prep_at) refl

prep_at-found :
    (first : Aliases) (table : List Aliases) (argv : List CStr) (m : ℕ)
    → alias_at false first argv ≡ some m
    → prep_at false (first ∷ table) argv ≡ some (0, m)
unfolding prep_at
prep_at-found first table argv m n = rw (n, prep_at) refl

pub prep_at-none :
    (table : List Aliases) (argv : List CStr)
    → prep_at false table argv ≡ none
    → NoneStands table argv
unfolding prep_at
prep_at-none [] argv h j alias (aliases, k, at, e) = cc
prep_at-none (first ∷ table) argv h j alias p = elim (Option-cases (alias_at false first argv)) [
  | inl n ↦
      front j p n
        (prep_at-none table argv (next_prep-none _ (sym (prep_at-next first table argv n) ∙ h)))
  | inr (i, n) ↦
      let no : ◌≡◌ {A = Option (ℕ × ℕ)} (some (0, i)) none =
        sym (prep_at-found first table argv i n) ∙ h in
      cc
]
  where
    front :
        (j : ℕ)
        → IsPhrase (first ∷ table) j alias
        → alias_at false first argv ≡ none
        → NoneStands table argv
        → ¬ Stands alias argv
    front zero (aliases, k, at, e) n r =
        let same : first ≡ aliases = cc in alias_at-none first argv k alias n (rw same e)
    front (suc j) p n r = r j alias p

-- The phrase that is found is one of the first preposition with one at the front.
abbrev pub FirstStands : List Aliases → List CStr → (prep nwords : ℕ) → Type 0
FirstStands table argv prep nwords =
    (alias : List CStr) × IsPhrase table prep alias
    × Stands alias argv
    × (length alias ≡ nwords)
    × ((j : ℕ) (other : List CStr) → j < prep → IsPhrase table j other → ¬ Stands other argv)

pub prep_at-some :
    (table : List Aliases) (argv : List CStr) (j n : ℕ)
    → prep_at false table argv ≡ some (j, n)
    → FirstStands table argv j n
unfolding prep_at
prep_at-some [] argv j n h = cc
prep_at-some (first ∷ table) argv j n h = elim (Option-cases (alias_at false first argv)) [
  | inl e ↦ elim (Option-cases (prep_at false table argv)) [
    | inl r ↦
        let no : ◌≡◌ {A = Option (ℕ × ℕ)} none (some (j, n)) =
          sym (prep_at-next first table argv e ∙ ap next_prep r) ∙ h in
        cc
    | inr ((i, m), r) ↦
        let q : ◌≡◌ {A = Option (ℕ × ℕ)} (some (suc i, m)) (some (j, n)) =
          sym (prep_at-next first table argv e ∙ ap next_prep r) ∙ h in
        let at_j : suc i ≡ j = cc in
        let at_n : m ≡ n = cc in
        let (alias, p, s, l, earlier) = prep_at-some table argv i m r in
        (
          alias,
          subst (λ t. IsPhrase (first ∷ table) t alias) at_j p,
          s,
          l ∙ at_n,
          λ t other lt. before t other i at_j earlier lt e,
        )
  ]
  | inr (m, e) ↦
      let q : ◌≡◌ {A = Option (ℕ × ℕ)} (some (0, m)) (some (j, n)) =
        sym (prep_at-found first table argv m e) ∙ h in
      let at_j : 0 ≡ j = cc in
      let at_n : m ≡ n = cc in
      let (k, alias, at, s, l) = alias_at-some first argv m e in
      (
        alias,
        subst (λ t. IsPhrase (first ∷ table) t alias) at_j (first, k, refl, at),
        s,
        l ∙ at_n,
        λ t other lt. absurd (omega arith),
      )
]
  where
    before :
        (t : ℕ) (other : List CStr) (i : ℕ)
        → suc i ≡ j
        → ((k : ℕ) (other : List CStr) → k < i → IsPhrase table k other → ¬ Stands other argv)
        → t < j
        → alias_at false first argv ≡ none
        → IsPhrase (first ∷ table) t other
        → ¬ Stands other argv
    before zero other i at_j earlier lt e (aliases, k, at, e') =
        let same : first ≡ aliases = cc in alias_at-none first argv k other e (rw same e')
    before (suc t) other i at_j earlier lt e p = earlier t other (omega arith) p
