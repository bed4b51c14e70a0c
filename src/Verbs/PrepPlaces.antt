-- ===== src/Verbs/PrepPlaces.antt =====
-- What `db_find_prep` of server/db_verbs.c finds in the words of a command.
use waverous.Base.{
  ℕ, zero, suc, ◌+◌, ◌<◌, ◌≡◌, refl, sym, ◌∙◌, inl, inr, false, Option, none, some, List, [], ◌∷◌,
  arith, length, drop, Option-cases,
}
use mathlib.Core.Path.{subst}
use waverous.Text.{CStr}
use waverous.Verbs.Preps.{Aliases, prep_at, PrepFound, found_at, find_prep_from, db_find_prep}
use waverous.Verbs.PrepFront.{NoneStands, FirstStands, prep_at-none, prep_at-some}

find_prep_from-next :
    (table : List Aliases) (i : ℕ) (a : CStr) (argv : List CStr)
    → prep_at false table (a ∷ argv) ≡ none
    → find_prep_from table false i (a ∷ argv) ≡ find_prep_from table false (i + 1) argv
unfolding find_prep_from
find_prep_from-next table i a argv n = rw (n, find_prep_from) refl

find_prep_from-found :
    (table : List Aliases) (i : ℕ) (a : CStr) (argv : List CStr) (q : ℕ × ℕ)
    → prep_at false table (a ∷ argv) ≡ some q
    → find_prep_from table false i (a ∷ argv) ≡ some (found_at i q)
unfolding find_prep_from
find_prep_from-found table i a argv q n = rw (n, find_prep_from) refl

-- No phrase of the table stands anywhere in the words, as far as the loop looks.
find_prep_from-none :
    (table : List Aliases) (i : ℕ) (argv : List CStr)
    → find_prep_from table false i argv ≡ none
    → (k : ℕ) → k < length argv
    → NoneStands table (drop k argv)
unfolding find_prep_from
find_prep_from-none table i [] h k lt = absurd (omega arith)
find_prep_from-none table i (a ∷ argv) h k lt =
    elim (Option-cases (prep_at false table (a ∷ argv))) [
      | inl n ↦ later k lt n (λ m lt'.
          find_prep_from-none table (i + 1) argv (sym (find_prep_from-next table i a argv n) ∙ h) m
            lt')
      | inr (q, n) ↦
          let no : some (found_at i q) ≡ none = sym (find_prep_from-found table i a argv q n) ∙ h in
          cc
    ]
  where
    later :
        (k : ℕ)
        → k < length (a ∷ argv)
        → prep_at false table (a ∷ argv) ≡ none
        → ((m : ℕ) → m < length argv → NoneStands table (drop m argv))
        → NoneStands table (drop k (a ∷ argv))
    later zero lt n r = prep_at-none table (a ∷ argv) n
    later (suc k) lt n r = r k (omega arith)

-- The place is the first at which a phrase of the table stands.
abbrev pub FirstPlace : List Aliases → List CStr → (k prep nwords : ℕ) → Type 0
FirstPlace table argv k prep nwords =
    (k < length argv)
    × FirstStands table (drop k argv) prep nwords
    × ((m : ℕ) → m < k → NoneStands table (drop m argv))

find_prep_from-some :
    (table : List Aliases) (i : ℕ) (argv : List CStr) (f : PrepFound)
    → find_prep_from table false i argv ≡ some f
    → (k : ℕ) × (f.first ≡ i + k) × FirstPlace table argv k f.prep f.nwords
unfolding find_prep_from
find_prep_from-some table i [] f h = cc
find_prep_from-some table i (a ∷ argv) f h = elim (Option-cases (prep_at false table (a ∷ argv))) [
  | inl n ↦
      let (k, at, (lt, s, earlier)) =
        find_prep_from-some table (i + 1) argv f (sym (find_prep_from-next table i a argv n) ∙ h) in
      (suc k, omega arith, (omega arith, s, λ m lt'. before k m n earlier lt'))
  | inr ((j, n), e) ↦
      let q : some (found_at i (j, n)) ≡ some f =
        sym (find_prep_from-found table i a argv (j, n) e) ∙ h in
      let same : found_at i (j, n) ≡ f = cc in
      subst
        (λ (r : PrepFound).
          (k : ℕ) × (r.first ≡ i + k) × FirstPlace table (a ∷ argv) k r.prep r.nwords)
        same
        (
          0,
          omega arith,
          (omega arith, prep_at-some table (a ∷ argv) j n e, λ m lt. absurd (omega arith)),
        )
]
  where
    before :
        (k m : ℕ)
        → prep_at false table (a ∷ argv) ≡ none
        → ((m : ℕ) → m < k → NoneStands table (drop m argv))
        → m < suc k
        → NoneStands table (drop m (a ∷ argv))
    before k zero n earlier lt = prep_at-none table (a ∷ argv) n
    before k (suc m) n earlier lt = earlier m (omega arith)

-- What a search in the words of a command must find.
abbrev pub Finds : List Aliases → List CStr → Option PrepFound → Type 0
Finds table argv none = (k : ℕ) → k < length argv → NoneStands table (drop k argv)
Finds table argv (some f) = FirstPlace table argv f.first f.prep f.nwords

-- In the words of a command `db_find_prep` finds the first place where a phrase of the table
-- stands, in whatever case, and of the prepositions with a phrase there the first, with the number
-- of words of such a phrase; where it finds nothing, no phrase of the table stands at any word.
pub db_find_prep-Finds :
    (table : List Aliases) (argv : List CStr) → Finds table argv (db_find_prep table false argv)
unfolding db_find_prep
db_find_prep-Finds table argv = go (find_prep_from table false 0 argv) refl
  where
    go : (r : Option PrepFound) → find_prep_from table false 0 argv ≡ r → Finds table argv r
    go none e = find_prep_from-none table 0 argv e
    go (some f) e =
        let (k, at, place) = find_prep_from-some table 0 argv f e in
        let same : k ≡ f.first = omega arith in
        subst (λ m. FirstPlace table argv m f.prep f.nwords) same place
