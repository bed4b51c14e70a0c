-- ===== src/Verbs/PrepNames.antt =====
-- `db_match_prep` of server/db_verbs.c reads the names that `db_unparse_prep` gives prepositions.
use waverous.Base.{
  ℕ, zero, suc, ◌≡◌, refl, ap, ◌∙◌, true, ◌&&◌, Option, none, some, pos, eqz, List, [], ◌∷◌, leb,
  get_elem?, ◌+◌, arith, Bool,
}
use mathlib.Core.Path.{subst}
use waverous.Text.{CStr, mystrcasecmp, cmap, char_diff}
use waverous.Text.Verbs.{skip_spaces}
use waverous.Commands.{parse_into_words, words_loop, read_word}
use waverous.Verbs.{Strtol}
use waverous.Verbs.Preps.{
  Aliases, prep_list, until_slash, alias_loop, build_table, dbpriv_build_prep_table, phrase_at,
  alias_at, prep_at, find_prep_from, db_find_prep, db_match_prep, db_unparse_prep, words_prep,
  skip_hash,
}

abbrev pub phrases_of : Option (List Aliases) → List Aliases
phrases_of none = []
phrases_of (some table) = table

-- The table that the server builds at its start.
abbrev pub phrases : List Aliases
phrases = phrases_of dbpriv_build_prep_table

abbrev pub is_letter : ℕ → Bool
is_letter c = leb 97 c && leb c 122

-- Each entry starts with a letter, and its first phrase is found under the entry's number.
abbrev AreNames : ℕ → List CStr → Type 0
AreNames n [] = Unit
AreNames n ([] ∷ names) = ⊥
AreNames n ((c ∷ s) ∷ names) =
    (is_letter c ≡ true)
    × (words_prep phrases (parse_into_words (until_slash (c ∷ s)).0) ≡ some (pos n))
    × AreNames (suc n) names

prep_list-AreNames : AreNames 0 prep_list
unfolding prep_list until_slash alias_loop build_table dbpriv_build_prep_table phrase_at alias_at
    prep_at find_prep_from db_find_prep parse_into_words words_loop read_word skip_spaces
    mystrcasecmp cmap eqz char_diff
prep_list-AreNames = (
  refl,
  refl,
  (
    refl,
    refl,
    (
      refl,
      refl,
      (
        refl,
        refl,
        (
          refl,
          refl,
          (
            refl,
            refl,
            (
              refl,
              refl,
              (
                refl,
                refl,
                (
                  refl,
                  refl,
                  (
                    refl,
                    refl,
                    (refl, refl, (refl, refl, (refl, refl, (refl, refl, (refl, refl, tt))))),
                  ),
                ),
              ),
            ),
          ),
        ),
      ),
    ),
  ),
)

module _ (strtol : Strtol)
    (leaves : (c : ℕ) (s : CStr) → is_letter c ≡ true → (strtol (c ∷ s)).1 ≡ c ∷ s) where
  -- A name that starts with a letter is read as words.
  by_words :
      (c : ℕ) (s : CStr) (n : ℕ)
      → is_letter c ≡ true
      → words_prep phrases (parse_into_words (until_slash (c ∷ s)).0) ≡ some (pos n)
      → db_match_prep strtol phrases (c ∷ s) ≡ some (pos n)
  unfolding db_match_prep
  by_words c s n h w =
      let same : skip_hash (c ∷ s) ≡ c ∷ s = ground arith in
      let rest : (strtol (c ∷ s)).1 ≡ c ∷ s = leaves c s h in rw (same, rest) w

  entry :
      (names : List CStr) (first i : ℕ) (s : CStr)
      → AreNames first names
      → get_elem? names i ≡ some s
      → db_match_prep strtol phrases s ≡ some (pos (first + i))
  entry [] first i s a e = cc
  entry ([] ∷ names) first i s a e = absurd a
  entry ((c ∷ t) ∷ names) first zero s a e =
      let at : c ∷ t ≡ s = cc in
      subst (λ r. db_match_prep strtol phrases r ≡ some (pos (first + 0))) at
        (by_words c t first a.0 a.1 ∙ ap (λ k. some (pos k)) (omega arith))
  entry ((c ∷ t) ∷ names) first (suc i) s a e =
      entry names (suc first) i s a.2 e ∙ ap (λ k. some (pos k)) (omega arith)

-- If `strtol` reads nothing of a text that starts with a letter, then `db_match_prep` finds for the
-- name that `db_unparse_prep` gives a preposition of the table the preposition's number.
pub db_match_prep-db_unparse_prep :
    (strtol : Strtol) (n : ℕ) (s : CStr)
    → ((c : ℕ) (s : CStr) → is_letter c ≡ true → (strtol (c ∷ s)).1 ≡ c ∷ s)
    → db_unparse_prep (pos n) ≡ some s
    → db_match_prep strtol phrases s ≡ some (pos n)
unfolding db_unparse_prep
db_match_prep-db_unparse_prep strtol n s leaves e =
    entry strtol leaves prep_list 0 n s prep_list-AreNames e ∙ ap (λ k. some (pos k)) (omega arith)
