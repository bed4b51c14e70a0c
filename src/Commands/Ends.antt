-- ===== src/Commands/Ends.antt =====
-- That the loops of `parse_into_words` of server/parse_cmd.c end.
use waverous.Base.{
  ℕ, zero, suc, ◌≤◌, ◌≡◌, refl, ap, inl, inr, Bool, true, false, not, some, List, [], ◌∷◌, ◌==◌,
  arith, length, Bool-cases,
}
use waverous.Text.{CStr}
use waverous.Text.Verbs.{skip_spaces}
use waverous.Text.VerbNames.{length-skip_spaces}
use waverous.Commands.{read_word, put_first, words_loop, parse_into_words}

length-read_word : (s : CStr) (q : Bool) → length (read_word s q).1 ≤ length s
unfolding read_word
length-read_word [] q = omega arith
length-read_word (c ∷ []) q = ground arith
length-read_word (c ∷ d ∷ s) q =
    ground
      (arith, length-read_word (d ∷ s) (not q), length-read_word s q, length-read_word (d ∷ s) q)

-- A round reads at least one byte.
shorter : (c : ℕ) (s : CStr) → length (skip_spaces (read_word (c ∷ s) false).1) ≤ length s
unfolding read_word skip_spaces
shorter c [] = ground arith
shorter c (d ∷ s) = elim (Bool-cases (c == 32)) [
  | inl t ↦ rw (t, t) (length-skip_spaces (d ∷ s))
  | inr f ↦ ground (
    arith,
    length-read_word (d ∷ s) true,
    length-read_word s false,
    length-read_word (d ∷ s) false,
    length-skip_spaces (read_word (d ∷ s) true).1,
    length-skip_spaces (read_word s false).1,
    length-skip_spaces (read_word (d ∷ s) false).1,
  )
]

words_loop-total :
    (fuel : ℕ) (s : CStr) → length s ≤ fuel → (words : List CStr) × (words_loop fuel s ≡ some words)
unfolding words_loop
words_loop-total fuel [] h = ([], refl)
words_loop-total zero (c ∷ s) h = absurd (omega arith)
words_loop-total (suc fuel) (c ∷ s) h =
    let (words, e) =
      words_loop-total fuel (skip_spaces (read_word (c ∷ s) false).1)
        (omega (arith, shorter c s)) in
    ((read_word (c ∷ s) false).0 ∷ words, ap (put_first (read_word (c ∷ s) false).0) e)

-- The splitting ends for every line, after as many rounds as it has bytes at most.
pub parse_into_words_total :
    (input : CStr) → (words : List CStr) × (parse_into_words input ≡ some words)
unfolding parse_into_words
parse_into_words_total input =
    words_loop-total (length input) (skip_spaces input) (length-skip_spaces input)
