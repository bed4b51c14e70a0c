-- ===== src/Commands/Quoting.antt =====
-- `parse_into_words` and `build_string` of server/parse_cmd.c: how a word is quoted so that it is
-- read back, whatever bytes it has.
use waverous.Base.{
  ℕ, zero, suc, ◌≤◌, ◌<◌, ◌≡◌, refl, ap, sym, ◌∙◌, inl, inr, Bool, true, false, ◌||◌, some, List,
  [], ◌∷◌, ◌++◌, map, ◌==◌, arith, if◌then◌else◌, length, length-append, Bool-cases,
}
use waverous.Text.{CStr}
use waverous.Text.Verbs.{at_end, skip_spaces}
use waverous.Commands.{read_word, put_first, words_loop, parse_into_words, add_words, build_string}

-- A space, a quote or a backslash.
abbrev pub special : ℕ → Bool
special c = c == 32 || (c == 34 || c == 92)

unfoldable pub quote_bytes : CStr → CStr
quote_bytes [] = []
quote_bytes (c ∷ w) = if special c then 92 ∷ c ∷ quote_bytes w else c ∷ quote_bytes w

-- A word as it is typed: a backslash in front of each special byte, two quotes for no bytes.
unfoldable pub quote : CStr → CStr
unfolding quote_bytes
quote [] = 34 ∷ 34 ∷ []
quote (c ∷ w) = quote_bytes (c ∷ w)

read_word-plain :
    (c : ℕ) (s : CStr)
    → special c ≡ false
    → read_word (c ∷ s) false ≡ (c ∷ (read_word s false).0, (read_word s false).1)
unfolding read_word
read_word-plain c [] h = ground arith
read_word-plain c (d ∷ s) h = ground arith

read_word-escaped :
    (c : ℕ) (s : CStr)
    → read_word (92 ∷ c ∷ s) false ≡ (c ∷ (read_word s false).0, (read_word s false).1)
unfolding read_word
read_word-escaped c s = refl

read_word-end : (r : CStr) → at_end r ≡ true → read_word r false ≡ ([], r)
unfolding read_word
read_word-end [] h = refl
read_word-end (c ∷ []) h = rw h
read_word-end (c ∷ d ∷ r) h = rw h

read_word-quote_bytes :
    (w r : CStr) → at_end r ≡ true → read_word (quote_bytes w ++ r) false ≡ (w, r)
unfolding quote_bytes
read_word-quote_bytes [] r h = read_word-end r h
read_word-quote_bytes (c ∷ w) r h =
    let ih = read_word-quote_bytes w r h in
    elim (Bool-cases (special c)) [
      | inl t ↦ rw t (read_word-escaped c (quote_bytes w ++ r) ∙ ap (λ p. (c ∷ p.0, p.1)) ih)
      | inr f ↦ rw f (read_word-plain c (quote_bytes w ++ r) f ∙ ap (λ p. (c ∷ p.0, p.1)) ih)
    ]

read_word-two_quotes : (r : CStr) → read_word (34 ∷ 34 ∷ r) false ≡ read_word r false
unfolding read_word
read_word-two_quotes [] = refl
read_word-two_quotes (c ∷ r) = refl

read_word-quote : (w r : CStr) → at_end r ≡ true → read_word (quote w ++ r) false ≡ (w, r)
unfolding quote
read_word-quote [] r h = read_word-two_quotes r ∙ read_word-end r h
read_word-quote (c ∷ w) r h = read_word-quote_bytes (c ∷ w) r h

-- A quoted word has a first byte, which is no space.
quote-first : (w : CStr) → (c : ℕ) × (s : CStr) × (quote w ≡ c ∷ s) × ((c == 32) ≡ false)
unfolding quote quote_bytes
quote-first [] = (34, 34 ∷ [], refl, refl)
quote-first (c ∷ w) = elim (Bool-cases (special c)) [
  | inl t ↦ (92, c ∷ quote_bytes w, rw t, refl)
  | inr f ↦ (c, quote_bytes w, rw f, ground arith)
]

at_end-add_words : (ws : List CStr) → at_end (add_words ws) ≡ true
unfolding add_words
at_end-add_words [] = refl
at_end-add_words (w ∷ ws) = refl

skip_spaces-quote : (w r : CStr) → skip_spaces (quote w ++ r) ≡ quote w ++ r
unfolding skip_spaces
skip_spaces-quote w r = let (c, s, e, n) = quote-first w in rw (e, n)

skip_spaces-add_words :
    (w : CStr) (ws : List CStr) → skip_spaces (add_words (quote w ∷ ws)) ≡ quote w ++ add_words ws
skip_spaces-add_words w ws = skip_one (quote w) ∙ skip_spaces-quote w (add_words ws)
  where
    skip_one : (q : CStr) → skip_spaces (add_words (q ∷ ws)) ≡ skip_spaces (q ++ add_words ws)
    skip_one q = unfold skip_spaces add_words in refl

words_loop-quote :
    (fuel : ℕ) (w : CStr) (r : CStr)
    → at_end r ≡ true
    → words_loop (suc fuel) (quote w ++ r) ≡ put_first w (words_loop fuel (skip_spaces r))
words_loop-quote fuel w r h =
    let (c, s, e, n) = quote-first w in
    ap (λ q. words_loop (suc fuel) (q ++ r)) e
    ∙ step c (s ++ r)
    ∙ ap (λ p. put_first p.0 (words_loop fuel (skip_spaces p.1)))
        (ap (λ q. read_word (q ++ r) false) (sym e) ∙ read_word-quote w r h)
  where
    step :
        (c : ℕ) (s : CStr)
        → words_loop (suc fuel) (c ∷ s)
          ≡ put_first
              (read_word (c ∷ s) false).0
              (words_loop fuel (skip_spaces (read_word (c ∷ s) false).1))
    step c s = unfold words_loop in refl

words_loop-build_string :
    (fuel : ℕ) (w : CStr) (ws : List CStr)
    → length ws < fuel
    → words_loop fuel (quote w ++ add_words (map quote ws)) ≡ some (w ∷ ws)
words_loop-build_string zero w ws h = absurd (omega arith)
words_loop-build_string (suc fuel) w [] h =
    words_loop-quote fuel w (add_words []) (at_end-add_words [])
    ∙ (unfold add_words skip_spaces words_loop in refl)
words_loop-build_string (suc fuel) w (v ∷ ws) h =
    words_loop-quote fuel w (add_words (map quote (v ∷ ws))) (at_end-add_words (map quote (v ∷ ws)))
    ∙ ap (λ q. put_first w (words_loop fuel q)) (skip_spaces-add_words v (map quote ws))
    ∙ ap (put_first w) (words_loop-build_string fuel v ws (omega arith))

length-quote : (w : CStr) → 1 ≤ length (quote w)
length-quote w = let (c, s, e, n) = quote-first w in rw e (omega arith)

length-add_words : (ws : List CStr) → length ws ≤ length (add_words ws)
unfolding add_words
length-add_words [] = omega arith
length-add_words (w ∷ ws) = omega (arith, length-append w (add_words ws), length-add_words ws)

length-map : (ws : List CStr) → length (map quote ws) ≡ length ws
length-map [] = refl
length-map (w ∷ ws) = omega (arith, length-map ws)

-- A line that `build_string` makes of quoted words is split into those words again, whatever bytes
-- they have.
pub parse_into_words-build_string :
    (ws : List CStr) → parse_into_words (build_string (map quote ws)) ≡ some ws
unfolding parse_into_words build_string
parse_into_words-build_string [] = unfold skip_spaces words_loop in refl
parse_into_words-build_string (w ∷ ws) =
    ap (words_loop (length (quote w ++ add_words (map quote ws))))
      (skip_spaces-quote w (add_words (map quote ws)))
    ∙ words_loop-build_string (length (quote w ++ add_words (map quote ws))) w ws (
        omega (
          arith,
          length-append (quote w) (add_words (map quote ws)),
          length-quote w,
          length-add_words (map quote ws),
          length-map ws,
        ))
