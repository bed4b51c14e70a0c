-- ===== src/Text/VerbSpec.antt =====
-- `verbcasecmp` of server/utils.c against the rule that the programmer's manual states: a name
-- stands for its letters, and a word may be cut off at any point from the first `*` on; a name
-- that ends in `*` also matches every longer word.
use waverous.Base.{
  ℕ, suc, ◌≡◌, refl, sym, ◌∙◌, inl, inr, Bool, true, false, ◌&&◌, ◌||◌, List, [], ◌∷◌, ◌++◌, arith,
  leb, ◌==◌, if◌then◌else◌, length, All, Bool-cases,
}
use waverous.Text.{CStr, cmap}
use waverous.Text.Verbs.{
  Star, absent, inner, final, at_end, scan, inner_loop, accepts, accepts_at, skip_name,
}

-- The letters of a name.
unfoldable pub literal : CStr → CStr
literal [] = []
literal (c ∷ v) = if c == 42 then literal v else c ∷ literal v

-- How many letters stand before the first star.
unfoldable pub required : CStr → ℕ
required [] = 0
required (c ∷ v) = if c == 42 then 0 else suc (required v)

-- The name ends in a star.
unfoldable pub open_ended : CStr → Bool
open_ended [] = false
open_ended (c ∷ []) = c == 42
open_ended (c ∷ d ∷ v) = open_ended (d ∷ v)

-- A prefix, up to the case of the letters.
unfoldable pub is_prefix : CStr → CStr → Bool
is_prefix [] t = true
is_prefix (a ∷ s) [] = false
is_prefix (a ∷ s) (b ∷ t) = (cmap a == cmap b) && is_prefix s t

unfoldable pub name_matches : CStr → CStr → Bool
unfolding literal required open_ended is_prefix
name_matches word name =
    (is_prefix word (literal name) && leb (required name) (length word))
    || (open_ended name && is_prefix (literal name) word)

unfoldable pub any_matches : CStr → List CStr → Bool
unfolding name_matches
any_matches word [] = false
any_matches word (n ∷ ns) = name_matches word n || any_matches word ns

-- The names as they are written, one space between two.
unfoldable pub join : List CStr → CStr
join [] = []
join (n ∷ []) = n
join (n ∷ m ∷ ns) = n ++ 32 ∷ join (m ∷ ns)

abbrev pub NoSpace : CStr → Type 0
NoSpace = All (λ c. (c == 32) ≡ false)

-- A name of a verb: not empty, with no space inside.
abbrev pub IsName : CStr → Type 0
IsName [] = ⊥
IsName (c ∷ v) = NoSpace (c ∷ v)

abbrev pub run : CStr → CStr → Star → Bool
run w v star = accepts (inner_loop w v star)

inner_loop-star :
    (w v : CStr) (star : Star)
    → inner_loop w (42 ∷ v) star ≡ inner_loop w v (if at_end v then final else inner)
unfolding inner_loop
inner_loop-star [] v star = refl
inner_loop-star (x ∷ w) v star = refl

inner_loop-nil : (w : CStr) (star : Star) → inner_loop w [] star ≡ scan w [] star
unfolding inner_loop
inner_loop-nil [] star = refl
inner_loop-nil (x ∷ w) star = refl

inner_loop-space : (w r : CStr) (star : Star) → inner_loop w (32 ∷ r) star ≡ scan w (32 ∷ r) star
unfolding inner_loop
inner_loop-space [] r star = refl
inner_loop-space (x ∷ w) r star = refl

inner_loop-done :
    (c : ℕ) (v : CStr) (star : Star)
    → (c == 42) ≡ false
    → inner_loop [] (c ∷ v) star ≡ scan [] (c ∷ v) star
unfolding inner_loop
inner_loop-done c v star h = ground arith

inner_loop-letter :
    (x c : ℕ) (w v : CStr) (star : Star)
    → (c == 42) ≡ false
    → (c == 32) ≡ false
    → inner_loop (x ∷ w) (c ∷ v) star
      ≡ (if cmap x == cmap c then inner_loop w v star else scan (x ∷ w) (c ∷ v) star)
unfolding inner_loop
inner_loop-letter x c w v star h k = ground arith

-- At the end of a name, where the star says whether one stood last.
run_end : (w r : CStr) (star : Star) → at_end r ≡ true → run w r star ≡ accepts_at w r star
run_end w [] star h = rw inner_loop-nil (unfold accepts in refl)
run_end w (c ∷ r) star h =
    let e : c ≡ 32 = ground arith in rw (e, inner_loop-space) (unfold accepts in refl)

-- After a star that is not the last: the rest of the name may be cut off anywhere.
abbrev inner_spec : CStr → CStr → Bool
inner_spec w n = is_prefix w (literal n) || (open_ended n && is_prefix (literal n) w)

run_final : (w r : CStr) → at_end r ≡ true → run w r final ≡ true
run_final [] r h = rw (run_end [] r final h)
run_final (x ∷ w) r h = rw (run_end (x ∷ w) r final h)

inner_spec-star : (w : CStr) → inner_spec w (42 ∷ []) ≡ true
unfolding literal open_ended is_prefix
inner_spec-star [] = refl
inner_spec-star (x ∷ w) = refl

inner_spec-letter :
    (x c : ℕ) (w n : CStr)
    → (c == 42) ≡ false
    → inner_spec (x ∷ w) (c ∷ n) ≡ (if cmap x == cmap c then inner_spec w n else false)
unfolding literal open_ended is_prefix
inner_spec-letter x c w [] h = ground arith
inner_spec-letter x c w (d ∷ n) h = ground arith

run_letter :
    (x c : ℕ) (w v : CStr) (star : Star)
    → (c == 42) ≡ false
    → (c == 32) ≡ false
    → run (x ∷ w) (c ∷ v) star
      ≡ (if cmap x == cmap c then run w v star else accepts_at (x ∷ w) (c ∷ v) star)
unfolding accepts
run_letter x c w v star h k = ground (arith, inner_loop-letter x c w v star h k)

run_star-last : (w r : CStr) (star : Star) → at_end r ≡ true → run w (42 ∷ r) star ≡ true
run_star-last w r star h = rw (inner_loop-star, h) (run_final w r h)

run_star-more :
    (w : CStr) (d : ℕ) (v : CStr) (star : Star)
    → (d == 32) ≡ false
    → run w (42 ∷ d ∷ v) star ≡ run w (d ∷ v) inner
run_star-more w d v star h = rw (inner_loop-star, h)

run_done :
    (c : ℕ) (v : CStr) (star : Star)
    → (c == 42) ≡ false
    → run [] (c ∷ v) star ≡ accepts_at [] (c ∷ v) star
unfolding accepts
run_done c v star h = rw (inner_loop-done c v star h)

inner_spec-nil : (n : CStr) → inner_spec [] n ≡ true
unfolding is_prefix
inner_spec-nil n = refl

inner_spec-more : (w : CStr) (d : ℕ) (n : CStr) → inner_spec w (42 ∷ d ∷ n) ≡ inner_spec w (d ∷ n)
unfolding literal open_ended
inner_spec-more w d n = refl

run_inner : (w n r : CStr) → NoSpace n → at_end r ≡ true → run w (n ++ r) inner ≡ inner_spec w n
run_inner [] [] r hn hr = rw (run_end [] r inner hr) (unfold is_prefix literal in refl)
run_inner (x ∷ w) [] r hn hr =
    rw (run_end (x ∷ w) r inner hr) (unfold is_prefix literal open_ended in refl)
run_inner w (c ∷ n) r hn hr = elim (Bool-cases (c == 42)) [
  | inl e ↦ let e' : c ≡ 42 = ground arith in rw e' (star n hn.1 (run_inner w n r hn.1 hr))
  | inr e ↦ letter w e (λ x w'. run_inner w' n r hn.1 hr)
]
  where
    star :
        (m : CStr)
        → NoSpace m
        → run w (m ++ r) inner ≡ inner_spec w m
        → run w (42 ∷ (m ++ r)) inner ≡ inner_spec w (42 ∷ m)
    star [] hm ih = run_star-last w r inner hr ∙ sym (inner_spec-star w)
    star (d ∷ m) hm ih = run_star-more w d (m ++ r) inner hm.0 ∙ ih ∙ sym (inner_spec-more w d m)

    letter :
        (u : CStr)
        → (c == 42) ≡ false
        → ((x : ℕ) (w' : CStr) → run w' (n ++ r) inner ≡ inner_spec w' n)
        → run u (c ∷ (n ++ r)) inner ≡ inner_spec u (c ∷ n)
    letter [] e ih = run_done c (n ++ r) inner e ∙ sym (inner_spec-nil (c ∷ n))
    letter (x ∷ w') e ih =
        rw (run_letter x c w' (n ++ r) inner e hn.0, inner_spec-letter x c w' n e, ih x w')

name_matches-star : (w m : CStr) → name_matches w (42 ∷ m) ≡ inner_spec w (42 ∷ m)
unfolding name_matches
name_matches-star w m = ground arith

name_matches-nil : (c : ℕ) (n : CStr) → (c == 42) ≡ false → name_matches [] (c ∷ n) ≡ false
unfolding name_matches
name_matches-nil c [] h = ground arith
name_matches-nil c (d ∷ n) h = ground arith

name_matches-letter :
    (x c : ℕ) (w n : CStr)
    → (c == 42) ≡ false
    → name_matches (x ∷ w) (c ∷ n) ≡ (if cmap x == cmap c then name_matches w n else false)
unfolding name_matches
name_matches-letter x c w [] h = ground arith
name_matches-letter x c w (d ∷ n) h = ground arith

pub run-absent :
    (w n r : CStr) → NoSpace n → at_end r ≡ true → run w (n ++ r) absent ≡ name_matches w n
run-absent [] [] r hn hr = rw (run_end [] r absent hr) (unfold name_matches in hr)
run-absent (x ∷ w) [] r hn hr = rw (run_end (x ∷ w) r absent hr) (unfold name_matches in refl)
run-absent w (c ∷ n) r hn hr = elim (Bool-cases (c == 42)) [
  | inl e ↦ let e' : c ≡ 42 = ground arith in rw e' (star n hn.1)
  | inr e ↦ letter w e (λ w'. run-absent w' n r hn.1 hr)
]
  where
    star : (m : CStr) → NoSpace m → run w (42 ∷ (m ++ r)) absent ≡ name_matches w (42 ∷ m)
    star [] hm =
        run_star-last w r absent hr ∙ sym (inner_spec-star w) ∙ sym (name_matches-star w [])
    star (d ∷ m) hm =
        run_star-more w d (m ++ r) absent hm.0
        ∙ run_inner w (d ∷ m) r hm hr
        ∙ sym (inner_spec-more w d m)
        ∙ sym (name_matches-star w (d ∷ m))

    letter :
        (u : CStr)
        → (c == 42) ≡ false
        → ((w' : CStr) → run w' (n ++ r) absent ≡ name_matches w' n)
        → run u (c ∷ (n ++ r)) absent ≡ name_matches u (c ∷ n)
    letter [] e ih = rw (run_done c (n ++ r) absent e, hn.0, name_matches-nil c n e)
    letter (x ∷ w') e ih =
        rw (run_letter x c w' (n ++ r) absent e hn.0, name_matches-letter x c w' n e, ih w')

pub skip_name-append : (n r : CStr) → NoSpace n → at_end r ≡ true → skip_name (n ++ r) ≡ r
unfolding skip_name
skip_name-append [] [] hn hr = refl
skip_name-append [] (c ∷ r) hn hr = rw hr
skip_name-append (c ∷ n) r hn hr = rw hn.0 (skip_name-append n r hn.1 hr)

-- Wherever the scan of a name stops, the rest of that name is skipped.
pub skip_name-inner_loop :
    (w n r : CStr) (star : Star)
    → NoSpace n
    → at_end r ≡ true
    → skip_name (inner_loop w (n ++ r) star).verb ≡ r
skip_name-inner_loop w [] [] star hn hr = rw inner_loop-nil (unfold skip_name in refl)
skip_name-inner_loop w [] (c ∷ r) star hn hr =
    let e : c ≡ 32 = ground arith in rw (e, inner_loop-space) (unfold skip_name in refl)
skip_name-inner_loop w (c ∷ n) r star hn hr = elim (Bool-cases (c == 42)) [
  | inl e ↦
      let e' : c ≡ 42 = ground arith in
      rw (e', inner_loop-star)
        (skip_name-inner_loop w n r (if at_end (n ++ r) then final else inner) hn.1 hr)
  | inr e ↦ letter w e (λ w'. skip_name-inner_loop w' n r star hn.1 hr)
]
  where
    stop : skip_name (c ∷ (n ++ r)) ≡ r
    stop = skip_name-append (c ∷ n) r hn hr

    letter :
        (u : CStr)
        → (c == 42) ≡ false
        → ((w' : CStr) → skip_name (inner_loop w' (n ++ r) star).verb ≡ r)
        → skip_name (inner_loop u (c ∷ (n ++ r)) star).verb ≡ r
    letter [] e ih = rw (inner_loop-done c (n ++ r) star e) stop
    letter (x ∷ w') e ih =
        rw (inner_loop-letter x c w' (n ++ r) star e hn.0)
          (elim (Bool-cases (cmap x == cmap c)) [ inl m ↦ rw m (ih w') | inr m ↦ rw m stop ])
