-- ===== src/Text/SearchLaws.antt =====
-- What strindex, strrindex and strsub of server/utils.c find.
use waverous.Base.{
  eqz, ℕ, zero, suc, ◌+◌, ◌-◌, ◌≤◌, ◌<◌, ◌≡◌, ◌⊎◌, refl, inl, inr, Bool, true, false, none, some,
  [], ◌∷◌, ◌++◌, arith, length, length-drop, drop, Bool-cases,
}
use native.Mathlib.Decide.{dec_lt}
use waverous.Text.{CStr, mystrncasecmp, strneq}
use waverous.Text.Search.{same_here, sub_loop, strsub, index_loop, strindex, rindex_loop, strrindex}

-- Of the positions below `n`, either none fits and the result is 0, or the result is one more than
-- the first position that fits, counted from `base`.
abbrev pub FirstHit : ℕ → ℕ → CStr → CStr → Bool → ℕ → Type 0
FirstHit base n s what exact r =
    ((r ≡ 0) × ((i : ℕ) → i < n → same_here exact (drop i s) what ≡ false))
    ⊎ ((k : ℕ) × (k < n)
        × (r ≡ base + k + 1)
        × (same_here exact (drop k s) what ≡ true)
        × ((i : ℕ) → i < k → same_here exact (drop i s) what ≡ false))

abbrev pub LastHit : ℕ → CStr → CStr → Bool → ℕ → Type 0
LastHit n s what exact r =
    ((r ≡ 0) × ((i : ℕ) → i < n → same_here exact (drop i s) what ≡ false))
    ⊎ ((k : ℕ) × (k < n)
        × (r ≡ k + 1)
        × (same_here exact (drop k s) what ≡ true)
        × ((i : ℕ) → k < i → i < n → same_here exact (drop i s) what ≡ false))

drop-one : (i : ℕ) (s : CStr) → drop i (drop 1 s) ≡ drop (suc i) s
drop-one zero s = refl
drop-one (suc i) [] = refl
drop-one (suc i) (c ∷ s) = refl

module _ (what : CStr) (exact : Bool) where
  -- What holds at the first position and at all later ones holds at all.
  misses-suc :
      (s : CStr) (k : ℕ)
      → same_here exact s what ≡ false
      → ((i : ℕ) → i < k → same_here exact (drop i (drop 1 s)) what ≡ false)
      → (i : ℕ) → i < suc k
      → same_here exact (drop i s) what ≡ false
  misses-suc s k h later zero lt = h
  misses-suc s k h later (suc i) lt = rw (← drop-one i s) (later i (omega arith))

  index_loop-FirstHit :
      (n base : ℕ) (s : CStr) → FirstHit base n s what exact (index_loop n base s what exact)
  unfolding index_loop
  index_loop-FirstHit zero base s = inl (refl, λ i h. elim h [ ])
  index_loop-FirstHit (suc n) base s = elim (Bool-cases (same_here exact s what)) [
    | inl hit ↦ inr (0, omega arith, rw hit (omega arith), hit, λ i h. elim h [ ])
    | inr miss ↦ rw miss (elim (index_loop-FirstHit n (base + 1) (drop 1 s)) [
      | inl (z, none_fits) ↦ inl (z, misses-suc s n miss none_fits)
      | inr (k, lt, e, fits, before) ↦
          inr
            (suc k, omega arith, omega arith, rw (← drop-one k s) fits, misses-suc s k miss before)
    ])
  ]

  rindex_loop-LastHit : (n : ℕ) (s : CStr) → LastHit n s what exact (rindex_loop n s what exact)
  unfolding rindex_loop
  rindex_loop-LastHit zero s = inl (refl, λ i h. elim h [ ])
  rindex_loop-LastHit (suc n) s = elim (Bool-cases (same_here exact (drop n s) what)) [
    | inl hit ↦ inr (n, omega arith, rw hit refl, hit, λ i h h'. absurd (omega arith))
    | inr miss ↦ rw miss (elim (rindex_loop-LastHit n s) [
      | inl (z, none_fits) ↦ inl (z, λ i h. at_most i n miss (none_fits i) h)
      | inr (k, lt, e, fits, after) ↦
          inr (k, omega arith, e, fits, λ i h h'. at_most i n miss (after i h) h')
    ])
  ]
    where
      at_most :
          (i m : ℕ)
          → same_here exact (drop m s) what ≡ false
          → (i < m → same_here exact (drop i s) what ≡ false)
          → i < suc m
          → same_here exact (drop i s) what ≡ false
      at_most i m miss below h = elim (dec_lt i m) [
        | yes lt ↦ below lt
        | no ge ↦ let e : i ≡ m = omega arith in rw e miss
      ]

  -- `strindex` returns the first place where the pattern fits, counted from 1, or 0 if it fits at none
  -- of the places where it may start.
  pub strindex-FirstHit :
      (source : CStr)
      → FirstHit 0 (length source + 1 - length what) source what exact (strindex source what exact)
  unfolding strindex
  strindex-FirstHit source = index_loop-FirstHit (length source + 1 - length what) 0 source

  -- `strrindex` returns the last place where the pattern fits, counted from 1, or 0 if it fits at none
  -- of the places where it may start.
  pub strrindex-LastHit :
      (source : CStr)
      → LastHit (length source + 1 - length what) source what exact (strrindex source what exact)
  unfolding strrindex
  strrindex-LastHit source = rindex_loop-LastHit (length source + 1 - length what) source

  sub_loop-total :
      (with : CStr) (fuel : ℕ) (source : CStr)
      → 1 ≤ length what
      → length source ≤ fuel
      → (out : CStr) × (sub_loop fuel source what with exact ≡ some out)
  unfolding sub_loop
  sub_loop-total with fuel [] h k = ([], refl)
  sub_loop-total with zero (c ∷ source) h k = absurd (omega arith)
  sub_loop-total with (suc fuel) (c ∷ source) h k =
      let shorter : length (drop (length what) (c ∷ source)) ≤ fuel =
        omega (arith, length-drop {0} (length what) (c ∷ source)) in
      let (hit, p) = sub_loop-total with fuel (drop (length what) (c ∷ source)) h shorter in
      let (miss, q) = sub_loop-total with fuel source h (omega arith) in
      elim (Bool-cases (same_here exact (c ∷ source) what)) [
        | inl t ↦ (with ++ hit, rw (t, p))
        | inr f ↦ (c ∷ miss, rw (f, q))
      ]

  -- With a nonempty pattern `strsub` ends, after as many rounds as the source has bytes at most.
  pub strsub_total :
      (with source : CStr)
      → 1 ≤ length what
      → (out : CStr) × (strsub source what with exact ≡ some out)
  unfolding strsub
  strsub_total with source h = sub_loop-total with (length source) source h (omega arith)

-- With an empty pattern the loop of `strsub` never ends on a nonempty source: no number of rounds is enough.
pub sub_loop-empty :
    (fuel c : ℕ) (source with : CStr) (exact : Bool)
    → sub_loop fuel (c ∷ source) [] with exact ≡ none
unfolding sub_loop same_here strneq mystrncasecmp eqz
sub_loop-empty zero c source with exact = refl
sub_loop-empty (suc fuel) c source with true = rw (sub_loop-empty fuel c source with true)
sub_loop-empty (suc fuel) c source with false = rw (sub_loop-empty fuel c source with false)
