-- ===== src/Text/VerbNames.antt =====
-- The outer loop of `verbcasecmp` in server/utils.c, over all the names of a verb.
use waverous.Base.{
  ℕ, zero, suc, ◌≤◌, ◌≡◌, refl, inl, inr, Bool, true, false, ◌||◌, not, some, List, [], ◌∷◌, ◌++◌,
  arith, ◌==◌, if◌then◌else◌, length, length-append, All, Bool-cases,
}
use mathlib.Core.List.{append-nil}
use waverous.Text.{CStr, cmap}
use waverous.Text.Verbs.{
  Star, absent, inner, final, at_end, skip_stars, Scan, scan, inner_loop, accepts, skip_name,
  skip_spaces, verb_loop, verbcasecmp,
}
use waverous.Text.VerbSpec.{
  IsName, run-absent, skip_name-inner_loop, name_matches, any_matches, join,
}

skip_spaces-name : (n r : CStr) → IsName n → skip_spaces (n ++ r) ≡ n ++ r
unfolding skip_spaces
skip_spaces-name [] r h = absurd h
skip_spaces-name (c ∷ n) r h = rw h.0

-- One name of the list, and what follows it.
verb_loop-name :
    (fuel : ℕ) (n r word : CStr)
    → IsName n
    → at_end r ≡ true
    → verb_loop (suc fuel) (n ++ r) word
      ≡ (if name_matches word n then some true else verb_loop fuel (skip_spaces r) word)
unfolding verb_loop
verb_loop-name fuel [] r word h e = absurd h
verb_loop-name fuel (c ∷ n) r word h e =
    rw (run-absent word (c ∷ n) r h e, skip_name-inner_loop word (c ∷ n) r absent h e)

length-pos : (n : CStr) → IsName n → 1 ≤ length n
length-pos [] h = absurd h
length-pos (c ∷ n) h = omega arith

skip_spaces-join :
    (m : CStr) (ns : List CStr) → IsName m → skip_spaces (32 ∷ join (m ∷ ns)) ≡ join (m ∷ ns)
unfolding skip_spaces join
skip_spaces-join [] ns h = absurd h
skip_spaces-join (c ∷ m) [] h = rw h.0
skip_spaces-join (c ∷ m) (n ∷ ns) h = rw h.0

verb_loop-join :
    (fuel : ℕ) (ns : List CStr) (word : CStr)
    → All IsName ns
    → length ns ≤ fuel
    → verb_loop fuel (join ns) word ≡ some (any_matches word ns)
unfolding join any_matches
verb_loop-join fuel [] word h k = unfold verb_loop in refl
verb_loop-join zero (n ∷ ns) word h k = absurd (omega arith)
verb_loop-join (suc fuel) (n ∷ []) word h k =
    rw (rw append-nil at (verb_loop-name fuel n [] word h.0 refl))
      (unfold verb_loop skip_spaces in last)
  where
    last :
        (if name_matches word n then some true else some false)
        ≡ some (name_matches word n || false)
    last = ground arith
verb_loop-join (suc fuel) (n ∷ m ∷ ns) word h k =
    rw (verb_loop-name fuel n (32 ∷ join (m ∷ ns)) word h.0 refl, skip_spaces-join m ns h.1.0)
      (rw (verb_loop-join fuel (m ∷ ns) word h.1 (omega arith)) (more (any_matches word (m ∷ ns))))
  where
    more :
        (b : Bool)
        → (if name_matches word n then some true else some b) ≡ some (name_matches word n || b)
    more b = ground arith

length-join : (ns : List CStr) → All IsName ns → length ns ≤ length (join ns)
unfolding join
length-join [] h = omega arith
length-join (n ∷ []) h = omega (arith, length-pos n h.0)
length-join (n ∷ m ∷ ns) h =
    omega (arith, length-pos n h.0, length-append n (32 ∷ join (m ∷ ns)), length-join (m ∷ ns) h.1)

-- For a verb whose names are not empty, have no spaces and are joined by single spaces,
-- `verbcasecmp` says yes if the word is the very string of the names, the pointers being one; and
-- otherwise whether the word matches one of the names: it is a prefix of the name's letters that
-- reaches the first star, or the name ends in a star and its letters are a prefix of the word, in
-- either case up to case.
pub verbcasecmp-any_matches :
    (same : Bool) (ns : List CStr) (word : CStr)
    → All IsName ns
    → verbcasecmp same (join ns) word ≡ some (same || any_matches word ns)
unfolding verbcasecmp
verbcasecmp-any_matches true ns word h = refl
verbcasecmp-any_matches false ns word h =
    verb_loop-join (length (join ns)) ns word h (length-join ns h)

length-skip_stars : (v : CStr) (star : Star) → length (skip_stars v star).0 ≤ length v
unfolding skip_stars
length-skip_stars [] star = omega arith
length-skip_stars (c ∷ v) star =
    ground (arith, length-skip_stars v (if at_end v then final else inner))

length-inner_loop : (w v : CStr) (star : Star) → length (inner_loop w v star).verb ≤ length v
unfolding inner_loop
length-inner_loop [] v star = length-skip_stars v star
length-inner_loop (x ∷ w) v star =
    go (skip_stars v star).0 (skip_stars v star).1 (length-skip_stars v star) (length-inner_loop w)
  where
    go :
        (u : CStr) (star' : Star)
        → length u ≤ length v
        → ((u' : CStr) (s : Star) → length (inner_loop w u' s).verb ≤ length u')
        → length
            (elim u as (λ _. Scan) [
              | [] ↦ scan (x ∷ w) [] star'
              | c ∷ v'' ↦
                  let rest = inner_loop w v'' star' in
                  if c == 32 || not (cmap x == cmap c) then scan (x ∷ w) (c ∷ v'') star' else rest
            ]).verb
          ≤ length v
    go [] star' e ih = omega arith
    go (c ∷ u) star' e ih = elim (Bool-cases (c == 32 || not (cmap x == cmap c))) [
      | inl b ↦ rw b e
      | inr b ↦ rw b (omega (arith, ih u star'))
    ]

length-skip_name : (v : CStr) → length (skip_name v) ≤ length v
unfolding skip_name
length-skip_name [] = omega arith
length-skip_name (c ∷ v) = ground (arith, length-skip_name v)

pub length-skip_spaces : (v : CStr) → length (skip_spaces v) ≤ length v
unfolding skip_spaces
length-skip_spaces [] = omega arith
length-skip_spaces (c ∷ v) = ground (arith, length-skip_spaces v)

next_shorter : (c : ℕ) (v : CStr) → length (skip_spaces (skip_name (c ∷ v))) ≤ length v
unfolding skip_name skip_spaces
next_shorter c v =
    ground (arith, length-skip_spaces v, length-skip_name v, length-skip_spaces (skip_name v))

next_fits : (u : CStr) (k : ℕ) → length u ≤ suc k → length (skip_spaces (skip_name u)) ≤ k
next_fits [] k h = unfold skip_name skip_spaces in omega arith
next_fits (c ∷ u) k h = omega (arith, next_shorter c u)

verb_loop-total :
    (fuel : ℕ) (v word : CStr) → length v ≤ fuel → (b : Bool) × (verb_loop fuel v word ≡ some b)
unfolding verb_loop
verb_loop-total fuel [] word h = (false, refl)
verb_loop-total zero (c ∷ v) word h = absurd (omega arith)
verb_loop-total (suc fuel) (c ∷ v) word h =
    let s = inner_loop word (c ∷ v) absent in
    let shorter : length (skip_spaces (skip_name s.verb)) ≤ fuel =
      next_fits s.verb fuel (omega (arith, length-inner_loop word (c ∷ v) absent)) in
    let rest = verb_loop-total fuel (skip_spaces (skip_name s.verb)) word shorter in
    elim (Bool-cases (accepts s)) [ inl t ↦ (true, rw t) | inr f ↦ (rest.0, rw f rest.1) ]

-- The search of a verb's names ends, whatever the two texts.
pub verbcasecmp_total :
    (same : Bool) (verb word : CStr) → (b : Bool) × (verbcasecmp same verb word ≡ some b)
unfolding verbcasecmp
verbcasecmp_total true verb word = (true, refl)
verbcasecmp_total false verb word = verb_loop-total (length verb) verb word (omega arith)
