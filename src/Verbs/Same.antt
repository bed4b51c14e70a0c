-- ===== src/Verbs/Same.antt =====
-- `verbcasecmp` of server/utils.c sees a word other than the names string itself only up to the case of its letters.
use waverous.Base.{
  ℕ, zero, suc, false, ◌≡◌, refl, inl, inr, ◌||◌, not, [], ◌∷◌, arith, ◌==◌, if◌then◌else◌, length,
  Bool-cases,
}
use waverous.Text.{CStr, cmap}
use waverous.Text.Compare.{lower}
use waverous.Text.Verbs.{
  Star, absent, skip_stars, Scan, scan, inner_loop, accepts, skip_name, skip_spaces, verb_loop,
  verbcasecmp,
}
use waverous.Verbs.{names_match}

-- Two scans stop at one place of the names and are both accepted, or neither.
abbrev Alike : Scan → Scan → Type 0
Alike s t = (s.verb ≡ t.verb) × (accepts s ≡ accepts t)

accepts-cons :
    (x y : ℕ) (w u v : CStr) (star : Star) → Alike (scan (x ∷ w) v star) (scan (y ∷ u) v star)
unfolding accepts
accepts-cons x y w u v star = (refl, ground arith)

inner_loop-Alike :
    (w u v : CStr) (star : Star)
    → lower w ≡ lower u
    → Alike (inner_loop w v star) (inner_loop u v star)
unfolding inner_loop
inner_loop-Alike [] [] v star h = (refl, refl)
inner_loop-Alike [] (y ∷ u) v star h = cc
inner_loop-Alike (x ∷ w) [] v star h = cc
inner_loop-Alike (x ∷ w) (y ∷ u) v star h =
    go (skip_stars v star).0 (skip_stars v star).1 (inner_loop-Alike w u) (cc) (cc)
  where
    go :
        (v' : CStr) (star' : Star)
        → ((v'' : CStr) (s : Star)
            → lower w ≡ lower u
            → Alike (inner_loop w v'' s) (inner_loop u v'' s))
        → cmap x ≡ cmap y
        → lower w ≡ lower u
        → Alike
            (elim v' as (λ _. Scan) [
              | [] ↦ scan (x ∷ w) [] star'
              | c ∷ v'' ↦
                  let rest = inner_loop w v'' star' in
                  if c == 32 || not (cmap x == cmap c) then scan (x ∷ w) (c ∷ v'') star' else rest
            ])
            (elim v' as (λ _. Scan) [
              | [] ↦ scan (y ∷ u) [] star'
              | c ∷ v'' ↦
                  let rest = inner_loop u v'' star' in
                  if c == 32 || not (cmap y == cmap c) then scan (y ∷ u) (c ∷ v'') star' else rest
            ])
    go [] star' ih e r = accepts-cons x y w u [] star'
    go (c ∷ v') star' ih e r = rw e (elim (Bool-cases (c == 32 || not (cmap y == cmap c))) [
      | inl t ↦ rw t (accepts-cons x y w u (c ∷ v') star')
      | inr f ↦ rw f (ih v' star' r)
    ])

verb_loop-lower :
    (fuel : ℕ) (v w u : CStr) → lower w ≡ lower u → verb_loop fuel v w ≡ verb_loop fuel v u
unfolding verb_loop
verb_loop-lower fuel [] w u h = refl
verb_loop-lower zero (c ∷ v) w u h = refl
verb_loop-lower (suc fuel) (c ∷ v) w u h =
    let a = inner_loop-Alike w u (c ∷ v) absent h in
    rw (a.1) (
      rw (a.0) (
        rw (verb_loop-lower fuel (skip_spaces (skip_name (inner_loop u (c ∷ v) absent).verb)) w u h)
          refl))

-- Words that differ in case alone match the same verbs.
pub names_match-lower :
    (v w u : CStr) → lower w ≡ lower u → names_match false v w ≡ names_match false v u
unfolding names_match verbcasecmp
names_match-lower v w u h = rw (verb_loop-lower (length v) v w u h, names_match) refl
