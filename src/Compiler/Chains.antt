-- ===== src/Compiler/Chains.antt =====
-- `define_label` of server/code_gen.c: the chain of fixups that wait for a label.
use waverous.Base.{
  ℕ, zero, suc, ◌≤◌, ◌<◌, ◌≡◌, ◌≢◌, refl, sym, ap, ◌∙◌, Option, none, some, List, [], ◌∷◌, length,
  get_elem?, arith,
}
use mathlib.Core.Path.{subst}
use waverous.Compiler.State.{Fixup, State, modify}
use waverous.Compiler.Refs.{points_to, point_at, next_of, point_chain, here, define_label}

-- The links from a label on.
pub data OnChain (fs : List Fixup) : Option ℕ → ℕ → Type 0 where
  first : (i : ℕ) → OnChain fs (some i) i
  further : (i j : ℕ) → OnChain fs (next_of (get_elem? fs i)) j → OnChain fs (some i) j

-- Each link goes to a fixup before it, as those do that `add_linked_label` makes.
abbrev pub Descends : List Fixup → Type 0
Descends fs = (i n : ℕ) → next_of (get_elem? fs i) ≡ some n → n < i

abbrev pub Below : Option ℕ → ℕ → Type 0
Below none n = Unit
Below (some i) n = i < n

abbrev pub pointed : Fixup → Option Fixup → Option Fixup
pointed h none = none
pointed h (some f) = some (points_to f h)

point_at_self :
    (h : Fixup) (i : ℕ) (fs : List Fixup)
    → get_elem? (point_at h i fs) i ≡ pointed h (get_elem? fs i)
unfolding point_at
point_at_self h i [] = refl
point_at_self h zero (f ∷ fs) = refl
point_at_self h (suc i) (f ∷ fs) = point_at_self h i fs

point_at_other :
    (h : Fixup) (i j : ℕ) (fs : List Fixup) → j ≢ i → get_elem? (point_at h i fs) j ≡ get_elem? fs j
unfolding point_at
point_at_other h i j [] ne = refl
point_at_other h zero zero (f ∷ fs) ne = absurd (ne refl)
point_at_other h zero (suc j) (f ∷ fs) ne = refl
point_at_other h (suc i) zero (f ∷ fs) ne = refl
point_at_other h (suc i) (suc j) (f ∷ fs) ne = point_at_other h i j fs (λ e. ne (ap suc e))

-- The links stay.
next-point_at :
    (h : Fixup) (i j : ℕ) (fs : List Fixup)
    → next_of (get_elem? (point_at h i fs) j) ≡ next_of (get_elem? fs j)
unfolding point_at next_of
next-point_at h i j [] = refl
next-point_at h zero zero (f ∷ fs) = refl
next-point_at h zero (suc j) (f ∷ fs) = refl
next-point_at h (suc i) zero (f ∷ fs) = refl
next-point_at h (suc i) (suc j) (f ∷ fs) = next-point_at h i j fs

Descends-point_at : (h : Fixup) (i : ℕ) (fs : List Fixup) → Descends fs → Descends (point_at h i fs)
Descends-point_at h i fs d j n e = d j n (sym (next-point_at h i j fs) ∙ e)

-- Where two lists have the same links, they have the same chains.
OnChain-same :
    (fs gs : List Fixup)
    → ((j : ℕ) → next_of (get_elem? fs j) ≡ next_of (get_elem? gs j))
    → {l : Option ℕ} {j : ℕ} → OnChain fs l j
    → OnChain gs l j
OnChain-same fs gs same (first i) = first i
OnChain-same fs gs same (further i j r) =
    further i j (subst (λ l. OnChain gs l j) (same i) (OnChain-same fs gs same r))

below : (l : Option ℕ) {i : ℕ} → ((n : ℕ) → l ≡ some n → n < i) → Below l i
below none d = tt
below (some n) d = d n refl

-- The links on from one stand before it.
Below-next : (fs : List Fixup) (i : ℕ) → Descends fs → Below (next_of (get_elem? fs i)) i
Below-next fs i d = below (next_of (get_elem? fs i)) (d i)

OnChain-lt :
    (fs : List Fixup) {l : Option ℕ} {j : ℕ} (n : ℕ)
    → Descends fs
    → OnChain fs l j
    → Below l n
    → j < n
OnChain-lt fs n d (first i) b = b
OnChain-lt fs n d (further i j r) b =
    let lt : j < i = OnChain-lt fs i d r (Below-next fs i d) in omega arith

Below-later : (l : Option ℕ) (i n : ℕ) → i ≤ n → Below l i → Below l n
Below-later none i n le b = tt
Below-later (some m) i n le b = omega arith

module _ (h : Fixup) where
  off_chain :
      (fuel : ℕ) (l : Option ℕ) (fs : List Fixup) (j : ℕ)
      → Descends fs
      → ¬ (OnChain fs l j)
      → get_elem? (point_chain fuel h l fs) j ≡ get_elem? fs j
  unfolding point_chain
  off_chain zero l fs j d off = refl
  off_chain (suc fuel) none fs j d off = refl
  off_chain (suc fuel) (some i) fs j d off =
      let fs' = point_at h i fs in
      off_chain fuel (next_of (get_elem? fs i)) fs' j (Descends-point_at h i fs d)
        (λ r. off (further i j (OnChain-same fs' fs (λ k. next-point_at h i k fs) r)))
      ∙ point_at_other h i j fs (λ e. off (subst (λ k. OnChain fs (some i) k) (sym e) (first i)))

  on_chain :
      (fuel : ℕ) (l : Option ℕ) (fs : List Fixup) (j : ℕ)
      → Descends fs
      → Below l fuel
      → OnChain fs l j
      → get_elem? (point_chain fuel h l fs) j ≡ pointed h (get_elem? fs j)
  unfolding point_chain
  on_chain zero none fs j d b r = elim r [ ]
  on_chain zero (some i) fs j d b r = absurd (omega (arith, b))
  on_chain (suc fuel) none fs j d b r = elim r [ ]
  on_chain (suc fuel) (some i) fs j d b (first _) =
      let fs' = point_at h i fs in
      let d' = Descends-point_at h i fs d in
      let next = next_of (get_elem? fs i) in
      off_chain fuel next fs' i d'
        (λ r. absurd (omega (arith, OnChain-lt fs' i d' r (Below-next fs i d))))
      ∙ point_at_self h i fs
  on_chain (suc fuel) (some i) fs j d b (further _ _ r) =
      let fs' = point_at h i fs in
      let next = next_of (get_elem? fs i) in
      let lt : j < i = OnChain-lt fs i d r (Below-next fs i d) in
      on_chain fuel next fs' j (Descends-point_at h i fs d)
        (Below-later next i fuel (omega arith) (Below-next fs i d))
        (OnChain-same fs fs' (λ k. sym (next-point_at h i k fs)) r)
      ∙ ap (pointed h) (point_at_other h i j fs (λ e. absurd (omega (arith, e, lt))))

-- In a state whose links all go to earlier fixups, defining a label that is the index of a fixup
-- gives every fixup on its chain the present place, and leaves every other fixup as it was.
pub define_label-OnChain :
    (s : State) (i : ℕ)
    → Descends s.fixups
    → i < length s.fixups
    → (t : State) × (define_label (some i) s ≡ some (tt, t))
      × ((j : ℕ)
          → OnChain s.fixups (some i) j
          → get_elem? t.fixups j ≡ pointed (here s) (get_elem? s.fixups j))
      × ((j : ℕ) → ¬ (OnChain s.fixups (some i) j) → get_elem? t.fixups j ≡ get_elem? s.fixups j)
unfolding define_label modify
define_label-OnChain s i d lt = (
  record s { fixups = point_chain (length s.fixups) (here s) (some i) s.fixups },
  refl,
  λ j r. on_chain (here s) (length s.fixups) (some i) s.fixups j d lt r,
  λ j off. off_chain (here s) (length s.fixups) (some i) s.fixups j d off,
)
