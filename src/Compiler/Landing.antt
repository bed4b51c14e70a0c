-- ===== src/Compiler/Landing.antt =====
-- Labels in server/code_gen.c: a label that is captured or defined at some place of the code names
-- the place in the final vector where the code behind it begins.
use waverous.Base.{
  ℕ, suc, ◌+◌, ◌-◌, ◌*◌, ◌≤◌, ◌≡◌, inl, inr, refl, sym, ap, ◌∙◌, Option, none, some, List, [], ◌∷◌,
  ◌++◌, length, false, Bool-cases, ◌==◌, ==_iff, arith,
}
use mathlib.Core.Path.{subst}
use mathlib.Core.List.{append_assoc}
use waverous.Compiler.State.{FixupKind, literal, fork, label, var_ref, stack, Fixup, State}
use waverous.Compiler.Refs.{here}
use waverous.Compiler.Vector.{Widths, width, shifted, write_fixup, ahead, put_refs}
use waverous.Compiler.Sound.{count, Placed, IsSound}
use waverous.Compiler.Sizes.{IsWidth, extra, extra-count, put_refs-Filled, Placed-le}

ahead-nil : (o : Option (List ℕ)) → ahead (some []) o ≡ o
ahead-nil none = refl
ahead-nil (some xs) = refl

ahead_assoc : (a b c : Option (List ℕ)) → ahead (ahead a b) c ≡ ahead a (ahead b c)
ahead_assoc none b c = refl
ahead_assoc (some x) none c = refl
ahead_assoc (some x) (some y) none = refl
ahead_assoc (some x) (some y) (some z) = ap some (append_assoc x y z)

-- No fixup is due before the first one's place.
skip_later :
    (w : Widths) (i b : ℕ) (bs : List ℕ) (gs : List Fixup) (hi : ℕ)
    → Placed (suc i) gs hi
    → put_refs w i (b ∷ bs) gs ≡ ahead (some (b ∷ [])) (put_refs w (suc i) bs gs)
unfolding put_refs
skip_later w i b bs [] hi h = refl
skip_later w i b bs (g ∷ gs) hi h = let e : (g.pc == i) ≡ false = ground (arith, h.0) in rw e refl

Placed-from :
    (lo lo' : ℕ) (gs : List Fixup) (hi : ℕ) → lo' ≤ lo → Placed lo gs hi → Placed lo' gs hi
Placed-from lo lo' [] hi le h = omega arith
Placed-from lo lo' (g ∷ gs) hi le h = (omega arith, h.1)

-- Code and fixups in two parts are written part by part.
put_refs-append :
    (w : Widths) (i mid hi : ℕ) (bs cs : List ℕ) (fs gs : List Fixup)
    → mid ≡ i + length bs
    → Placed i fs mid
    → Placed mid gs hi
    → put_refs w i (bs ++ cs) (fs ++ gs) ≡ ahead (put_refs w i bs fs) (put_refs w mid cs gs)
unfolding put_refs
put_refs-append w i mid hi [] cs [] gs e h k =
    let at_mid : i ≡ mid = omega arith in
    subst (λ n. put_refs w i cs gs ≡ ahead (some []) (put_refs w n cs gs)) at_mid
      (sym (ahead-nil (put_refs w i cs gs)))
put_refs-append w i mid hi [] cs (f ∷ fs) gs e h k =
    absurd (omega (arith, e, h.0, Placed-le (suc f.pc) mid fs h.1))
put_refs-append w i mid hi (b ∷ bs) cs [] gs e h k =
    skip_later w i b (bs ++ cs) gs hi (Placed-from mid (suc i) gs hi (omega arith) k)
    ∙ ap (ahead (some (b ∷ [])))
        (put_refs-append w (suc i) mid hi bs cs [] gs (omega arith) (omega arith) k)
    ∙ sym (ahead_assoc (some (b ∷ [])) (put_refs w (suc i) bs []) (put_refs w mid cs gs))
put_refs-append w i mid hi (b ∷ bs) cs (f ∷ fs) gs e h k = elim (Bool-cases (f.pc == i)) [
  | inl due ↦
      let here : f.pc ≡ i = (==_iff f.pc i).0 due in
      let rest =
        put_refs-append w (suc i) mid hi bs cs fs gs (omega arith)
          (subst (λ n. Placed (suc n) fs mid) here h.1) k in
      rw due (
        ap (ahead (write_fixup w f)) rest
        ∙ sym (ahead_assoc (write_fixup w f) (put_refs w (suc i) bs fs) (put_refs w mid cs gs)))
  | inr later ↦
      let rest =
        put_refs-append w (suc i) mid hi bs cs (f ∷ fs) gs (omega arith) (ground (arith, h.0), h.1)
          k in
      rw later (
        ap (ahead (some (b ∷ []))) rest
        ∙ sym (ahead_assoc (some (b ∷ [])) (put_refs w (suc i) bs (f ∷ fs)) (put_refs w mid cs gs)))
]

-- The place of a label, where it is taken, against the bytes of the references before it.
shifted-here :
    (w : Widths) (s : State) (fs : List Fixup)
    → IsSound s
    → ((k : FixupKind) → count k fs ≡ count k s.fixups)
    → length s.bytes + extra w fs ≡ shifted w (here s) + (w.of_stack - 1) * count stack fs
unfolding shifted
shifted-here w s fs h same =
    rw
      (
        extra-count w fs,
        h.code.literals,
        h.code.forks,
        h.code.var_refs,
        h.code.labels,
        h.code.stacks,
        ← same literal,
        ← same fork,
        ← same var_ref,
        ← same label,
      )
      (grind arith)

-- The code up to a sound state and any code behind it: the final vector is the bytes of the first
-- part, then those of the second. A label taken in the state has as its final value the length of
-- the first part, so it names the byte where the code behind it begins, less what the stack
-- references of the first part take beyond one byte each, which is nothing when they are one byte
-- wide. It does not matter to which labels the fixups of the first part are set later on.
pub put_refs-here :
    (w : Widths) (s : State) (fs : List Fixup) (bs : List ℕ) (gs : List Fixup) (hi : ℕ)
    → ((k : FixupKind) → IsWidth (width w k))
    → IsSound s
    → Placed 0 fs (length s.bytes)
    → ((k : FixupKind) → count k fs ≡ count k s.fixups)
    → Placed (length s.bytes) gs hi
    → (xs : List ℕ) × (put_refs w 0 (s.bytes ++ bs) (fs ++ gs)
        ≡ ahead (some xs) (put_refs w (length s.bytes) bs gs))
      × (length xs ≡ shifted w (here s) + (w.of_stack - 1) * count stack fs)
put_refs-here w s fs bs gs hi hw h placed same later =
    let (xs, e, l) = put_refs-Filled w 0 (length s.bytes) s.bytes fs hw (omega arith) placed in
    (
      xs,
      put_refs-append w 0 (length s.bytes) hi s.bytes bs fs gs (omega arith) placed later
          ∙ ap (λ o. ahead o (put_refs w (length s.bytes) bs gs)) e,
      l ∙ shifted-here w s fs h same,
    )
