-- ===== src/Compiler/Sizes.antt =====
-- The vector that `stmt_to_code` of server/code_gen.c fills, against the size that it asked memory
-- for.
use waverous.Base.{
  ℕ, suc, ◌+◌, ◌-◌, ◌*◌, ◌≤◌, ◌≡◌, ◌⊎◌, inl, inr, refl, sym, ap, ◌∙◌, Option, some, List, [], ◌∷◌,
  ◌++◌, length, length-append, Bool-cases, ◌==◌, ==_iff, arith,
}
use mathlib.Core.Path.{subst}
use waverous.Compiler.State.{
  FixupKind, literal, fork, label, var_ref, stack, Fixup, Bytecodes, State,
}
use waverous.Compiler.Vector.{
  ref_size, Widths, width, base_size, label_size, widths, vector_size, fixed_value, write_ref,
  write_fixup, ahead, put_refs, vector_of, assemble,
}
use waverous.Compiler.Sound.{one, count, Placed, IsSound}

abbrev pub IsWidth : ℕ → Type 0
IsWidth n = (n ≡ 1) ⊎ (n ≡ 2) ⊎ (n ≡ 4)

pub ref_size-IsWidth : (max : ℕ) → IsWidth (ref_size max)
unfolding ref_size
ref_size-IsWidth max = ground arith

label_size-IsWidth : (size n : ℕ) → IsWidth (label_size size n)
unfolding label_size
label_size-IsWidth size n = ground arith

widths-IsWidth : (s : State) (k : FixupKind) → IsWidth (width (widths s) k)
unfolding width widths
widths-IsWidth s literal = ref_size-IsWidth _
widths-IsWidth s fork = ref_size-IsWidth _
widths-IsWidth s var_ref = ref_size-IsWidth _
widths-IsWidth s stack = ref_size-IsWidth _
widths-IsWidth s label = label_size-IsWidth _ _

write_ref-length :
    (size value : ℕ)
    → IsWidth size
    → (xs : List ℕ) × (write_ref size value ≡ some xs) × (length xs ≡ size)
unfolding write_ref
write_ref-length size value (inl e) = (_, ap (λ n. write_ref n value) e, sym e)
write_ref-length size value (inr (inl e)) = (_, ap (λ n. write_ref n value) e, sym e)
write_ref-length size value (inr (inr e)) = (_, ap (λ n. write_ref n value) e, sym e)

-- The bytes that the references take beyond one each.
abbrev pub extra : Widths → List Fixup → ℕ
extra w [] = 0
extra w (f ∷ fs) = width w f.kind - 1 + extra w fs

pub Placed-le : (lo hi : ℕ) (fs : List Fixup) → Placed lo fs hi → lo ≤ hi
Placed-le lo hi [] h = h
Placed-le lo hi (f ∷ fs) h = omega (arith, h.0, Placed-le (suc f.pc) hi fs h.1)

abbrev pub Filled : Widths → Option (List ℕ) → ℕ → Type 0
Filled w o n = (v : List ℕ) × (o ≡ some v) × (length v ≡ n)

ahead-Filled :
    (w : Widths) (o rest : Option (List ℕ)) (n m k : ℕ)
    → Filled w o n
    → Filled w rest m
    → k ≡ n + m
    → Filled w (ahead o rest) k
ahead-Filled w o rest n m k (xs, e, l) (ys, e', l') h =
    (xs ++ ys, rw (e, e') refl, omega (arith, length-append {0} xs ys))

write_fixup-Filled :
    (w : Widths) (f : Fixup)
    → IsWidth (width w f.kind)
    → Filled w (write_fixup w f) (width w f.kind)
unfolding write_fixup
write_fixup-Filled w f h = write_ref-length (width w f.kind) (fixed_value w f.kind f) h

-- Placed fixups are all written, each at its width.
pub put_refs-Filled :
    (w : Widths) (i hi : ℕ) (bs : List ℕ) (fs : List Fixup)
    → ((k : FixupKind) → IsWidth (width w k))
    → hi ≡ i + length bs
    → Placed i fs hi
    → Filled w (put_refs w i bs fs) (length bs + extra w fs)
unfolding put_refs
put_refs-Filled w i hi [] [] hw e h = ([], refl, omega arith)
put_refs-Filled w i hi [] (f ∷ fs) hw e h =
    absurd (omega (arith, e, h.0, Placed-le (suc f.pc) hi fs h.1))
put_refs-Filled w i hi (b ∷ bs) [] hw e h =
    ahead-Filled w (some (b ∷ [])) (put_refs w (suc i) bs []) 1 (length bs + 0) _
      (b ∷ [], refl, omega arith)
      (put_refs-Filled w (suc i) hi bs [] hw (omega arith) (omega arith)) (omega arith)
put_refs-Filled w i hi (b ∷ bs) (f ∷ fs) hw e h = elim (Bool-cases (f.pc == i)) [
  | inl due ↦
      let here : f.pc ≡ i = (==_iff f.pc i).0 due in
      rw due (
        ahead-Filled w (write_fixup w f) (put_refs w (suc i) bs fs) (width w f.kind)
          (length bs + extra w fs) _ (write_fixup-Filled w f (hw f.kind))
          (put_refs-Filled w (suc i) hi bs fs hw (omega arith)
            (subst (λ n. Placed (suc n) fs hi) here h.1))
          (omega (arith, hw f.kind)))
  | inr later ↦ rw later (
      ahead-Filled w (some (b ∷ [])) (put_refs w (suc i) bs (f ∷ fs)) 1
        (length bs + extra w (f ∷ fs)) _ (b ∷ [], refl, omega arith)
        (put_refs-Filled w (suc i) hi bs (f ∷ fs) hw (omega arith) (ground (arith, h.0), h.1))
        (omega arith))
]

extra_more :
    (w : Widths) (k : FixupKind) (fs : List Fixup)
    → extra w fs
      ≡ (w.of_literal - 1) * count literal fs
        + (w.of_fork - 1) * count fork fs
        + (w.of_var_ref - 1) * count var_ref fs
        + (w.of_label - 1) * count label fs
        + (w.of_stack - 1) * count stack fs
    → width w k - 1 + extra w fs
      ≡ (w.of_literal - 1) * (one literal k + count literal fs)
        + (w.of_fork - 1) * (one fork k + count fork fs)
        + (w.of_var_ref - 1) * (one var_ref k + count var_ref fs)
        + (w.of_label - 1) * (one label k + count label fs)
        + (w.of_stack - 1) * (one stack k + count stack fs)
unfolding width
extra_more w literal fs h = grind arith
extra_more w fork fs h = grind arith
extra_more w label fs h = grind arith
extra_more w var_ref fs h = grind arith
extra_more w stack fs h = grind arith

-- What the references take beyond one byte, counted kind by kind.
pub extra-count :
    (w : Widths) (fs : List Fixup)
    → extra w fs
      ≡ (w.of_literal - 1) * count literal fs
        + (w.of_fork - 1) * count fork fs
        + (w.of_var_ref - 1) * count var_ref fs
        + (w.of_label - 1) * count label fs
        + (w.of_stack - 1) * count stack fs
extra-count w [] = grind arith
extra-count w (f ∷ fs) = extra_more w f.kind fs (extra-count w fs)

total :
    (s : State)
    → IsSound s
    → length s.bytes + extra (widths s) s.fixups
      ≡ vector_size s (widths s) + (ref_size s.max_stack - 1) * count stack s.fixups
unfolding vector_size base_size widths
total s h =
    rw
      (
        extra-count (widths s) s.fixups,
        h.code.literals,
        h.code.forks,
        h.code.var_refs,
        h.code.labels,
      )
      (omega arith)

-- A state with its fixups in place has a vector, and this is its length: the size that was asked
-- for, and what the stack references take beyond one byte.
pub assemble-size :
    (s : State)
    → IsSound s
    → (bc : Bytecodes) × (assemble s ≡ some bc)
      × (length bc.vector ≡ bc.size + (ref_size s.max_stack - 1) * count stack s.fixups)
      × (bc.max_stack ≡ s.max_stack)
unfolding assemble
assemble-size s h =
    let w = widths s in
    let (v, e, l) =
      put_refs-Filled w 0 (length s.bytes) s.bytes s.fixups (widths-IsWidth s) (omega arith)
        h.code.placed in
    (vector_of s w v, rw (e, assemble) refl, l ∙ total s h, refl)
