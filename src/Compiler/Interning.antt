-- ===== src/Compiler/Interning.antt =====
-- The table of literals of server/code_gen.c: which index `add_literal` gives a value.
use waverous.Base.{
  ℕ, zero, suc, ◌<◌, ◌≡◌, ◌≢◌, ◌⊎◌, inl, inr, refl, sym, ap, ◌∙◌, some, Option-cases, List, [], ◌∷◌,
  ◌++◌, length, get_elem?, All, Bool, true, false, Bool-cases, ◌==◌, ==_iff, arith,
}
use mathlib.Core.List.{append-nil}
use waverous.Values.{Var}
use waverous.Compiler.State.{State, GState}
use waverous.Compiler.Refs.{same_literal, find_literal, intern_at, intern_literal}
use waverous.Compiler.Sound.{IsLiteral}
use waverous.Compiler.Literals.{same_literal-ne-none}

module _ (feq : ℕ → ℕ → Bool) (v : Var) where
  -- The literal at this index is the same, or the index is the next one.
  abbrev pub Finds : List Var → ℕ → Type 0
  Finds ws i =
      ((w : Var) × (get_elem? ws i ≡ some w) × (same_literal feq v w ≡ some true)) ⊎ (i ≡ length ws)

  -- Every literal before this index is another one.
  abbrev pub Differs : List Var → ℕ → Type 0
  Differs ws i =
      (j : ℕ) (w : Var) → j < i → get_elem? ws j ≡ some w → same_literal feq v w ≡ some false

  Finds-next : (w : Var) (ws : List Var) (i : ℕ) → Finds ws i → Finds (w ∷ ws) (suc i)
  Finds-next w ws i (inl f) = inl f
  Finds-next w ws i (inr e) = inr (ap suc e)

  Differs-next :
      (w : Var) (ws : List Var) (i : ℕ)
      → same_literal feq v w ≡ some false
      → Differs ws i
      → Differs (w ∷ ws) (suc i)
  Differs-next w ws i e d zero x lt at = cc
  Differs-next w ws i e d (suc j) x lt at = d j x (omega arith) at

  abbrev Found : List Var → Type 0
  Found ws = (i : ℕ) × (find_literal feq v ws ≡ some i) × Finds ws i × Differs ws i

  found_at :
      (w : Var) (ws : List Var) (b : Bool)
      → same_literal feq v w ≡ some b
      → Found ws
      → Found (w ∷ ws)
  unfolding find_literal
  found_at w ws true e r =
      (0, rw (e, find_literal) refl, inl (w, refl, e), λ j x lt at. absurd (omega arith))
  found_at w ws false e (i, h, f, d) =
      (suc i, rw (e, h, find_literal) refl, Finds-next w ws i f, Differs-next w ws i e d)

  found : (ws : List Var) → IsLiteral v → All IsLiteral ws → Found ws
  unfolding find_literal
  found [] hv hs = (0, refl, inr refl, λ j x lt at. absurd (omega arith))
  found (w ∷ ws) hv hs =
      let ih = found ws hv hs.1 in
      elim (Option-cases (same_literal feq v w)) [
        | inl e ↦ absurd (same_literal-ne-none feq v w hv hs.0 e)
        | inr (b, e) ↦ found_at w ws b e ih
      ]

  get_elem?-append_end :
      (ws : List Var) (i : ℕ) → i ≡ length ws → get_elem? (ws ++ v ∷ []) i ≡ some v
  get_elem?-append_end [] zero e = refl
  get_elem?-append_end [] (suc i) e = absurd (omega arith)
  get_elem?-append_end (w ∷ ws) zero e = absurd (omega arith)
  get_elem?-append_end (w ∷ ws) (suc i) e = get_elem?-append_end ws i (omega arith)

  get_elem?-append_before :
      (ws xs : List Var) (j : ℕ) → j < length ws → get_elem? (ws ++ xs) j ≡ get_elem? ws j
  get_elem?-append_before [] xs j h = absurd (omega arith)
  get_elem?-append_before (w ∷ ws) xs zero h = refl
  get_elem?-append_before (w ∷ ws) xs (suc j) h = get_elem?-append_before ws xs j (omega arith)

  -- What an index and a longer table of literals are to a value and the table before.
  abbrev pub Interned : List Var → ℕ → List Var → Type 0
  Interned ws i us =
      ((w : Var) × (get_elem? us i ≡ some w) × ((same_literal feq v w ≡ some true) ⊎ (w ≡ v)))
      × Differs us i
      × ((xs : List Var) × (us ≡ ws ++ xs))

  is_old : (ws : List Var) (i : ℕ) → (i ≢ length ws) → Finds ws i → Differs ws i → Interned ws i ws
  is_old ws i ne (inl (w, at, same)) d = ((w, at, inl same), d, ([], sym (append-nil ws)))
  is_old ws i ne (inr e) d = absurd (ne e)

  is_new : (ws : List Var) (i : ℕ) → i ≡ length ws → Differs ws i → Interned ws i (ws ++ v ∷ [])
  is_new ws i e d = (
    (v, get_elem?-append_end ws i e, inr refl),
    λ j x lt at. d j x lt (sym (get_elem?-append_before ws (v ∷ []) j (omega arith)) ∙ at),
    (v ∷ [], refl),
  )

  intern_at-Interned :
      (g : GState) (i : ℕ)
      → Finds g.literals i
      → Differs g.literals i
      → Interned g.literals i (intern_at feq v i g).literals
  intern_at-Interned g i f d = elim (Bool-cases (i == length g.literals)) [
    | inl new ↦ rw new (is_new g.literals i ((==_iff i (length g.literals)).0 new) d)
    | inr old ↦ rw old (is_old g.literals i (λ e. ground (arith, e)) f d)
  ]

-- For a literal of the parser and a table of such literals, interning ends without a panic. The index
-- that it gives names a literal in the new table that is the same value of the same type, upper and
-- lower case told apart, or the value itself; every literal before it is another one; and the new
-- table goes on from the old one, so that earlier indices name what they named.
pub intern_literal-Interned :
    (feq : ℕ → ℕ → Bool) (v : Var) (s : State)
    → IsLiteral v
    → All IsLiteral s.gstate.literals
    → (i : ℕ) × (t : State) × (intern_literal feq v s ≡ some (i, t))
      × Interned feq v s.gstate.literals i t.gstate.literals
unfolding intern_literal
intern_literal-Interned feq v s hv hs =
    let (i, h, f, d) = found feq v s.gstate.literals hv hs in
    (
      i,
      record s { gstate = intern_at feq v i s.gstate },
      rw (h, intern_literal) refl,
      intern_at-Interned feq v s.gstate i f d,
    )
