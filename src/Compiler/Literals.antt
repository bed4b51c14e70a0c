-- ===== src/Compiler/Literals.antt =====
-- The literals of a program: `add_literal` of server/code_gen.c finds a literal that is there, and
-- adds any other behind them.
use waverous.Base.{
  ℕ, ◌+◌, ◌≢◌, refl, Option, none, some, List, [], ◌∷◌, length, All, All-append, Bool, Bool-cases,
  inl, inr, ◌==◌, arith,
}
use waverous.Values.{Var, int, obj, str, err, float}
use waverous.Equality.{equality}
use waverous.Numbers.{type_of}
use waverous.Compiler.State.{
  literal, GState, State, ◌>>=◌, ◌>>◌, pure, modify, gets, emit_byte, add_known_fixup,
  add_linked_fixup, add_fixup,
}
use waverous.Compiler.Refs.{same_literal, find_literal, intern_at, intern_literal, add_literal, max}
use waverous.Compiler.Sound.{IsLiteral, GIsSound}
use waverous.Compiler.Moves.{at, Moves, bind, Returns}
use waverous.Compiler.Steps.{added}

Returns-some :
    {A : Type 0} (P : A → State → Type 0) (o : Option ℕ) (f : ℕ → A × State)
    → o ≢ none
    → ((i : ℕ) → P (f i).0 (f i).1)
    → Returns P (elim o [ none ↦ none | some i ↦ some (f i) ])
Returns-some P none f ne h = absurd (ne refl)
Returns-some P (some i) f ne h = h i

module _ (feq : ℕ → ℕ → Bool) where
  pub same_literal-ne-none : (v w : Var) → IsLiteral v → IsLiteral w → same_literal feq v w ≢ none
  unfolding same_literal type_of equality
  same_literal-ne-none (int a) (int b) hv hw = cc
  same_literal-ne-none (obj a) (obj b) hv hw = cc
  same_literal-ne-none (str a) (str b) hv hw = cc
  same_literal-ne-none (err a) (err b) hv hw = cc
  same_literal-ne-none (float a) (float b) hv hw = cc
  same_literal-ne-none v w hv hw = ground arith

  find_literal-ne-none :
      (v : Var) (ws : List Var) → IsLiteral v → All IsLiteral ws → find_literal feq v ws ≢ none
  unfolding find_literal
  find_literal-ne-none v [] hv hs = cc
  find_literal-ne-none v (w ∷ ws) hv hs =
      ground (arith, same_literal-ne-none v w hv hs.0, find_literal-ne-none v ws hv hs.1)

  interned :
      (v : Var) (i : ℕ) (g : GState) → IsLiteral v → GIsSound g → GIsSound (intern_at feq v i g)
  interned v i g hv hg = elim (Bool-cases (i == length g.literals)) [
    | inl new ↦ rw new (hg.0, All-append IsLiteral g.literals (v ∷ []) hg.1 (hv, tt))
    | inr old ↦ rw old hg
  ]

module _ {c : ℕ} {v : Option ℕ} {ls : List (Option ℕ)} where
  ref_literal-Moves :
      (i : ℕ)
      → Moves
          (at c v ls)
          (do
            add_fixup literal i
            modify λ s. record s {
              num_literals = s.num_literals + 1;
              max_literal = max i s.max_literal;
            })
          (at c v ls)
  unfolding add_fixup add_linked_fixup add_known_fixup emit_byte modify gets pure ◌>>=◌
  ref_literal-Moves i = record {
    run = λ s h.
        added literal s _ _ refl refl refl refl refl (omega arith) (omega arith) (omega arith) refl
          refl refl refl refl h.sound.globals h;
  }

module _ (feq : ℕ → ℕ → Bool) {c : ℕ} {v : Option ℕ} {ls : List (Option ℕ)} where
  intern_literal-Moves :
      (x : Var) → IsLiteral x → Moves (at c v ls) (intern_literal feq x) (at c v ls)
  unfolding intern_literal
  intern_literal-Moves x hx = record {
    run = λ s h.
        Returns-some _ (find_literal feq x s.gstate.literals) _
          (find_literal-ne-none feq x s.gstate.literals hx h.sound.globals.1)
          (λ i. record {
            depth_is = h.depth_is;
            saved_is = h.saved_is;
            ids_are = h.ids_are;
            sound = record {
              code = h.sound.code;
              within = h.sound.within;
              tops = h.sound.tops;
              globals = interned feq x i s.gstate hx h.sound.globals;
            };
          });
  }

  pub add_literal-Moves :
      (x : Var) → IsLiteral x → Moves (at c v ls) (add_literal feq x) (at c v ls)
  unfolding add_literal
  add_literal-Moves x hx = bind (intern_literal-Moves x hx) ref_literal-Moves
