-- ===== src/Compiler/Safety.antt =====
-- The code generator of server/code_gen.c never panics on a tree that the parser lets through, and
-- balances the stack that it plans.
use waverous.Base.{
  ◌⊎◌, inl, inr, sym, ℕ, suc, ◌+◌, ◌-◌, ◌*◌, ◌<◌, ◌≡◌, refl, ◌∙◌, Bool, Option, none, some, [], map,
  All, length, arith,
}
use mathlib.Core.Path.{subst}
use waverous.Compiler.Ast.{Expr, Stmt}
use waverous.Compiler.State.{State, Bytecodes, stack, init_gstate}
use waverous.Compiler.Exprs.{generate_expr}
use waverous.Compiler.Vector.{ref_size, assemble}
use waverous.Compiler.Stmts.{generate_stmt, stmt_to_code}
use waverous.Compiler.Programs.{Program, generate_code}
use waverous.Compiler.Sound.{IsSound, Fits, count}
use waverous.Compiler.Moves.{Returns, loop_id, At}
use waverous.Compiler.SafeExprs.{one_expr}
use waverous.Compiler.SafeBodies.{Compiles, code_of-Compiles}
use waverous.Compiler.SafePrograms.{one_stmt}
use waverous.Compiler.Sizes.{assemble-size}
use waverous.Compiler.Valid.{ExprIsValid, StmtIsValid, is_some}

-- What a run leaves: so many values more on the stack, and the saved place and the loops as before.
pub record Leaves (pushed : ℕ) (s t : State) : Type 0 where
  pub depth : t.cur_stack ≡ s.cur_stack + pushed
  pub saved : t.saved_stack ≡ s.saved_stack
  pub loops : map loop_id t.loops ≡ map loop_id s.loops
  pub sound : IsSound t

abbrev Done : ℕ → State → Option (Unit {0} × State) → Type 0
Done pushed s o = (t : State) × (o ≡ some (tt, t)) × Leaves pushed s t

Returns-Done :
    (n c : ℕ) (s : State) (o : Option (Unit {0} × State))
    → Returns (λ a t. At c s.saved_stack (map loop_id s.loops) t) o
    → c ≡ s.cur_stack + n
    → Done n s o
Returns-Done n c s none h e = absurd h
Returns-Done n c s (some (u, t)) h e = (
  t,
  refl,
  record { depth = h.depth_is ∙ e; saved = h.saved_is; loops = h.ids_are; sound = h.sound },
)

-- From a sound state the code of a valid expression is generated without a panic. It pushes exactly
-- one value, leaves the saved place of `$` and the names of the open loops as they were, and
-- leaves the state sound, so that the depth of the stack has not passed its recorded maximum.
pub generate_expr-Leaves :
    (feq : ℕ → ℕ → Bool) (e : Expr) (s : State)
    → ExprIsValid (is_some s.saved_stack) e
    → IsSound s
    → (t : State) × (generate_expr feq e s ≡ some (tt, t)) × Leaves 1 s t
generate_expr-Leaves feq e s valid sound =
    Returns-Done 1 (suc s.cur_stack) s (generate_expr feq e s)
      ((one_expr feq e s.cur_stack s.saved_stack valid).run s
        (record { depth_is = refl; saved_is = refl; ids_are = refl; sound = sound }))
      (omega arith)

-- From a sound state with no saved place the code of a valid statement, with those that follow it,
-- is generated without a panic. It leaves the stack, the saved place and the names of the open loops
-- as they were, and the state sound.
pub generate_stmt-Leaves :
    (feq : ℕ → ℕ → Bool) (stmt : Stmt) (s : State)
    → s.saved_stack ≡ none
    → StmtIsValid (map loop_id s.loops) stmt
    → IsSound s
    → (t : State) × (generate_stmt feq stmt s ≡ some (tt, t)) × Leaves 0 s t
generate_stmt-Leaves feq stmt s top valid sound =
    Returns-Done 0 s.cur_stack s (generate_stmt feq stmt s)
      (subst
        (λ v. Returns (λ a t. At s.cur_stack v (map loop_id s.loops) t) (generate_stmt feq stmt s))
        (sym top)
        ((one_stmt feq stmt s.cur_stack (map loop_id s.loops) valid).run s
          (record { depth_is = refl; saved_is = top; ids_are = refl; sound = sound })))
      (omega arith)

program :
    (feq : ℕ → ℕ → Bool) (stmt : Stmt) (version : ℕ)
    → Compiles (stmt_to_code feq stmt init_gstate)
    → (p : Program) × (generate_code feq stmt version ≡ some p)
      × Fits p.main_vector
      × All Fits p.fork_vectors
unfolding generate_code
program feq stmt version (bc, g, e, fit, hg) = (
  record {
    version = version;
    main_vector = bc;
    literals = g.literals;
    fork_vectors = g.fork_vectors;
  },
  rw (e, generate_code) refl,
  fit,
  hg.0,
)

-- Every valid statement compiles to a program: no panic of the code generator is reached, also not
-- the one for a stack that is not empty or for a saved stack index at the end. The main vector and
-- each vector of a fork, if its stack holds at most 256 values, has exactly the length that was
-- allocated for it.
pub generate_code-Fits :
    (feq : ℕ → ℕ → Bool) (stmt : Stmt) (version : ℕ)
    → StmtIsValid [] stmt
    → (p : Program) × (generate_code feq stmt version ≡ some p)
      × Fits p.main_vector
      × All Fits p.fork_vectors
unfolding stmt_to_code init_gstate
generate_code-Fits feq stmt version valid =
    program feq stmt version (
      code_of-Compiles (generate_stmt feq stmt) init_gstate (one_stmt feq stmt 0 [] valid) (tt, tt))

wide : (max : ℕ) → 256 < max → (ref_size max ≡ 2) ⊎ (ref_size max ≡ 4)
unfolding ref_size
wide max h = ground arith

longer : (w n size len : ℕ) → (w ≡ 2) ⊎ (w ≡ 4) → 0 < n → len ≡ size + (w - 1) * n → size < len
longer w n size len (inl e) used h = grind arith
longer w n size len (inr e) used h = grind arith

-- The last step with a stack of more than 256 values and a reference to a place on it: the vector
-- that is filled is longer than the size that was allocated for it, since that size does not count
-- the second byte of a stack reference.
pub assemble-overflow :
    (s : State)
    → IsSound s
    → 256 < s.max_stack
    → 0 < count stack s.fixups
    → (bc : Bytecodes) × (assemble s ≡ some bc) × (bc.size < length bc.vector)
assemble-overflow s sound deep used =
    let (bc, e, size, depth) = assemble-size s sound in
    (bc, e, longer (ref_size s.max_stack) _ bc.size _ (wide s.max_stack deep) used size)
