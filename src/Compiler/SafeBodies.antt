-- ===== src/Compiler/SafeBodies.antt =====
-- The vectors of `stmt_to_code` in server/code_gen.c: a body that leaves its stack as it was gives a
-- vector, also inside another body.
use waverous.Base.{
  ℕ, ◌+◌, ◌*◌, ◌-◌, ◌≡◌, refl, sym, ap, ◌∙◌, Option, none, some, List, [], length, if◌then◌else◌,
  ◌==◌, arith,
}
use mathlib.Core.Path.{subst}
use waverous.Compiler.Opcodes.{opcode, op_done}
use waverous.Compiler.State.{Bytecodes, GState, State, Gen, Code, ◌>>=◌, init_state}
use waverous.Compiler.Vector.{ref_size, bytecodes, ended, is_none, assemble}
use waverous.Compiler.Stmts.{code_of, in_state, fork_code}
use waverous.Compiler.Sound.{IsSound, Fits, GIsSound, Placed-byte}
use waverous.Compiler.Moves.{Holds, Returns, At, Shape, at, Moves, ◌then◌}
use waverous.Compiler.Sizes.{assemble-size}

init_state-At : (g : GState) → GIsSound g → At 0 none [] (init_state g)
unfolding init_state
init_state-At g h = record {
  depth_is = refl;
  saved_is = refl;
  ids_are = refl;
  sound = record {
    code = record {
      literals = refl;
      forks = refl;
      var_refs = refl;
      labels = refl;
      stacks = refl;
      placed = omega arith;
    };
    within = omega arith;
    tops = tt;
    globals = h;
  };
}

ended-IsSound : (s : State) → IsSound s → IsSound (ended s)
ended-IsSound s h = record {
  code = record {
    literals = h.code.literals;
    forks = h.code.forks;
    var_refs = h.code.var_refs;
    labels = h.code.labels;
    stacks = h.code.stacks;
    placed = Placed-byte s (opcode op_done) h;
  };
  within = h.within;
  tops = h.tops;
  globals = h.globals;
}

-- One byte for each stack reference is what the size counts.
fits :
    (s : State) (bc : Bytecodes) (n : ℕ)
    → length bc.vector ≡ bc.size + (ref_size s.max_stack - 1) * n
    → bc.max_stack ≡ s.max_stack
    → Fits bc
unfolding ref_size
fits s bc n e em le = ground arith

-- Neither panic of the end is reached.
bytecodes-assemble :
    (s : State) → s.cur_stack ≡ 0 → s.saved_stack ≡ none → bytecodes s ≡ assemble (ended s)
unfolding bytecodes
bytecodes-assemble s p q =
    ap (λ c. if c == 0 then (if is_none s.saved_stack then assemble (ended s) else none) else none)
      p
    ∙ ap (λ o. if is_none o then assemble (ended s) else none) q

bytecodes-Fits : (s : State) → At 0 none [] s → (bc : Bytecodes) × (bytecodes s ≡ some bc) × Fits bc
bytecodes-Fits s h =
    let (bc, e, size, depth) = assemble-size (ended s) (ended-IsSound s h.sound) in
    (bc, bytecodes-assemble s h.depth_is h.saved_is ∙ e, fits (ended s) bc _ size depth)

abbrev pub Compiles : Option (Bytecodes × GState) → Type 0
Compiles o = (bc : Bytecodes) × (g : GState) × (o ≡ some (bc, g)) × Fits bc × GIsSound g

finished :
    (o : Option (Unit {0} × State))
    → Returns (λ a t. At 0 none [] t) o
    → Compiles (elim o [
      | none ↦ none
      | some (a, s) ↦ elim (bytecodes s) [ none ↦ none | some bc ↦ some (bc, s.gstate) ]
    ])
finished none h = absurd h
finished (some (a, s)) h =
    let (bc, e, fit) = bytecodes-Fits s h in (bc, s.gstate, rw e refl, fit, h.sound.globals)

pub code_of-Compiles :
    (body : Code) (g : GState)
    → Moves (at 0 none []) body (at 0 none [])
    → GIsSound g
    → Compiles (code_of body g)
unfolding code_of
code_of-Compiles body g hb hg =
    finished (body (init_state g)) (hb.run (init_state g) (init_state-At g hg))

fork_code-Returns :
    {B : Type 0} {c : ℕ} {v : Option ℕ} {ls : List (Option ℕ)} {j : Shape} (s : State)
    (k : Bytecodes → Gen B) (o : Option (Bytecodes × GState))
    → Compiles o
    → At c v ls s
    → ((bc : Bytecodes) → Fits bc → Moves (at c v ls) (k bc) j)
    → Returns (λ a t. Holds j t) (elim (in_state s o) [ none ↦ none | some (bc, t) ↦ k bc t ])
fork_code-Returns {j} s k o (bc, g, e, fit, hg) h hk =
    subst
      (λ o'.
        Returns (λ a t. Holds j t) (elim (in_state s o') [ none ↦ none | some (bc, t) ↦ k bc t ]))
      (sym e)
      ((hk bc fit).run (record s { gstate = g })
        (record {
          depth_is = h.depth_is;
          saved_is = h.saved_is;
          ids_are = h.ids_are;
          sound = record {
            code = h.sound.code;
            within = h.sound.within;
            tops = h.sound.tops;
            globals = hg;
          };
        }))

-- A forked body is compiled on a stack of its own, and the rest goes on with its vector.
pub fork_then :
    {B : Type 0} {c : ℕ} {v : Option ℕ} {ls : List (Option ℕ)} {j : Shape} (body : Code)
    (k : Bytecodes → Gen B)
    → Moves (at 0 none []) body (at 0 none [])
    → ((bc : Bytecodes) → Fits bc → Moves (at c v ls) (k bc) j)
    → Moves (at c v ls) (fork_code body >>= k) j
unfolding fork_code ◌>>=◌
fork_then body k hb hk = record {
  run = λ s h.
      fork_code-Returns s k (code_of body s.gstate)
        (code_of-Compiles body s.gstate hb h.sound.globals) h hk;
}
