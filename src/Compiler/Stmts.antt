-- ===== src/Compiler/Stmts.antt =====
-- The code of a statement and its vector: `generate_stmt` and `stmt_to_code` of
-- server/code_gen.c, which call one another at a fork.
use waverous.Base.{ℕ, suc, ◌+◌, ◌*◌, Bool, Option, none, some, pos, List, [], ◌∷◌}
use waverous.Compiler.Ast.{
  MaybeExpr, absent, present, Stmt, Arms, no_arms, arm, Excepts, no_excepts, except,
}
use waverous.Compiler.Ast.Stmt.{
  done, cond, for_list, for_range, while, fork, expr, return, try_except, try_finally, break,
  continue,
}
use waverous.Compiler.Opcodes.{
  Opcode, op_if, op_eif, op_jump, op_for_list, op_for_range, op_pop, op_return, op_return0,
  eop_push_label, eop_try_except, eop_end_except, eop_try_finally, eop_end_finally, eop_continue,
  optim_num_to_opcode,
}
use waverous.Compiler.State.{
  Bytecodes, GState, State, Gen, Code, ◌>>=◌, ◌>>◌, pure, gets, emit_byte, emit_op,
  emit_extended_byte, init_state,
}
use waverous.Compiler.Refs.{
  add_fork, add_var_ref, add_linked_label, add_label, capture_label, define_label, down, push_stack,
  pop_stack,
}
use waverous.Compiler.Exprs.{generate_expr, generate_arg_list}
use waverous.Compiler.Targets.{generate_codes, head?, tail}
use waverous.Compiler.Vector.{bytecodes}
use waverous.Compiler.Loops.{
  loop_body, while_op, ref_if, put_if, fork_op, generate_continue, generate_break,
}

unfoldable pub count_excepts : Excepts → ℕ
count_excepts no_excepts = 0
count_excepts (except slot codes body next) = suc (count_excepts next)

-- Behind the last arm there is nothing to jump over.
unfoldable pub end_of_arm : Excepts → Option ℕ → Gen (Option ℕ)
end_of_arm no_excepts end_label = pure end_label
end_of_arm (except slot codes body next) end_label = do emit_op op_jump; add_linked_label end_label

-- The vector of a body that is compiled in a state of its own.
unfoldable pub code_of : Code → GState → Option (Bytecodes × GState)
code_of body g = elim (body (init_state g)) [
  | none ↦ none
  | some (a, s) ↦ elim (bytecodes s) [ none ↦ none | some bc ↦ some (bc, s.gstate) ]
]

-- The counts that all bodies share go on from the body.
abbrev pub in_state : State → Option (Bytecodes × GState) → Option (Bytecodes × State)
in_state s none = none
in_state s (some (bc, g)) = some (bc, record s { gstate = g })

unfoldable pub fork_code : Code → Gen Bytecodes
fork_code body s = in_state s (code_of body s.gstate)

module _ (feq : ℕ → ℕ → Bool) where
  unfoldable pub generate_return : MaybeExpr → Code
  generate_return absent = emit_op op_return0
  generate_return (present e) = do generate_expr feq e; emit_op op_return; pop_stack 1

  -- The handlers' codes and labels, in order.
  unfoldable pub except_labels : Excepts → Gen (List (Option ℕ))
  except_labels no_excepts = pure []
  except_labels (except slot codes body next) = do
    generate_codes codes (generate_arg_list feq codes)
    emit_extended_byte eop_push_label
    l ← add_label
    push_stack 1
    ls ← except_labels next
    pure (l ∷ ls)

  unfoldable mutual
    -- The result is the chain of jumps to the end.
    pub generate_arms : Arms → Opcode → Option ℕ → Gen (Option ℕ)
    generate_arms no_arms if_op end_label = pure end_label
    generate_arms (arm condition body next) if_op end_label = do
      generate_expr feq condition
      emit_op if_op
      else_label ← add_label
      pop_stack 1
      generate_stmt body
      emit_op op_jump
      end_label' ← add_linked_label end_label
      define_label else_label
      generate_arms next op_eif end_label'

    pub except_arms : Excepts → List (Option ℕ) → Option ℕ → Gen (Option ℕ)
    except_arms no_excepts ls end_label = pure end_label
    except_arms (except slot codes body next) ls end_label = do
      define_label (head? ls)
      push_stack 1
      put_if slot
      emit_op op_pop
      pop_stack 1
      generate_stmt body
      end_label' ← end_of_arm next end_label
      except_arms next (tail ls) end_label'

    pub generate_stmt : Stmt → Code
    generate_stmt done = pure tt
    generate_stmt (cond arms otherwise next) = do
      end_label ← generate_arms arms op_if none
      generate_stmt otherwise
      define_label end_label
      generate_stmt next
    generate_stmt (for_list slot e body next) = do
      generate_expr feq e
      emit_byte (optim_num_to_opcode (pos 1))
      push_stack 1
      loop_top ← capture_label
      emit_op op_for_list
      add_var_ref slot
      end_label ← add_label
      depth ← gets (λ s. s.cur_stack)
      loop_body (some slot) loop_top depth (down depth 2) end_label (generate_stmt body)
      pop_stack 2
      generate_stmt next
    generate_stmt (for_range slot from to body next) = do
      generate_expr feq from
      generate_expr feq to
      loop_top ← capture_label
      emit_op op_for_range
      add_var_ref slot
      end_label ← add_label
      depth ← gets (λ s. s.cur_stack)
      loop_body (some slot) loop_top depth (down depth 2) end_label (generate_stmt body)
      pop_stack 2
      generate_stmt next
    generate_stmt (while slot condition body next) = do
      loop_top ← capture_label
      generate_expr feq condition
      while_op slot
      end_label ← add_label
      pop_stack 1
      depth ← gets (λ s. s.cur_stack)
      loop_body slot loop_top depth depth end_label (generate_stmt body)
      generate_stmt next
    generate_stmt (fork slot time body next) = do
      generate_expr feq time
      emit_op (fork_op slot)
      bc ← fork_code (generate_stmt body)
      add_fork bc
      ref_if slot
      pop_stack 1
      generate_stmt next
    generate_stmt (expr e next) = do
      generate_expr feq e
      emit_op op_pop
      pop_stack 1
      generate_stmt next
    generate_stmt (return value next) = do generate_return value; generate_stmt next
    generate_stmt (try_except body excepts next) = do
      ls ← except_labels excepts
      emit_extended_byte eop_try_except
      emit_byte (count_excepts excepts)
      push_stack 1
      generate_stmt body
      emit_extended_byte eop_end_except
      end_label ← add_label
      pop_stack (2 * count_excepts excepts + 1)
      end_label' ← except_arms excepts ls end_label
      define_label end_label'
      generate_stmt next
    generate_stmt (try_finally body handler next) = do
      emit_extended_byte eop_try_finally
      handler_label ← add_label
      push_stack 1
      generate_stmt body
      emit_extended_byte eop_end_finally
      pop_stack 1
      define_label handler_label
      push_stack 2
      generate_stmt handler
      emit_extended_byte eop_continue
      pop_stack 2
      generate_stmt next
    generate_stmt (break exit next) = do generate_break exit; generate_stmt next
    generate_stmt (continue exit next) = do generate_continue exit; generate_stmt next

  unfoldable pub stmt_to_code : Stmt → GState → Option (Bytecodes × GState)
  stmt_to_code stmt g = code_of (generate_stmt stmt) g
