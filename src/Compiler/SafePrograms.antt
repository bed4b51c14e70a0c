-- ===== src/Compiler/SafePrograms.antt =====
-- `generate_stmt` of server/code_gen.c on valid statements: no panic, and the stack is left as it
-- was.
use waverous.Base.{
  ℕ, suc, ◌+◌, ◌*◌, ◌≡◌, Bool, false, Option, none, some, List, [], ◌∷◌, if◌then◌else◌, arith,
}
use waverous.Compiler.Ast.{
  Stmt, Arms, no_arms, arm, Excepts, no_excepts, except, MaybeExpr, absent, present,
}
use waverous.Compiler.Ast.Stmt.{
  done, cond, for_list, for_range, while, fork, expr, return, try_except, try_finally, break,
  continue,
}
use waverous.Compiler.Opcodes.{Opcode}
use waverous.Compiler.Targets.{tail}
use waverous.Compiler.Stmts.{
  count_excepts, end_of_arm, generate_return, except_labels, generate_arms, except_arms,
  generate_stmt,
}
use waverous.Compiler.Loops.{generate_continue, generate_break}
use waverous.Compiler.Moves.{at, Moves, ◌then◌, bind, pure-Moves, gets-Moves}
use waverous.Compiler.Steps.{
  emit_byte-Moves, emit_op-Moves, emit_extended_byte-Moves, add_linked_label-Moves, add_label-Moves,
  add_known_label-Moves, add_var_ref-Moves, add_stack_ref-Moves, add_fork-Moves, define_label-Moves,
}
use waverous.Compiler.Depths.{push_1, push_2, pop_1, pop_2, pop_stack-Moves}
use waverous.Compiler.SafeExprs.{one_expr, arg_list}
use waverous.Compiler.SafeTargets.{generate_codes-Moves}
use waverous.Compiler.SafeStmts.{
  capture_then, loop_body-Moves, while_op-Moves, ref_if-Moves, put_if-Moves, exit_op-Moves,
  target_then, set_target-Moves,
}
use waverous.Compiler.SafeBodies.{fork_then}
use waverous.Compiler.Valid.{MaybeIsValid, ExitIsValid, StmtIsValid, ArmsAreValid, ExceptsAreValid}

-- The depth above the handlers' codes and labels.
abbrev above_labels : Excepts → ℕ → ℕ
above_labels no_excepts c = c
above_labels (except slot codes body next) c = above_labels next (suc (suc c))

above_labels-count :
    (es : Excepts) (c : ℕ) → suc (above_labels es c) ≡ c + (2 * count_excepts es + 1)
unfolding count_excepts
above_labels-count no_excepts c = omega arith
above_labels-count (except slot codes body next) c =
    omega (arith, above_labels-count next (suc (suc c)))

module _ (feq : ℕ → ℕ → Bool) {ls : List (Option ℕ)} where
  except_labels-Moves :
      (es : Excepts) (c : ℕ)
      → ExceptsAreValid ls es
      → Moves (at c none ls) (except_labels feq es) (at (above_labels es c) none ls)
  unfolding except_labels
  except_labels-Moves no_excepts c h = pure-Moves []
  except_labels-Moves (except slot codes body next) c h =
      generate_codes-Moves codes (arg_list feq codes c none h.0)
      then emit_extended_byte-Moves _
      then bind add_label-Moves λ l.
        push_1
        then bind (except_labels-Moves next (suc (suc c)) h.2) λ labels. pure-Moves (l ∷ labels)

  return-Moves :
      (value : MaybeExpr) (c : ℕ)
      → MaybeIsValid false value
      → Moves (at c none ls) (generate_return feq value) (at c none ls)
  unfolding generate_return
  return-Moves absent c h = emit_op-Moves _
  return-Moves (present e) c h = one_expr feq e c none h then emit_op-Moves _ then pop_1

module _ {c : ℕ} {ls : List (Option ℕ)} where
  end_of_arm-Moves :
      (next : Excepts) (l : Option ℕ) → Moves (at c none ls) (end_of_arm next l) (at c none ls)
  unfolding end_of_arm
  end_of_arm-Moves no_excepts l = pure-Moves l
  end_of_arm-Moves (except slot codes body next) l = emit_op-Moves _ then add_linked_label-Moves l

  continue-Moves :
      (exit : Option ℕ)
      → ExitIsValid exit ls
      → Moves (at c none ls) (generate_continue exit) (at c none ls)
  unfolding generate_continue
  continue-Moves exit h =
      exit_op-Moves exit
      then target_then exit _ h λ l t. add_stack_ref-Moves _ then add_known_label-Moves _ t

  break-Moves :
      (exit : Option ℕ)
      → ExitIsValid exit ls
      → Moves (at c none ls) (generate_break exit) (at c none ls)
  unfolding generate_break
  break-Moves exit h =
      exit_op-Moves exit
      then target_then exit _ h λ l t.
        add_stack_ref-Moves _ then bind (add_linked_label-Moves _) λ b. set_target-Moves exit b

module _ (feq : ℕ → ℕ → Bool) where
  mutual
    unfolding generate_arms except_arms generate_stmt

    all_arms :
        (arms : Arms) (op : Opcode) (l : Option ℕ) (c : ℕ) (ls : List (Option ℕ))
        → ArmsAreValid ls arms
        → Moves (at c none ls) (generate_arms feq arms op l) (at c none ls)
    all_arms no_arms op l c ls h = pure-Moves l
    all_arms (arm e body next) op l c ls h =
        one_expr feq e c none h.0
        then emit_op-Moves _
        then bind add_label-Moves λ else_label.
          pop_1
          then one_stmt body c ls h.1
          then emit_op-Moves _
          then bind (add_linked_label-Moves l)
              λ l'. define_label-Moves else_label then all_arms next _ l' c ls h.2

    all_excepts :
        (es : Excepts) (labels : List (Option ℕ)) (l : Option ℕ) (c : ℕ) (ls : List (Option ℕ))
        → ExceptsAreValid ls es
        → Moves (at c none ls) (except_arms feq es labels l) (at c none ls)
    all_excepts no_excepts labels l c ls h = pure-Moves l
    all_excepts (except slot codes body next) labels l c ls h =
        define_label-Moves _
        then push_1
        then put_if-Moves slot
        then emit_op-Moves _
        then pop_1
        then one_stmt body c ls h.1
        then bind (end_of_arm-Moves next l) λ l'. all_excepts next (tail labels) l' c ls h.2

    pub one_stmt :
        (stmt : Stmt) (c : ℕ) (ls : List (Option ℕ))
        → StmtIsValid ls stmt
        → Moves (at c none ls) (generate_stmt feq stmt) (at c none ls)
    one_stmt done c ls h = pure-Moves tt
    one_stmt (cond arms otherwise next) c ls h =
        bind (all_arms arms _ none c ls h.0)
          λ l. one_stmt otherwise c ls h.1 then define_label-Moves l then one_stmt next c ls h.2
    one_stmt (for_list slot e body next) c ls h =
        one_expr feq e c none h.0
        then emit_byte-Moves _
        then push_1
        then capture_then _ λ top t.
          emit_op-Moves _
          then add_var_ref-Moves slot
          then bind add_label-Moves λ l. bind (gets-Moves _) λ d.
            loop_body-Moves (some slot) top _ _ l t
              (one_stmt body (suc (suc c)) (some slot ∷ ls) h.1)
            then pop_2
            then one_stmt next c ls h.2
    one_stmt (for_range slot e f body next) c ls h =
        one_expr feq e c none h.0
        then one_expr feq f (suc c) none h.1
        then capture_then _ λ top t.
          emit_op-Moves _
          then add_var_ref-Moves slot
          then bind add_label-Moves λ l. bind (gets-Moves _) λ d.
            loop_body-Moves (some slot) top _ _ l t
              (one_stmt body (suc (suc c)) (some slot ∷ ls) h.2)
            then pop_2
            then one_stmt next c ls h.3
    one_stmt (while slot e body next) c ls h = capture_then _ λ top t.
        one_expr feq e c none h.0
        then while_op-Moves slot
        then bind add_label-Moves λ l.
          pop_1
          then bind (gets-Moves _) λ d.
            loop_body-Moves slot top _ _ l t (one_stmt body c (slot ∷ ls) h.1)
            then one_stmt next c ls h.2
    one_stmt (fork slot e body next) c ls h =
        one_expr feq e c none h.0
        then emit_op-Moves _
        then fork_then _ _ (one_stmt body 0 [] h.1) λ bc fit.
          add_fork-Moves bc fit then ref_if-Moves slot then pop_1 then one_stmt next c ls h.2
    one_stmt (expr e next) c ls h =
        one_expr feq e c none h.0 then emit_op-Moves _ then pop_1 then one_stmt next c ls h.1
    one_stmt (return value next) c ls h = return-Moves feq value c h.0 then one_stmt next c ls h.1
    one_stmt (try_except body es next) c ls h =
        let d = above_labels es c in
        bind (except_labels-Moves feq es c h.1) λ labels.
          emit_extended_byte-Moves _
          then emit_byte-Moves _
          then push_1
          then one_stmt body (suc d) ls h.0
          then emit_extended_byte-Moves _
          then bind add_label-Moves λ l.
            pop_stack-Moves _ (suc d) (above_labels-count es c)
            then bind (all_excepts es labels l c ls h.1)
                λ l'. define_label-Moves l' then one_stmt next c ls h.2
    one_stmt (try_finally body handler next) c ls h =
        emit_extended_byte-Moves _
        then bind add_label-Moves λ l.
          push_1
          then one_stmt body (suc c) ls h.0
          then emit_extended_byte-Moves _
          then pop_1
          then define_label-Moves l
          then push_2
          then one_stmt handler (suc (suc c)) ls h.1
          then emit_extended_byte-Moves _
          then pop_2
          then one_stmt next c ls h.2
    one_stmt (break exit next) c ls h = break-Moves exit h.0 then one_stmt next c ls h.1
    one_stmt (continue exit next) c ls h = continue-Moves exit h.0 then one_stmt next c ls h.1
