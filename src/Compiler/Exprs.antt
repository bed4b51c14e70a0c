-- ===== src/Compiler/Exprs.antt =====
-- The code of an expression: `generate_expr` of server/code_gen.c and the functions that it
-- recurs with.
use waverous.Base.{ℕ, Bool, true, false, Option, none, pos, List, if◌then◌else◌}
use waverous.Values.{Var, int}
use waverous.Compiler.Ast.{
  ArgKind, arg_normal, arg_splice, scat_optional, BinaryKind, eq, ne, ge, gt, le, lt, is_in, plus,
  minus, times, divide, mod_of, Expr, MaybeExpr, absent, present, Args, no_args, arg, Scatters,
  no_scatters, target,
}
use waverous.Compiler.Ast.Expr.{
  var, id, prop, verb, index, range, asgn, call, binary, exp, negate, neither, both, either, list,
  choose, catch, length_of, scatter,
}
use waverous.Compiler.Opcodes.{
  Opcode, op_push_get_prop, op_get_prop, op_call_verb, op_bi_func_call, op_if_ques, op_ref,
  op_range_ref, op_make_singleton_list, op_check_list_for_splice, op_mult, op_div, op_mod, op_add,
  op_minus, op_eq, op_ne, op_lt, op_le, op_gt, op_ge, op_in, op_and, op_or, op_unary_minus, op_not,
  op_put, op_push, op_imm, op_make_empty_list, op_list_add_tail, op_list_append, op_push_ref,
  op_jump, op_pop, eop_push_label, eop_end_catch, eop_catch, eop_scatter, eop_exp,
  in_optim_num_range, optim_num_to_opcode,
}
use waverous.Compiler.State.{Code, ◌>>=◌, ◌>>◌, pure, panic, emit_byte, emit_op, emit_extended_byte}
use waverous.Compiler.Refs.{
  add_literal, add_label, define_label, push_stack, pop_stack, save_stack_top, saved_stack_top,
  restore_stack_top, emit_var_op,
}
use waverous.Compiler.Targets.{
  nargs, nreq, rest_place, head?, tail, scatter_labels, generate_codes, generate_length, when,
  assign,
}

unfoldable pub binary_op : BinaryKind → Opcode
binary_op eq = op_eq
binary_op ne = op_ne
binary_op ge = op_ge
binary_op gt = op_gt
binary_op le = op_le
binary_op lt = op_lt
binary_op is_in = op_in
binary_op plus = op_add
binary_op minus = op_minus
binary_op times = op_mult
binary_op divide = op_div
binary_op mod_of = op_mod

-- The first item makes the list, a later one is put behind it.
unfoldable pub first_op : ArgKind → Opcode
first_op arg_normal = op_make_singleton_list
first_op arg_splice = op_check_list_for_splice

unfoldable pub later_op : ArgKind → Opcode
later_op arg_normal = op_list_add_tail
later_op arg_splice = op_list_append

module _ (feq : ℕ → ℕ → Bool) where
  unfoldable pub emit_imm : Var → Code
  emit_imm v = do emit_op op_imm; add_literal feq v

  unfoldable pub generate_var : Var → Code
  unfolding emit_imm
  generate_var (int n) =
      if in_optim_num_range n then emit_byte (optim_num_to_opcode n) else emit_imm (int n)
  generate_var v = emit_imm v

  unfoldable mutual
    -- The items behind the first one.
    pub generate_more_args : Args → Code
    generate_more_args no_args = pure tt
    generate_more_args (arg kind e next) = do
      generate_expr e
      emit_op (later_op kind)
      pop_stack 1
      generate_more_args next

    pub generate_arg_list : Args → Code
    generate_arg_list no_args = do emit_op op_make_empty_list; push_stack 1
    generate_arg_list (arg kind e next) = do
      generate_expr e
      emit_op (first_op kind)
      pop_stack 0
      generate_more_args next

    pub push_lvalue : Expr → (indexed_above : Bool) → Code
    push_lvalue (range base from to) above = do
      push_lvalue base true
      old ← save_stack_top
      generate_expr from
      generate_expr to
      restore_stack_top old
    push_lvalue (index lhs rhs) above = do
      push_lvalue lhs true
      old ← save_stack_top
      generate_expr rhs
      restore_stack_top old
      when above (do emit_op op_push_ref; push_stack 1)
    push_lvalue (id n) above = when above (do emit_var_op op_push n; push_stack 1)
    push_lvalue (prop lhs rhs) above = do
      generate_expr lhs
      generate_expr rhs
      when above (do emit_op op_push_get_prop; push_stack 1)
    push_lvalue _ above = panic

    -- The defaults of the optional targets.
    pub scatter_defaults : Scatters → List (Option ℕ) → Code
    scatter_defaults no_scatters ls = pure tt
    scatter_defaults (target scat_optional slot (present e) next) ls = do
      define_label (head? ls)
      generate_expr e
      emit_var_op op_put slot
      emit_op op_pop
      pop_stack 1
      scatter_defaults next (tail ls)
    scatter_defaults (target kind slot default next) ls = scatter_defaults next (tail ls)

    pub generate_asgn : Expr → (place rhs : Code) → Code
    generate_asgn (scatter targets) place rhs = do
      rhs
      emit_extended_byte eop_scatter
      emit_byte (nargs targets)
      emit_byte (nreq targets)
      emit_byte (rest_place targets 0 none)
      ls ← scatter_labels targets
      done ← add_label
      scatter_defaults targets ls
      define_label done
    generate_asgn e place rhs = assign e place rhs

    pub generate_handler : MaybeExpr → Code
    generate_handler (present e) = do emit_op op_pop; pop_stack 1; generate_expr e
    generate_handler absent = do emit_byte (optim_num_to_opcode (pos 1)); emit_op op_ref

    pub generate_expr : Expr → Code
    generate_expr (var v) = do generate_var v; push_stack 1
    generate_expr (id n) = do emit_var_op op_push n; push_stack 1
    generate_expr (both lhs rhs) = do
      generate_expr lhs
      emit_op op_and
      end_label ← add_label
      pop_stack 1
      generate_expr rhs
      define_label end_label
    generate_expr (either lhs rhs) = do
      generate_expr lhs
      emit_op op_or
      end_label ← add_label
      pop_stack 1
      generate_expr rhs
      define_label end_label
    generate_expr (negate e) = do generate_expr e; emit_op op_unary_minus
    generate_expr (neither e) = do generate_expr e; emit_op op_not
    generate_expr (binary kind lhs rhs) = do
      generate_expr lhs
      generate_expr rhs
      emit_op (binary_op kind)
      pop_stack 1
    generate_expr (prop lhs rhs) = do
      generate_expr lhs
      generate_expr rhs
      emit_op op_get_prop
      pop_stack 1
    generate_expr (exp lhs rhs) = do
      generate_expr lhs
      generate_expr rhs
      emit_extended_byte eop_exp
      pop_stack 1
    generate_expr (index lhs rhs) = do
      generate_expr lhs
      old ← save_stack_top
      generate_expr rhs
      restore_stack_top old
      emit_op op_ref
      pop_stack 1
    generate_expr (range base from to) = do
      generate_expr base
      old ← save_stack_top
      generate_expr from
      generate_expr to
      restore_stack_top old
      emit_op op_range_ref
      pop_stack 2
    generate_expr length_of = do saved ← saved_stack_top; generate_length saved
    generate_expr (list args) = generate_arg_list args
    generate_expr (call func args) = do
      generate_arg_list args
      emit_op op_bi_func_call
      emit_byte func
    generate_expr (verb obj name args) = do
      generate_expr obj
      generate_expr name
      generate_arg_list args
      emit_op op_call_verb
      pop_stack 2
    generate_expr (choose condition consequent alternate) = do
      generate_expr condition
      emit_op op_if_ques
      else_label ← add_label
      pop_stack 1
      generate_expr consequent
      emit_op op_jump
      end_label ← add_label
      pop_stack 1
      define_label else_label
      generate_expr alternate
      define_label end_label
    generate_expr (asgn lhs rhs) = generate_asgn lhs (push_lvalue lhs false) (generate_expr rhs)
    generate_expr (catch e codes handler) = do
      generate_codes codes (generate_arg_list codes)
      emit_extended_byte eop_push_label
      handler_label ← add_label
      push_stack 1
      emit_extended_byte eop_catch
      push_stack 1
      generate_expr e
      emit_extended_byte eop_end_catch
      end_label ← add_label
      pop_stack 3
      define_label handler_label
      generate_handler handler
      define_label end_label
    generate_expr (scatter targets) = panic
