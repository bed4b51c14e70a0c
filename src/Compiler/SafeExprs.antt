-- ===== src/Compiler/SafeExprs.antt =====
-- Expressions in server/code_gen.c: the code of a valid one is made without a panic, and pushes one
-- value.
use waverous.Base.{ℕ, suc, refl, Bool, true, false, Option, some, List, Bool-cases, inl, inr}
use waverous.Values.{Var, int}
use waverous.Compiler.Ast.{
  scat_required, scat_optional, scat_rest, Expr, MaybeExpr, absent, present, Args, no_args, arg,
  Scatters, no_scatters, target,
}
use waverous.Compiler.Ast.Expr.{
  var, id, prop, verb, index, range, asgn, call, binary, exp, negate, neither, both, either, list,
  choose, catch, length_of, scatter,
}
use waverous.Compiler.Opcodes.{in_optim_num_range}
use waverous.Compiler.State.{Code}
use waverous.Compiler.Exprs.{
  emit_imm, generate_var, generate_more_args, generate_arg_list, push_lvalue, scatter_defaults,
  generate_asgn, generate_handler, generate_expr,
}
use waverous.Compiler.Targets.{tail}
use waverous.Compiler.Moves.{at, Moves, ◌then◌, bind, pure-Moves}
use waverous.Compiler.Steps.{
  emit_byte-Moves, emit_op-Moves, emit_extended_byte-Moves, emit_var_op-Moves, add_label-Moves,
  define_label-Moves,
}
use waverous.Compiler.Depths.{
  push_1, pop_0, pop_1, pop_2, pop_3, save_then, saved_then, restore_stack_top-Moves,
}
use waverous.Compiler.Literals.{add_literal-Moves}
use waverous.Compiler.Sound.{IsLiteral}
use waverous.Compiler.Valid.{
  ExprIsValid, MaybeIsValid, ArgsAreValid, ScattersAreValid, InnerIsValid, PlaceIsValid, is_some,
}
use waverous.Compiler.SafeTargets.{
  pushed, pushed-above, length_case, scatter_labels-Moves, above-Moves, generate_codes-Moves,
  value_on_top, assign-Moves,
}

module _ (feq : ℕ → ℕ → Bool) {ls : List (Option ℕ)} where
  emit_imm-Moves :
      (x : Var) (c : ℕ) (v : Option ℕ)
      → IsLiteral x
      → Moves (at c v ls) (emit_imm feq x) (at c v ls)
  unfolding emit_imm
  emit_imm-Moves x c v h = emit_op-Moves _ then add_literal-Moves feq x h

  generate_var-Moves :
      (x : Var) (c : ℕ) (v : Option ℕ)
      → IsLiteral x
      → Moves (at c v ls) (generate_var feq x) (at c v ls)
  unfolding generate_var
  generate_var-Moves (int n) c v h = elim (Bool-cases (in_optim_num_range n)) [
    | inl short ↦ rw short (emit_byte-Moves _)
    | inr long ↦ rw long (emit_imm-Moves (int n) c v h)
  ]
  generate_var-Moves x c v h = emit_imm-Moves x c v h

  mutual
    unfolding generate_more_args generate_arg_list push_lvalue scatter_defaults generate_asgn
        generate_handler generate_expr

    more_args :
        (args : Args) (c : ℕ) (v : Option ℕ)
        → ArgsAreValid (is_some v) args
        → Moves (at (suc c) v ls) (generate_more_args feq args) (at (suc c) v ls)
    more_args no_args c v h = pure-Moves tt
    more_args (arg kind e next) c v h =
        one_expr e (suc c) v h.0 then emit_op-Moves _ then pop_1 then more_args next c v h.1

    pub arg_list :
        (args : Args) (c : ℕ) (v : Option ℕ)
        → ArgsAreValid (is_some v) args
        → Moves (at c v ls) (generate_arg_list feq args) (at (suc c) v ls)
    arg_list no_args c v h = emit_op-Moves _ then push_1
    arg_list (arg kind e next) c v h =
        one_expr e c v h.0 then emit_op-Moves _ then pop_0 then more_args next c v h.1

    inner :
        (e : Expr) (above : Bool) (c : ℕ) (v : Option ℕ)
        → InnerIsValid (is_some v) e
        → Moves (at c v ls) (push_lvalue feq e above) (at (pushed e above c) v ls)
    inner (id slot) above c v h = above-Moves above (emit_var_op-Moves _ slot then push_1)
    inner (prop e f) above c v h =
        one_expr e c v h.0
        then one_expr f (suc c) v h.1
        then above-Moves above (emit_op-Moves _ then push_1)
    inner (index e f) above c v h =
        let below = pushed e false c in
        rw (pushed-above (is_some v) e c h.0) (
          value_on_top (is_some v) e h.0 (inner e true c v h.0)
          then save_then _ (
              one_expr f (suc below) (some below) h.1
              then restore_stack_top-Moves _
              then above-Moves above (emit_op-Moves _ then push_1)))
    inner e above c v h = absurd h

    defaults :
        (ts : Scatters) (labels : List (Option ℕ)) (c : ℕ) (v : Option ℕ)
        → ScattersAreValid (is_some v) ts
        → Moves (at c v ls) (scatter_defaults feq ts labels) (at c v ls)
    defaults no_scatters labels c v h = pure-Moves tt
    defaults (target scat_optional slot (present e) next) labels c v h =
        define_label-Moves _
        then one_expr e c v h.0
        then emit_var_op-Moves _ slot
        then emit_op-Moves _
        then pop_1
        then defaults next (tail labels) c v h.1
    defaults (target scat_optional slot absent next) labels c v h =
        defaults next (tail labels) c v h.1
    defaults (target scat_required slot default next) labels c v h =
        defaults next (tail labels) c v h.1
    defaults (target scat_rest slot default next) labels c v h = defaults next (tail labels) c v h.1

    asgn_to :
        (e : Expr) (rhs : Code) (c : ℕ) (v : Option ℕ)
        → PlaceIsValid (is_some v) e
        → ((d : ℕ) → Moves (at d v ls) rhs (at (suc d) v ls))
        → Moves (at c v ls) (generate_asgn feq e (push_lvalue feq e false) rhs) (at (suc c) v ls)
    asgn_to (scatter ts) rhs c v h hr =
        hr c
        then emit_extended_byte-Moves _
        then emit_byte-Moves _
        then emit_byte-Moves _
        then emit_byte-Moves _
        then bind (scatter_labels-Moves ts) λ labels.
          bind add_label-Moves λ done. defaults ts labels (suc c) v h then define_label-Moves done
    asgn_to (range e f g) rhs c v h hr =
        let below = pushed e false c in
        assign-Moves (is_some v) (range e f g) h refl
          (rw (pushed-above (is_some v) e c h.0) (
            value_on_top (is_some v) e h.0 (inner e true c v h.0)
            then save_then _ (
                one_expr f (suc below) (some below) h.1
                then one_expr g (suc (suc below)) (some below) h.2
                then restore_stack_top-Moves _)))
          (hr _)
    asgn_to (id slot) rhs c v h hr =
        assign-Moves (is_some v) (id slot) h refl (pure-Moves tt) (hr _)
    asgn_to (prop e f) rhs c v h hr =
        assign-Moves (is_some v) (prop e f) h refl
          (one_expr e c v h.0 then one_expr f (suc c) v h.1 then pure-Moves tt) (hr _)
    asgn_to (index e f) rhs c v h hr =
        let below = pushed e false c in
        assign-Moves (is_some v) (index e f) h refl
          (rw (pushed-above (is_some v) e c h.0) (
            value_on_top (is_some v) e h.0 (inner e true c v h.0)
            then save_then _ (
                one_expr f (suc below) (some below) h.1
                then restore_stack_top-Moves _
                then pure-Moves tt)))
          (hr _)
    asgn_to e rhs c v h hr = absurd h

    handler_code :
        (e : MaybeExpr) (c : ℕ) (v : Option ℕ)
        → MaybeIsValid (is_some v) e
        → Moves (at (suc c) v ls) (generate_handler feq e) (at (suc c) v ls)
    handler_code absent c v h = emit_byte-Moves _ then emit_op-Moves _
    handler_code (present e) c v h = emit_op-Moves _ then pop_1 then one_expr e c v h

    pub one_expr :
        (e : Expr) (c : ℕ) (v : Option ℕ)
        → ExprIsValid (is_some v) e
        → Moves (at c v ls) (generate_expr feq e) (at (suc c) v ls)
    one_expr (var x) c v h = generate_var-Moves x c v h then push_1
    one_expr (id slot) c v h = emit_var_op-Moves _ slot then push_1
    one_expr (both e f) c v h =
        one_expr e c v h.0
        then emit_op-Moves _
        then bind add_label-Moves λ l. pop_1 then one_expr f c v h.1 then define_label-Moves l
    one_expr (either e f) c v h =
        one_expr e c v h.0
        then emit_op-Moves _
        then bind add_label-Moves λ l. pop_1 then one_expr f c v h.1 then define_label-Moves l
    one_expr (negate e) c v h = one_expr e c v h then emit_op-Moves _
    one_expr (neither e) c v h = one_expr e c v h then emit_op-Moves _
    one_expr (binary kind e f) c v h =
        one_expr e c v h.0 then one_expr f (suc c) v h.1 then emit_op-Moves _ then pop_1
    one_expr (prop e f) c v h =
        one_expr e c v h.0 then one_expr f (suc c) v h.1 then emit_op-Moves _ then pop_1
    one_expr (exp e f) c v h =
        one_expr e c v h.0 then one_expr f (suc c) v h.1 then emit_extended_byte-Moves _ then pop_1
    one_expr (index e f) c v h =
        one_expr e c v h.0
        then save_then _ (
            one_expr f (suc c) (some c) h.1
            then restore_stack_top-Moves _
            then emit_op-Moves _
            then pop_1)
    one_expr (range e f g) c v h =
        one_expr e c v h.0
        then save_then _ (
            one_expr f (suc c) (some c) h.1
            then one_expr g (suc (suc c)) (some c) h.2
            then restore_stack_top-Moves _
            then emit_op-Moves _
            then pop_2)
    one_expr length_of c v h = saved_then _ (length_case v h)
    one_expr (list args) c v h = arg_list args c v h
    one_expr (call func args) c v h =
        arg_list args c v h then emit_op-Moves _ then emit_byte-Moves _
    one_expr (verb e f args) c v h =
        one_expr e c v h.0
        then one_expr f (suc c) v h.1
        then arg_list args (suc (suc c)) v h.2
        then emit_op-Moves _
        then pop_2
    one_expr (choose e f g) c v h =
        one_expr e c v h.0
        then emit_op-Moves _
        then bind add_label-Moves λ l.
          pop_1
          then one_expr f c v h.1
          then emit_op-Moves _
          then bind add_label-Moves
              λ m. pop_1 then define_label-Moves l then one_expr g c v h.2 then define_label-Moves m
    one_expr (asgn e f) c v h = asgn_to e (generate_expr feq f) c v h.0 (λ d. one_expr f d v h.1)
    one_expr (catch e codes handler) c v h =
        generate_codes-Moves codes (arg_list codes c v h.1)
        then emit_extended_byte-Moves _
        then bind add_label-Moves λ l.
          push_1
          then emit_extended_byte-Moves _
          then push_1
          then one_expr e (suc (suc (suc c))) v h.0
          then emit_extended_byte-Moves _
          then bind add_label-Moves λ m.
            pop_3
            then define_label-Moves l
            then handler_code handler c v h.2
            then define_label-Moves m
    one_expr (scatter ts) c v h = absurd h
