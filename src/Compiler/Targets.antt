-- ===== src/Compiler/Targets.antt =====
-- What server/code_gen.c assigns to: lists of targets and the places of `push_lvalue`.
use waverous.Base.{ℕ, suc, ◌+◌, Bool, true, false, Option, none, some, pos, List, [], ◌∷◌}
use waverous.Compiler.Ast.{
  ScatterKind, scat_required, scat_optional, scat_rest, Expr, MaybeExpr, absent, present, Args,
  no_args, arg, Scatters, no_scatters, target,
}
use waverous.Compiler.Ast.Expr.{id, prop, index, range}
use waverous.Compiler.Opcodes.{
  op_indexset, op_put_prop, op_put, op_put_temp, op_push_temp, op_pop, eop_rangeset, eop_length,
  optim_num_to_opcode,
}
use waverous.Compiler.State.{
  Gen, Code, ◌>>=◌, ◌>>◌, pure, panic, emit_byte, emit_op, emit_extended_byte,
}
use waverous.Compiler.Refs.{
  add_var_ref, add_label, add_pseudo_label, add_stack_ref, push_stack, pop_stack, emit_var_op,
}

-- How many targets there are, how many are required, and the place of the last rest, from 1.
unfoldable pub nargs : Scatters → ℕ
nargs no_scatters = 0
nargs (target kind slot default next) = suc (nargs next)

abbrev pub required : ScatterKind → ℕ
required scat_required = 1
required scat_optional = 0
required scat_rest = 0

unfoldable pub nreq : Scatters → ℕ
nreq no_scatters = 0
nreq (target kind slot default next) = required kind + nreq next

-- Without a rest its place is behind the last target.
unfoldable pub rest_place : Scatters → (seen : ℕ) → (rest : Option ℕ) → ℕ
rest_place no_scatters seen none = seen + 1
rest_place no_scatters seen (some r) = r
rest_place (target scat_rest slot default next) seen rest =
    rest_place next (suc seen) (some (suc seen))
rest_place (target scat_required slot default next) seen rest = rest_place next (suc seen) rest
rest_place (target scat_optional slot default next) seen rest = rest_place next (suc seen) rest

abbrev pub head? {ℓ} : {A : Type ℓ} → List (Option A) → Option A
head? [] = none
head? (x ∷ xs) = x

abbrev pub tail {ℓ} : {A : Type ℓ} → List A → List A
tail [] = []
tail (x ∷ xs) = xs

unfoldable pub scatter_label : ScatterKind → MaybeExpr → Gen (Option ℕ)
scatter_label scat_optional (present e) = add_label
scatter_label scat_optional absent = do add_pseudo_label 1; pure none
scatter_label scat_required default = do add_pseudo_label 0; pure none
scatter_label scat_rest default = do add_pseudo_label 0; pure none

-- The labels of the targets, `none` where the label is no place.
unfoldable pub scatter_labels : Scatters → Gen (List (Option ℕ))
scatter_labels no_scatters = pure []
scatter_labels (target kind slot default next) = do
  add_var_ref slot
  l ← scatter_label kind default
  ls ← scatter_labels next
  pure (l ∷ ls)

-- The loop over the parts of an assigned place, from the outside in.
unfoldable pub store_lvalue : Expr → (is_indexed : Bool) → Gen Bool
store_lvalue (range base from to) is_indexed = do
  emit_extended_byte eop_rangeset
  pop_stack 3
  store_lvalue base true
store_lvalue (index lhs rhs) is_indexed = do emit_op op_indexset; pop_stack 2; store_lvalue lhs true
store_lvalue (id n) is_indexed = do emit_var_op op_put n; pure is_indexed
store_lvalue (prop lhs rhs) is_indexed = do emit_op op_put_prop; pop_stack 2; pure is_indexed
store_lvalue _ is_indexed = panic

abbrev pub is_index : Expr → Bool
is_index (range base from to) = true
is_index (index lhs rhs) = true
is_index _ = false

-- The codes of a handler; none stand for any error.
unfoldable pub generate_codes : Args → (arg_list : Code) → Code
generate_codes no_args arg_list = do emit_byte (optim_num_to_opcode (pos 0)); push_stack 1
generate_codes (arg kind e next) arg_list = arg_list

unfoldable pub generate_length : Option ℕ → Code
generate_length none = panic
generate_length (some saved) = do emit_extended_byte eop_length; add_stack_ref saved; push_stack 1

abbrev pub when : Bool → Code → Code
when true m = m
when false m = pure tt

-- An assignment to anything but a list of targets.
unfoldable pub assign : Expr → (place rhs : Code) → Code
assign e place rhs = do
  place
  rhs
  when (is_index e) (emit_op op_put_temp)
  is_indexed ← store_lvalue e false
  when is_indexed (do emit_op op_pop; emit_op op_push_temp)
