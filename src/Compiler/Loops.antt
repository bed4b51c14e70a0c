-- ===== src/Compiler/Loops.antt =====
-- Loops in server/code_gen.c, and the statements that leave one or go on with it.
use waverous.Base.{ℕ, Bool, false, Option, none, some, List, [], ◌∷◌, if◌then◌else◌, ◌==◌}
use waverous.Compiler.Opcodes.{
  Opcode, op_jump, op_while, eop_while_id, op_fork, op_fork_with_id, op_put, eop_exit, eop_exit_id,
}
use waverous.Compiler.State.{
  Fixup, Loop, Gen, Code, ◌>>=◌, ◌>>◌, pure, panic, modify, gets, emit_op, emit_extended_byte,
}
use waverous.Compiler.Refs.{
  add_var_ref, add_linked_label, add_known_label, define_label, add_stack_ref, enter_loop,
  exit_loop, emit_var_op,
}

-- The rest of a loop behind its test: the body, the jump back and the end.
unfoldable pub loop_body : Option ℕ → Fixup → (top bottom : ℕ) → Option ℕ → Code → Code
loop_body loop_id loop_top top_stack bottom_stack end_label body = do
  enter_loop loop_id loop_top top_stack end_label bottom_stack
  body
  end_label' ← exit_loop
  emit_op op_jump
  add_known_label loop_top
  define_label end_label'

unfoldable pub while_op : Option ℕ → Code
while_op none = emit_op op_while
while_op (some slot) = do emit_extended_byte eop_while_id; add_var_ref slot

-- A variable that may be missing.
unfoldable pub ref_if : Option ℕ → Code
ref_if none = pure tt
ref_if (some slot) = add_var_ref slot

unfoldable pub put_if : Option ℕ → Code
put_if none = pure tt
put_if (some slot) = emit_var_op op_put slot

unfoldable pub fork_op : Option ℕ → Opcode
fork_op none = op_fork
fork_op (some slot) = op_fork_with_id

unfoldable pub same_id : ℕ → Option ℕ → Bool
same_id slot none = false
same_id slot (some other) = slot == other

unfoldable pub find_loop : ℕ → List Loop → Option Loop
find_loop slot [] = none
find_loop slot (l ∷ ls) = let rest = find_loop slot ls in if same_id slot l.id then some l else rest

-- The loop that a statement leaves, the innermost one if it names none.
unfoldable pub exit_target : Option ℕ → List Loop → Option Loop
exit_target none [] = none
exit_target none (l ∷ ls) = some l
exit_target (some slot) ls = find_loop slot ls

abbrev pub set_bottom : Option ℕ → Loop → Loop
set_bottom label l = record l { bottom_label = label }

unfoldable pub set_found : ℕ → Option ℕ → List Loop → List Loop
set_found slot label [] = []
set_found slot label (l ∷ ls) =
    let rest = l ∷ set_found slot label ls in
    if same_id slot l.id then set_bottom label l ∷ ls else rest

unfoldable pub set_target : Option ℕ → Option ℕ → List Loop → List Loop
set_target none label [] = []
set_target none label (l ∷ ls) = set_bottom label l ∷ ls
set_target (some slot) label ls = set_found slot label ls

unfoldable pub exit_op : Option ℕ → Code
exit_op none = emit_extended_byte eop_exit
exit_op (some slot) = do emit_extended_byte eop_exit_id; add_var_ref slot

abbrev pub or_panic : {A : Type 0} → Option A → Gen A
or_panic none = panic
or_panic (some a) = pure a

unfoldable pub target_loop : Option ℕ → Gen Loop
target_loop exit = do ls ← gets (λ s. s.loops); or_panic (exit_target exit ls)

unfoldable pub generate_continue : Option ℕ → Code
generate_continue exit = do
  exit_op exit
  loop ← target_loop exit
  add_stack_ref loop.top_stack
  add_known_label loop.top_label

unfoldable pub generate_break : Option ℕ → Code
generate_break exit = do
  exit_op exit
  loop ← target_loop exit
  add_stack_ref loop.bottom_stack
  bottom ← add_linked_label loop.bottom_label
  modify λ s. record s { loops = set_target exit bottom s.loops }
