-- ===== src/Tests/Programs.antt =====
-- Small programs through the code generator of server/code_gen.c, down to their bytes.
use waverous.Base.{
  ℕ, zero, suc, ◌≡◌, refl, Bool, Option, none, some, pos, List, [], ◌∷◌, length, get_elem?, eqz,
  ◌==◌,
}
use waverous.Values.{int}
use waverous.Equality.{equality}
use waverous.Numbers.{type_of}
use waverous.Compiler.Ast.{arg_normal, plus, Expr, absent, present, no_args, arg, Stmt}
use waverous.Compiler.Ast.Expr.{var, id, index, asgn, binary, length_of}
use waverous.Compiler.Ast.Stmt.{for_list, continue, done, while, expr, return, break}
use waverous.Compiler.State.{
  Bytecodes, init_gstate, init_state, ◌>>=◌, pure, modify, gets, emit_byte, emit_op,
  emit_extended_byte, add_known_fixup, add_linked_fixup, add_fixup,
}
use waverous.Compiler.Refs.{
  max, same_literal, find_literal, intern_literal, add_literal, add_fork, add_var_ref,
  add_linked_label, add_label, add_known_label, capture_label, point_at, next_of, point_chain,
  define_label, add_stack_ref, push_stack, pop_stack, save_stack_top, saved_stack_top,
  restore_stack_top, enter_loop, exit_loop, emit_var_op,
}
use waverous.Compiler.Exprs.{
  generate_expr, binary_op, first_op, later_op, emit_imm, generate_var, generate_more_args,
  generate_arg_list, push_lvalue, generate_asgn,
}
use waverous.Compiler.Targets.{store_lvalue, generate_length, assign}
use waverous.Compiler.Vector.{
  ref_size, assemble, write_ref, width, base_size, label_size, widths, vector_size, shifted,
  fixed_value, write_fixup, put_refs, bytecodes,
}
use waverous.Compiler.Stmts.{generate_stmt, code_of, fork_code, generate_return, stmt_to_code}
use waverous.Compiler.Loops.{
  generate_continue, loop_body, while_op, ref_if, fork_op, exit_target, set_target, exit_op,
  target_loop, generate_break,
}
use waverous.Compiler.Programs.{Program, generate_code}
use waverous.Compiler.Opcodes.{optim_num_to_opcode, opcode, extended_opcode, in_optim_num_range}

abbrev pub same_bits : ℕ → ℕ → Bool
same_bits a b = a == b

-- x[$]
abbrev pub last_item : Expr
last_item = index (id 3) length_of

-- while (x) y = x[$]; fork (1) return; endfork break; endwhile
abbrev pub looping : Stmt
looping =
    while none (id 3)
      (expr (asgn (id 40) last_item)
        (Stmt.fork none (var (int (pos 1))) (return absent done) (break none done)))
      done

-- return 1 + x;
abbrev adding : Stmt
adding = return (present (binary plus (var (int (pos 1))) (id 3))) done

abbrev init_vector : Bytecodes
init_vector = record {
  numbytes_label = 0;
  numbytes_literal = 0;
  numbytes_fork = 0;
  numbytes_var_name = 0;
  numbytes_stack = 0;
  vector = [];
  size = 0;
  max_stack = 0;
}

vector_in : Option Program → Bytecodes × List Bytecodes
vector_in none = (init_vector, [])
vector_in (some p) = (p.main_vector, p.fork_vectors)

-- The vectors of a program.
compiled : Stmt → Bytecodes × List Bytecodes
unfolding vector_in ◌>>=◌ pure modify gets emit_byte emit_op emit_extended_byte add_known_fixup
    add_linked_fixup add_fixup init_gstate init_state type_of max same_literal find_literal
    intern_literal add_literal add_fork add_var_ref add_linked_label add_label add_known_label
    capture_label point_at next_of point_chain define_label add_stack_ref push_stack pop_stack
    save_stack_top saved_stack_top restore_stack_top enter_loop exit_loop emit_var_op binary_op
    first_op later_op store_lvalue generate_length assign emit_imm generate_var generate_more_args
    generate_arg_list push_lvalue generate_asgn generate_expr loop_body while_op ref_if fork_op
    exit_target set_target exit_op target_loop generate_break generate_continue code_of fork_code
    generate_return generate_stmt stmt_to_code ref_size width base_size label_size widths
    vector_size shifted fixed_value write_ref write_fixup put_refs assemble bytecodes opcode
    extended_opcode in_optim_num_range optim_num_to_opcode generate_code equality eqz
compiled stmt = vector_in (generate_code same_bits stmt 1)

adding_bytes : (compiled adding).0.vector ≡ 124 ∷ 70 ∷ 21 ∷ 108 ∷ 110 ∷ []
unfolding compiled
adding_bytes = refl

looping_bytes :
    (compiled looping).0.vector
    ≡ 70 ∷ 1 ∷ 20 ∷ 70 ∷ 112 ∷ 1 ∷ 0 ∷ 14 ∷ 66 ∷ 40 ∷ 111 ∷ 124 ∷ 3 ∷ 0 ∷ 112 ∷ 11 ∷ 0 ∷ 20 ∷ 107
      ∷ 0 ∷ 110 ∷ []
unfolding compiled
looping_bytes = refl

-- {1, {1, ... x[$]}}
nested : ℕ → Expr
nested zero = last_item
nested (suc n) = Expr.list (arg arg_normal (var (int (pos 1))) (arg arg_normal (nested n) no_args))

-- Behind 256 items a reference to the stack takes a byte that the size leaves out.
abbrev deep : Stmt
deep = return (present (nested 256)) done

deep_overflow : ((compiled deep).0.size ≡ 775) × (length (compiled deep).0.vector ≡ 776)
unfolding compiled nested
deep_overflow = (refl, refl)

-- for v in ({}) ... continue; ... endfor
loops_in : ℕ → Stmt
loops_in zero = continue none done
loops_in (suc n) = for_list 3 (Expr.list no_args) (loops_in n) done

-- In one loop a `continue` goes back to the depth 2; in 128 of them it should go back to 256, and
-- goes to 0.
continue_depths :
    (get_elem? (compiled (loops_in 1)).0.vector 7 ≡ some 2)
    × (get_elem? (compiled (loops_in 128)).0.vector 770 ≡ some 0)
unfolding compiled loops_in
continue_depths = (refl, refl)
