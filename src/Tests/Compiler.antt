-- ===== src/Tests/Compiler.antt =====
-- The theorems on the code generator of server/code_gen.c at inputs that meet their hypotheses.
use waverous.Base.{
  ◌≤◌, ◌^◌, ◌-◌, ℕ, zero, suc, ◌+◌, ◌-◌, ◌*◌, ◌<◌, ◌≡◌, refl, true, Option, none, some, pos, negsuc,
  List, [], ◌∷◌, ◌++◌, length, get_elem?, All, inl, inr, arith,
}
use waverous.Values.{int}
use waverous.Compiler.Ast.Stmt.{fork}
use waverous.Compiler.State.{
  Fixup, FixupKind, literal, fork, label, var_ref, stack, Bytecodes, GState, State,
}
use waverous.Compiler.Refs.{intern_literal, next_of, define_label}
use waverous.Compiler.Exprs.{generate_expr}
use waverous.Compiler.Vector.{ref_size, assemble, write_ref, width, label_size, shifted, put_refs}
use waverous.Compiler.Stmts.{generate_stmt}
use waverous.Compiler.Programs.{Program, generate_code}
use waverous.Compiler.Sound.{IsSound, Fits}
use waverous.Compiler.Safety.{
  Leaves, generate_expr-Leaves, generate_stmt-Leaves, generate_code-Fits, assemble-overflow,
}
use waverous.Compiler.Refs.{here}
use waverous.Compiler.Chains.{OnChain, Descends, pointed, define_label-OnChain}
use waverous.Compiler.Interning.{Interned, intern_literal-Interned}
use waverous.Compiler.Landing.{put_refs-here}
use waverous.Compiler.Vector.{Widths, ahead}
use waverous.Compiler.Sizes.{IsWidth, assemble-size}
use waverous.Compiler.RoundTrips.{
  label_size-ReadsBack, ReadsBack, ref_size-ReadsBack, optim_num-roundtrip,
}
use waverous.Compiler.Opcodes.{
  optim_num_to_opcode, is_optim_num_opcode, opcode_to_optim_num, in_optim_num_range,
}
use waverous.Tests.Programs.{same_bits, last_item, looping}

-- A label that waits, with the one that waited before it.
abbrev waiting : ℕ → Option ℕ → Fixup
waiting place link = record {
  kind = label;
  pc = place;
  value = 0;
  prev_literals = 0;
  prev_forks = 0;
  prev_var_refs = 0;
  prev_labels = 0;
  prev_stacks = 0;
  next = link;
}

-- The stack reference of `$`.
abbrev dollar_ref : Fixup
dollar_ref = record {
  kind = stack;
  pc = 2;
  value = 0;
  prev_literals = 0;
  prev_forks = 0;
  prev_var_refs = 0;
  prev_labels = 2;
  prev_stacks = 0;
  next = none;
}

abbrev no_globals : GState
no_globals = record { total_var_refs = 0; literals = []; fork_vectors = [] }

abbrev fresh : State
fresh = record {
  max_literal = 0;
  max_fork = 0;
  max_var_ref = 0;
  num_literals = 0;
  num_forks = 0;
  num_var_refs = 0;
  num_labels = 0;
  num_stacks = 0;
  fixups = [];
  bytes = [];
  cur_stack = 0;
  max_stack = 0;
  saved_stack = none;
  loops = [];
  gstate = no_globals;
}

-- Two jumps to one end, and a `$` with many values on the stack.
abbrev under_way : State
under_way = record fresh {
  num_labels = 2;
  fixups = waiting 0 none ∷ waiting 1 (some 0) ∷ dollar_ref ∷ [];
  bytes = 0 ∷ 0 ∷ 0 ∷ [];
  max_stack = 300;
}

fresh-IsSound : IsSound fresh
fresh-IsSound = record {
  code = record {
    literals = refl;
    forks = refl;
    var_refs = refl;
    labels = refl;
    stacks = refl;
    placed = omega arith;
  };
  within = omega arith;
  tops = tt;
  globals = (tt, tt);
}

under_way-IsSound : IsSound under_way
under_way-IsSound = record {
  code = record {
    literals = refl;
    forks = refl;
    var_refs = refl;
    labels = refl;
    stacks = refl;
    placed = omega arith;
  };
  within = omega arith;
  tops = tt;
  globals = (tt, tt);
}

generate_expr-Leaves_example :
    (t : State) × (generate_expr same_bits last_item fresh ≡ some (tt, t)) × Leaves 1 fresh t
generate_expr-Leaves_example =
    generate_expr-Leaves same_bits last_item fresh (tt, refl) fresh-IsSound

generate_stmt-Leaves_example :
    (t : State) × (generate_stmt same_bits looping fresh ≡ some (tt, t)) × Leaves 0 fresh t
generate_stmt-Leaves_example =
    generate_stmt-Leaves same_bits looping fresh refl
      (tt, ((tt, (tt, refl)), (tt, (tt, tt), (tt, tt))), tt) fresh-IsSound

generate_code-Fits_example :
    (p : Program) × (generate_code same_bits looping 1 ≡ some p)
    × Fits p.main_vector
    × All Fits p.fork_vectors
generate_code-Fits_example =
    generate_code-Fits same_bits looping 1 (tt, ((tt, (tt, refl)), (tt, (tt, tt), (tt, tt))), tt)

assemble-size_example :
    (bc : Bytecodes) × (assemble under_way ≡ some bc)
    × (length bc.vector ≡ bc.size + (ref_size 300 - 1) * 1)
    × (bc.max_stack ≡ 300)
assemble-size_example = assemble-size under_way under_way-IsSound

assemble-overflow_example :
    (bc : Bytecodes) × (assemble under_way ≡ some bc) × (bc.size < length bc.vector)
assemble-overflow_example =
    assemble-overflow under_way under_way-IsSound (omega arith) (omega arith)

ref_size-ReadsBack_example : ReadsBack (ref_size 300) 256 (7 ∷ [])
ref_size-ReadsBack_example =
    ref_size-ReadsBack 300 256 (7 ∷ []) (omega arith) (omega arith) (inl (λ e. ground (arith, e)))

-- The bound itself wraps around.
bound_wraps : write_ref (ref_size 256) 256 ≡ some (0 ∷ [])
unfolding ref_size write_ref
bound_wraps = refl

three_short : in_optim_num_range (negsuc 2) ≡ true
unfolding in_optim_num_range
three_short = refl

optim_num-roundtrip_example :
    (optim_num_to_opcode (negsuc 2) < 256)
    × (is_optim_num_opcode (optim_num_to_opcode (negsuc 2)) ≡ true)
    × (opcode_to_optim_num (optim_num_to_opcode (negsuc 2)) ≡ negsuc 2)
optim_num-roundtrip_example = optim_num-roundtrip (negsuc 2) three_short

Descends-under_way : Descends under_way.fixups
unfolding next_of
Descends-under_way zero n e = cc
Descends-under_way (suc zero) n e = ground arith
Descends-under_way (suc (suc zero)) n e = cc
Descends-under_way (suc (suc (suc i))) n e = cc

define_label-OnChain_example :
    (t : State) × (define_label (some 1) under_way ≡ some (tt, t))
    × ((j : ℕ)
        → OnChain under_way.fixups (some 1) j
        → get_elem? t.fixups j ≡ pointed (here under_way) (get_elem? under_way.fixups j))
    × ((j : ℕ)
        → ¬ (OnChain under_way.fixups (some 1) j)
        → get_elem? t.fixups j ≡ get_elem? under_way.fixups j)
define_label-OnChain_example = define_label-OnChain under_way 1 Descends-under_way (omega arith)

abbrev wide_labels : Widths
wide_labels = record { of_literal = 1; of_fork = 1; of_var_ref = 1; of_label = 2; of_stack = 1 }

wide_labels-IsWidth : (k : FixupKind) → IsWidth (width wide_labels k)
unfolding width
wide_labels-IsWidth literal = inl refl
wide_labels-IsWidth fork = inl refl
wide_labels-IsWidth label = inr (inl refl)
wide_labels-IsWidth var_ref = inl refl
wide_labels-IsWidth stack = inl refl

put_refs-here_example :
    (xs : List ℕ) × (put_refs wide_labels 0 (under_way.bytes ++ 110 ∷ []) (under_way.fixups ++ [])
      ≡ ahead (some xs) (put_refs wide_labels 3 (110 ∷ []) []))
    × (length xs ≡ shifted wide_labels (here under_way) + (1 - 1) * 1)
put_refs-here_example =
    put_refs-here wide_labels under_way under_way.fixups (110 ∷ []) [] 4 wide_labels-IsWidth
      under_way-IsSound (omega arith) (λ k. refl) (omega arith)

-- A table with one literal.
abbrev one_literal : State
one_literal = record fresh { gstate = record no_globals { literals = int (pos 1000) ∷ [] } }

intern_literal-Interned_example :
    (i : ℕ) × (t : State) × (intern_literal same_bits (int (pos 2000)) one_literal ≡ some (i, t))
    × Interned same_bits (int (pos 2000)) (int (pos 1000) ∷ []) i t.gstate.literals
intern_literal-Interned_example =
    intern_literal-Interned same_bits (int (pos 2000)) one_literal tt (tt, tt)

wide_label : 256 < 300 + (label_size 300 10 - 1) * 10
unfolding label_size
wide_label = omega arith

small_vector : 300 + (label_size 300 10 - 1) * 10 ≤ 2 ^ 32
unfolding label_size
small_vector = omega arith

label_size-ReadsBack_example : ReadsBack (label_size 300 10) 256 (7 ∷ [])
label_size-ReadsBack_example = label_size-ReadsBack 300 10 256 (7 ∷ []) wide_label small_vector
