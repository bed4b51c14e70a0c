-- ===== src/Compiler/Refs.antt =====
-- The references in the code of server/code_gen.c: literals, fork vectors, variables, labels and
-- places on the stack, with the stack's depth and the loops around a statement.
use waverous.Base.{
  ℕ, zero, suc, ◌+◌, ◌-◌, ◌^◌, Bool, true, false, Option, none, some, List, [], ◌∷◌, ◌++◌, length,
  get_elem?, leb, ltb, ◌==◌, if◌then◌else◌,
}
use waverous.Values.{Var}
use waverous.Equality.{equality}
use waverous.Numbers.{type_of}
use waverous.Compiler.Opcodes.{Opcode, opcode, num_ready_vars}
use waverous.Compiler.State.{
  literal, fork, label, var_ref, stack, Fixup, Bytecodes, GState, Loop, State, Gen, Code, ◌>>=◌,
  ◌>>◌, pure, modify, gets, emit_byte, add_known_fixup, add_linked_fixup, add_fixup,
}

unfoldable pub max : ℕ → ℕ → ℕ
max a b = if ltb b a then a else b

-- `feq` compares two doubles.
module _ (feq : ℕ → ℕ → Bool) where
  unfoldable pub same_literal : Var → Var → Option Bool
  same_literal v w = if type_of v == type_of w then equality feq true v w else some false

  -- The index of the first literal that is the same, else the number of literals.
  unfoldable pub find_literal : Var → List Var → Option ℕ
  find_literal v [] = some 0
  find_literal v (w ∷ ws) =
      let rest = find_literal v ws in
      elim (same_literal v w) [
        | none ↦ none
        | some true ↦ some 0
        | some false ↦ elim rest [ none ↦ none | some i ↦ some (suc i) ]
      ]

  -- An interned string has the text that was given.
  abbrev pub intern_at : Var → ℕ → GState → GState
  intern_at v i g =
      if i == length g.literals then record g { literals = g.literals ++ v ∷ [] } else g

  unfoldable pub intern_literal : Var → Gen ℕ
  intern_literal v s = elim (find_literal v s.gstate.literals) [
    | none ↦ none
    | some i ↦ some (i, record s { gstate = intern_at v i s.gstate })
  ]

  unfoldable pub add_literal : Var → Code
  add_literal v = do
    i ← intern_literal v
    add_fixup literal i
    modify λ s. record s { num_literals = s.num_literals + 1; max_literal = max i s.max_literal }

unfoldable pub add_fork : Bytecodes → Code
add_fork b = do
  i ← gets (λ s. length s.gstate.fork_vectors)
  modify
      λ s. record s { gstate = record s.gstate { fork_vectors = s.gstate.fork_vectors ++ b ∷ [] } }
  add_fixup fork i
  modify λ s. record s { num_forks = s.num_forks + 1; max_fork = max i s.max_fork }

unfoldable pub add_var_ref : ℕ → Code
add_var_ref slot = do
  add_fixup var_ref slot
  modify λ s. record s {
    num_var_refs = s.num_var_refs + 1;
    max_var_ref = max slot s.max_var_ref;
    gstate = record s.gstate { total_var_refs = s.gstate.total_var_refs + 1 };
  }

abbrev pub count_label : Code
count_label = modify λ s. record s { num_labels = s.num_labels + 1 }

-- A label is the index of its fixup, and `none` is the `-1` that ends a chain.
unfoldable pub add_linked_label : Option ℕ → Gen (Option ℕ)
add_linked_label next = do i ← add_linked_fixup label 0 next; count_label; pure (some i)

unfoldable pub add_label : Gen (Option ℕ)
add_label = add_linked_label none

unfoldable pub add_pseudo_label : ℕ → Code
add_pseudo_label value = do
  _ ← add_known_fixup (record {
    kind = label;
    pc = 0;
    value = value;
    prev_literals = 0;
    prev_forks = 0;
    prev_var_refs = 0;
    prev_labels = 0;
    prev_stacks = 0;
    next = none;
  })
  count_label

unfoldable pub add_known_label : Fixup → Code
add_known_label f = do _ ← add_known_fixup f; count_label

abbrev pub here : State → Fixup
here s = record {
  kind = label;
  pc = 0;
  value = length s.bytes;
  prev_literals = s.num_literals;
  prev_forks = s.num_forks;
  prev_var_refs = s.num_var_refs;
  prev_labels = s.num_labels;
  prev_stacks = s.num_stacks;
  next = none;
}

unfoldable pub capture_label : Gen Fixup
capture_label = gets here

-- A fixup takes the place that another one names.
abbrev pub points_to : Fixup → Fixup → Fixup
points_to f h = record f {
  value = h.value;
  prev_literals = h.prev_literals;
  prev_forks = h.prev_forks;
  prev_var_refs = h.prev_var_refs;
  prev_labels = h.prev_labels;
  prev_stacks = h.prev_stacks;
}

unfoldable pub point_at : Fixup → ℕ → List Fixup → List Fixup
point_at h i [] = []
point_at h zero (f ∷ fs) = points_to f h ∷ fs
point_at h (suc i) (f ∷ fs) = f ∷ point_at h i fs

unfoldable pub next_of : Option Fixup → Option ℕ
next_of none = none
next_of (some f) = f.next

-- The walk along a chain.
unfoldable pub point_chain : ℕ → Fixup → Option ℕ → List Fixup → List Fixup
point_chain zero h l fs = fs
point_chain (suc fuel) h none fs = fs
point_chain (suc fuel) h (some i) fs =
    point_chain fuel h (next_of (get_elem? fs i)) (point_at h i fs)

-- A chain has fewer links than there are fixups.
unfoldable pub define_label : Option ℕ → Code
define_label l = modify λ s. record s { fixups = point_chain (length s.fixups) (here s) l s.fixups }

unfoldable pub add_stack_ref : ℕ → Code
add_stack_ref index = add_fixup stack index

unfoldable pub push_stack : ℕ → Code
push_stack n =
    modify
      λ s. record s { cur_stack = s.cur_stack + n; max_stack = max (s.cur_stack + n) s.max_stack }

-- Below zero the depth wraps around.
abbrev pub down : ℕ → ℕ → ℕ
down c n = if leb n c then c - n else c + 2 ^ 32 - n

unfoldable pub pop_stack : ℕ → Code
pop_stack n = modify λ s. record s { cur_stack = down s.cur_stack n }

abbrev pub top_of : ℕ → Option ℕ
top_of zero = none
top_of (suc n) = some n

-- The result is what was saved before.
unfoldable pub save_stack_top : Gen (Option ℕ)
save_stack_top = do
  old ← gets (λ s. s.saved_stack)
  modify λ s. record s { saved_stack = top_of s.cur_stack }
  pure old

unfoldable pub saved_stack_top : Gen (Option ℕ)
saved_stack_top = gets (λ s. s.saved_stack)

unfoldable pub restore_stack_top : Option ℕ → Code
restore_stack_top old = modify λ s. record s { saved_stack = old }

unfoldable pub enter_loop : Option ℕ → Fixup → ℕ → Option ℕ → ℕ → Code
enter_loop id top_label top_stack bottom_label bottom_stack = modify λ s. record s {
  loops =
      record {
        id = id;
        top_label = top_label;
        top_stack = top_stack;
        bottom_label = bottom_label;
        bottom_stack = bottom_stack;
      }
      ∷ s.loops;
}

abbrev pub drop_loop : List Loop → State → Option (Option ℕ × State)
drop_loop [] s = none
drop_loop (l ∷ ls) s = some (l.bottom_label, record s { loops = ls })

-- There is a loop to leave, since each statement leaves the loop that it entered.
unfoldable pub exit_loop : Gen (Option ℕ)
exit_loop s = drop_loop s.loops s

-- A variable with a small number has an instruction of its own.
unfoldable pub emit_var_op : Opcode → ℕ → Code
emit_var_op op slot =
    if leb num_ready_vars slot
    then (do emit_byte (opcode op + num_ready_vars); add_var_ref slot)
    else emit_byte (opcode op + slot)
