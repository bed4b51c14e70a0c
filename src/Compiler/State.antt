-- ===== src/Compiler/State.antt =====
-- The state of the code generator in server/code_gen.c and the operations on it. The buffers of
-- bytes, fixups and loops are lists and grow without a bound; the counters are numbers of things
-- that fit in memory. `saved_stack` is `none` for UINT_MAX.
use waverous.Base.{ℕ, ◌%◌, Option, none, some, List, [], ◌∷◌, ◌++◌, length}
use waverous.Values.{Var}
use waverous.Compiler.Opcodes.{Opcode, opcode, op_extended, ExtendedOpcode, extended_opcode}

pub data FixupKind : Type 0 where
  literal fork label var_ref stack : FixupKind

pub record Fixup : Type 0 where
  pub kind : FixupKind
  pub pc : ℕ
  pub value : ℕ
  pub prev_literals : ℕ
  pub prev_forks : ℕ
  pub prev_var_refs : ℕ
  pub prev_labels : ℕ
  pub prev_stacks : ℕ
  pub next : Option ℕ

pub record Bytecodes : Type 0 where
  pub numbytes_label : ℕ
  pub numbytes_literal : ℕ
  pub numbytes_fork : ℕ
  pub numbytes_var_name : ℕ
  pub numbytes_stack : ℕ
  pub vector : List ℕ
  pub size : ℕ
  pub max_stack : ℕ

pub record GState : Type 0 where
  pub total_var_refs : ℕ
  pub literals : List Var
  pub fork_vectors : List Bytecodes

pub record Loop : Type 0 where
  pub id : Option ℕ
  pub top_label : Fixup
  pub top_stack : ℕ
  pub bottom_label : Option ℕ
  pub bottom_stack : ℕ

-- The innermost loop stands first.
pub record State : Type 0 where
  pub max_literal : ℕ
  pub max_fork : ℕ
  pub max_var_ref : ℕ
  pub num_literals : ℕ
  pub num_forks : ℕ
  pub num_var_refs : ℕ
  pub num_labels : ℕ
  pub num_stacks : ℕ
  pub fixups : List Fixup
  pub bytes : List ℕ
  pub cur_stack : ℕ
  pub max_stack : ℕ
  pub saved_stack : Option ℕ
  pub loops : List Loop
  pub gstate : GState

unfoldable pub init_gstate : GState
init_gstate = record { total_var_refs = 0; literals = []; fork_vectors = [] }

unfoldable pub init_state : GState → State
init_state g = record {
  max_literal = 0;
  max_fork = 0;
  max_var_ref = 0;
  num_literals = 0;
  num_forks = 0;
  num_var_refs = 0;
  num_labels = 0;
  num_stacks = 0;
  fixups = [];
  bytes = [];
  cur_stack = 0;
  max_stack = 0;
  saved_stack = none;
  loops = [];
  gstate = g;
}

-- A function of the generator; `none` is a panic.
abbrev pub Gen : Type 0 → Type 0
Gen A = State → Option (A × State)

abbrev pub Code : Type 0
Code = Gen (Unit {0})

infixl 5 ◌>>=◌ ◌>>◌
unfoldable pub ◌>>=◌ : {A B : Type 0} → Gen A → (A → Gen B) → Gen B
◌>>=◌ m f s = elim (m s) [ none ↦ none | some (a, t) ↦ f a t ]

abbrev pub ◌>>◌ : {B : Type 0} → Code → Gen B → Gen B
m >> k = m >>= λ _. k

unfoldable pub pure : {A : Type 0} → A → Gen A
pure a s = some (a, s)

unfoldable pub panic : {A : Type 0} → Gen A
panic s = none

unfoldable pub modify : (State → State) → Code
modify f s = some (tt, f s)

unfoldable pub gets : {A : Type 0} → (State → A) → Gen A
gets f s = some (f s, s)

-- A `Byte` keeps the low eight bits.
unfoldable pub emit_byte : ℕ → Code
unfolding modify
emit_byte b = modify λ s. record s { bytes = s.bytes ++ (b % 256) ∷ [] }

unfoldable pub emit_op : Opcode → Code
emit_op op = emit_byte (opcode op)

unfoldable pub emit_extended_byte : ExtendedOpcode → Code
emit_extended_byte b = do emit_op op_extended; emit_byte (extended_opcode b)

-- The result is the fixup's index.
unfoldable pub add_known_fixup : Fixup → Gen ℕ
add_known_fixup f = do
  s ← gets (λ s. s)
  modify λ s. record s { fixups = s.fixups ++ (record f { pc = length s.bytes }) ∷ [] }
  emit_byte 0
  pure (length s.fixups)

-- A fixup that holds the counts of those before it.
abbrev pub counted : FixupKind → ℕ → Option ℕ → State → Fixup
counted kind value next s = record {
  kind = kind;
  pc = 0;
  value = value;
  prev_literals = s.num_literals;
  prev_forks = s.num_forks;
  prev_var_refs = s.num_var_refs;
  prev_labels = s.num_labels;
  prev_stacks = s.num_stacks;
  next = next;
}

unfoldable pub add_linked_fixup : FixupKind → ℕ → Option ℕ → Gen ℕ
add_linked_fixup kind value next = do f ← gets (counted kind value next); add_known_fixup f

unfoldable pub add_fixup : FixupKind → ℕ → Code
add_fixup kind value = do _ ← add_linked_fixup kind value none; pure tt
