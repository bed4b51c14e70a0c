-- ===== src/Compiler/Vector.antt =====
-- The last step of `stmt_to_code` in server/code_gen.c: how wide each kind of reference is, and the
-- vector with the references in place. Its reader is `READ_BYTES` of server/execute.c.
use waverous.Base.{
  ℕ, suc, ◌+◌, ◌-◌, ◌*◌, ◌/◌, ◌%◌, ◌^◌, Bool, true, false, Option, none, some, List, [], ◌∷◌, ◌++◌,
  length, leb, ◌==◌, if◌then◌else◌,
}
use waverous.Compiler.Opcodes.{opcode, op_done}
use waverous.Compiler.Refs.{max}
use waverous.Compiler.State.{
  FixupKind, literal, fork, label, var_ref, stack, Fixup, Bytecodes, State,
}

unfoldable pub ref_size : ℕ → ℕ
ref_size max = if leb max 256 then 1 else if leb max (256 * 256) then 2 else 4

-- How many bytes each kind of reference takes.
pub record Widths : Type 0 where
  pub of_literal : ℕ
  pub of_fork : ℕ
  pub of_var_ref : ℕ
  pub of_label : ℕ
  pub of_stack : ℕ

unfoldable pub width : Widths → FixupKind → ℕ
width w literal = w.of_literal
width w fork = w.of_fork
width w var_ref = w.of_var_ref
width w stack = w.of_stack
width w label = w.of_label

-- The size as far as it is known before the labels' width.
unfoldable pub base_size : State → (of_literal of_fork of_var_ref : ℕ) → ℕ
base_size s of_literal of_fork of_var_ref =
    length s.bytes
    + (of_literal - 1) * s.num_literals
    + (of_fork - 1) * s.num_forks
    + (of_var_ref - 1) * s.num_var_refs

unfoldable pub label_size : (size num_labels : ℕ) → ℕ
label_size size num_labels =
    if leb size 256 then 1 else if leb (size + num_labels) (256 * 256) then 2 else 4

unfoldable pub widths : State → Widths
widths s =
    let l = ref_size (max s.max_literal (length s.gstate.literals)) in
    let f = ref_size (max s.max_fork (length s.gstate.fork_vectors)) in
    let v = ref_size (max s.max_var_ref s.gstate.total_var_refs) in
    record {
      of_literal = l;
      of_fork = f;
      of_var_ref = v;
      of_label = label_size (base_size s l f v) s.num_labels;
      of_stack = ref_size s.max_stack;
    }

-- `bc.size`
unfoldable pub vector_size : State → Widths → ℕ
vector_size s w = base_size s w.of_literal w.of_fork w.of_var_ref + (w.of_label - 1) * s.num_labels

-- A label's place among the references at their final widths.
unfoldable pub shifted : Widths → Fixup → ℕ
shifted w f =
    f.value
    + f.prev_literals * (w.of_literal - 1)
    + f.prev_forks * (w.of_fork - 1)
    + f.prev_var_refs * (w.of_var_ref - 1)
    + f.prev_labels * (w.of_label - 1)
    + f.prev_stacks * (w.of_stack - 1)

unfoldable pub fixed_value : Widths → FixupKind → Fixup → ℕ
fixed_value w label f = shifted w f
fixed_value w literal f = f.value
fixed_value w fork f = f.value
fixed_value w var_ref f = f.value
fixed_value w stack f = f.value

-- The low bytes of a value, the highest first. Other sizes are a panic.
unfoldable pub write_ref : (size value : ℕ) → Option (List ℕ)
write_ref size value =
    if size == 4
    then some (value / 2 ^ 24 % 256 ∷ value / 2 ^ 16 % 256 ∷ value / 2 ^ 8 % 256 ∷ value % 256 ∷ [])
    else if size == 2
    then some (value / 2 ^ 8 % 256 ∷ value % 256 ∷ [])
    else if size == 1
    then some (value % 256 ∷ [])
    else none

unfoldable pub write_fixup : Widths → Fixup → Option (List ℕ)
write_fixup w f = write_ref (width w f.kind) (fixed_value w f.kind f)

abbrev pub ahead : Option (List ℕ) → Option (List ℕ) → Option (List ℕ)
ahead none rest = none
ahead (some xs) none = none
ahead (some xs) (some ys) = some (xs ++ ys)

-- Whether the byte at this place stands for the next fixup.
abbrev pub is_due : ℕ → List Fixup → Bool
is_due i [] = false
is_due i (f ∷ fs) = f.pc == i

abbrev pub written : Widths → Bool → ℕ → List Fixup → Option (List ℕ)
written w false b fs = some (b ∷ [])
written w true b [] = some (b ∷ [])
written w true b (f ∷ fs) = write_fixup w f

abbrev pub after : Bool → List Fixup → List Fixup
after false fs = fs
after true [] = []
after true (f ∷ fs) = fs

-- The bytes from a place on, with the fixups that are left.
unfoldable pub put_refs : Widths → ℕ → List ℕ → List Fixup → Option (List ℕ)
put_refs w i [] fs = some []
put_refs w i (b ∷ bs) fs =
    ahead (written w (is_due i fs) b fs) (put_refs w (suc i) bs (after (is_due i fs) fs))

-- `OP_DONE` ends the code. A stack that is not empty is a panic, and so is a saved top.
abbrev pub ended : State → State
ended s = record s { bytes = s.bytes ++ opcode op_done ∷ [] }

abbrev pub vector_of : State → Widths → List ℕ → Bytecodes
vector_of s w vector = record {
  numbytes_label = w.of_label;
  numbytes_literal = w.of_literal;
  numbytes_fork = w.of_fork;
  numbytes_var_name = w.of_var_ref;
  numbytes_stack = w.of_stack;
  vector = vector;
  size = vector_size s w;
  max_stack = s.max_stack;
}

unfoldable pub assemble : State → Option Bytecodes
assemble s =
    let w = widths s in
    elim (put_refs w 0 s.bytes s.fixups) [ none ↦ none | some vector ↦ some (vector_of s w vector) ]

abbrev pub is_none {ℓ} : {A : Type ℓ} → Option A → Bool
is_none none = true
is_none (some a) = false

unfoldable pub bytecodes : State → Option Bytecodes
bytecodes s =
    if s.cur_stack == 0 then (if is_none s.saved_stack then assemble (ended s) else none) else none

abbrev pub from_one : List ℕ → Option (ℕ × List ℕ)
from_one (a ∷ bv) = some (a, bv)
from_one _ = none

abbrev pub from_two : List ℕ → Option (ℕ × List ℕ)
from_two (a ∷ b ∷ bv) = some (a * 2 ^ 8 + b, bv)
from_two _ = none

abbrev pub from_four : List ℕ → Option (ℕ × List ℕ)
from_four (a ∷ b ∷ c ∷ d ∷ bv) = some (a * 2 ^ 24 + b * 2 ^ 16 + c * 2 ^ 8 + d, bv)
from_four _ = none

-- The value of the bytes that stand first, and what follows. Past the end there is no result.
unfoldable pub read_bytes : List ℕ → (nb : ℕ) → Option (ℕ × List ℕ)
read_bytes bv nb = if nb == 1 then from_one bv else if nb == 2 then from_two bv else from_four bv
