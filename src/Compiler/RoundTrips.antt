-- ===== src/Compiler/RoundTrips.antt =====
-- What server/code_gen.c writes and server/execute.c reads: references of several bytes, and the
-- instructions of small numbers.
use waverous.Base.{
  ◌+◌, ◌-◌, ℕ, ◌*◌, ◌^◌, ◌≤◌, ◌<◌, ◌≡◌, ◌≢◌, ◌⊎◌, inl, inr, refl, ap, true, some, leb, Bool-cases,
  ℤ, pos, negsuc, List, ◌++◌, arith,
}
use waverous.Compiler.Opcodes.{
  in_optim_num_range, optim_num_to_opcode, is_optim_num_opcode, opcode_to_optim_num,
}
use waverous.Compiler.Vector.{ref_size, label_size, write_ref, read_bytes}

-- The bytes that are written for a value are read as the value, whatever follows them.
abbrev pub ReadsBack : (size value : ℕ) (rest : List ℕ) → Type 0
ReadsBack size value rest =
    (xs : List ℕ) × (write_ref size value ≡ some xs)
    × (read_bytes (xs ++ rest) size ≡ some (value, rest))

one_byte : (value : ℕ) (rest : List ℕ) → value < 256 → ReadsBack 1 value rest
unfolding write_ref read_bytes
one_byte value rest h = (_, refl, ap (λ n. some (n, rest)) (omega arith))

two_bytes : (value : ℕ) (rest : List ℕ) → value < 256 * 256 → ReadsBack 2 value rest
unfolding write_ref read_bytes
two_bytes value rest h = (_, refl, ap (λ n. some (n, rest)) (omega arith))

four_bytes : (value : ℕ) (rest : List ℕ) → value < 2 ^ 32 → ReadsBack 4 value rest
unfolding write_ref read_bytes
four_bytes value rest h = (_, refl, ap (λ n. some (n, rest)) (omega arith))

-- The width for references up to a bound suits a reference of at most this bound: the bytes that are
-- written for it are read back as the same number, with what follows, unless the reference is the
-- bound itself and that is 256 or 65536.
pub ref_size-ReadsBack :
    (max value : ℕ) (rest : List ℕ)
    → value ≤ max
    → max < 2 ^ 32
    → (value ≢ max) ⊎ ((max ≢ 256) × (max ≢ 65536))
    → ReadsBack (ref_size max) value rest
unfolding ref_size
ref_size-ReadsBack max value rest le small fit = elim (Bool-cases (leb max 256)) [
  | inl short ↦ rw short (one_byte value rest (ground arith))
  | inr more ↦ rw more (elim (Bool-cases (leb max (256 * 256))) [
    | inl short ↦ rw short (two_bytes value rest (ground arith))
    | inr long ↦ rw long (four_bytes value rest (ground arith))
  ])
]

-- A number in the range of the short instructions has an instruction that fits in a byte, is
-- recognised as an instruction of this kind, and is read back as the number.
pub optim_num-roundtrip :
    (n : ℤ)
    → in_optim_num_range n ≡ true
    → (optim_num_to_opcode n < 256)
      × (is_optim_num_opcode (optim_num_to_opcode n) ≡ true)
      × (opcode_to_optim_num (optim_num_to_opcode n) ≡ n)
unfolding in_optim_num_range optim_num_to_opcode is_optim_num_opcode opcode_to_optim_num
optim_num-roundtrip (pos n) h = (ground arith, ground arith, ground arith)
optim_num-roundtrip (negsuc n) h = (ground arith, ground arith, ground arith)

-- A label that names a place inside a vector, whose size is what it is without labels and what the
-- labels take beyond one byte, fits in the width that was chosen for labels: its bytes are read back
-- as the same number, with what follows, if the size is at most 2 ^ 32.
pub label_size-ReadsBack :
    (size num_labels value : ℕ) (rest : List ℕ)
    → value < size + (label_size size num_labels - 1) * num_labels
    → size + (label_size size num_labels - 1) * num_labels ≤ 2 ^ 32
    → ReadsBack (label_size size num_labels) value rest
unfolding label_size
label_size-ReadsBack size num_labels value rest inside small = elim (Bool-cases (leb size 256)) [
  | inl short ↦ rw short (one_byte value rest (ground (arith, rw short at inside)))
  | inr more ↦ rw more (elim (Bool-cases (leb (size + num_labels) (256 * 256))) [
    | inl short ↦ rw short (two_bytes value rest (ground (arith, rw (more, short) at inside)))
    | inr long ↦ rw long (
        four_bytes value rest (ground (arith, rw (more, long) at inside, rw (more, long) at small)))
  ])
]
