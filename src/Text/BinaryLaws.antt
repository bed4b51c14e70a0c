-- ===== src/Text/BinaryLaws.antt =====
-- The two conversions of server/utils.c between raw bytes and binary strings.
use waverous.Base.{
  ℕ, ◌+◌, ◌*◌, ◌/◌, ◌%◌, ◌≤◌, ◌<◌, ◌≡◌, refl, ap, inl, inr, true, false, ◌&&◌, not, some, List, [],
  ◌∷◌, arith, ◌==◌, All, Bool-cases,
}
use waverous.Text.{CStr}
use waverous.Text.Binary.{prints, hex_digit, raw_bytes_to_binary, hex_value, binary_to_raw_bytes}

hex_value-hex_digit : (cc d : ℕ) → d < 16 → hex_value cc (hex_digit d) ≡ some ((cc * 16 + d) % 256)
unfolding hex_value hex_digit
hex_value-hex_digit cc d h = ground arith

hex_digit_range : (d : ℕ) → d < 16 → (32 ≤ hex_digit d) × (hex_digit d ≤ 126)
unfolding hex_digit
hex_digit_range d h = ground arith

printable : (c : ℕ) → (not (c == 126) && prints c) ≡ true → (32 ≤ c) × (c ≤ 126)
unfolding prints
printable c h = ground arith

decode-plain :
    (c : ℕ) (s : CStr) (bytes : List ℕ)
    → (c == 126) ≡ false
    → binary_to_raw_bytes s ≡ some bytes
    → binary_to_raw_bytes (c ∷ s) ≡ some (c ∷ bytes)
unfolding binary_to_raw_bytes
decode-plain c [] bytes h e = ground arith
decode-plain c (d ∷ []) bytes h e = rw (h, e)
decode-plain c (d ∷ d' ∷ s) bytes h e = rw (h, e)

decode-coded :
    (c : ℕ) (s : CStr) (bytes : List ℕ)
    → c < 256
    → binary_to_raw_bytes s ≡ some bytes
    → binary_to_raw_bytes (126 ∷ hex_digit (c / 16) ∷ hex_digit (c % 16) ∷ s) ≡ some (c ∷ bytes)
unfolding binary_to_raw_bytes
decode-coded c s bytes h e =
    rw
      (
        hex_value-hex_digit 0 (c / 16) (omega arith),
        hex_value-hex_digit ((0 * 16 + c / 16) % 256) (c % 16) (omega arith),
        e,
      )
      (ap (λ n. some (n ∷ bytes)) (omega arith))

-- What `raw_bytes_to_binary` writes, `binary_to_raw_bytes` reads back, for every sequence of bytes.
pub binary_to_raw_bytes-raw_bytes_to_binary :
    (bytes : List ℕ)
    → All (λ c. c < 256) bytes
    → binary_to_raw_bytes (raw_bytes_to_binary bytes) ≡ some bytes
unfolding raw_bytes_to_binary
binary_to_raw_bytes-raw_bytes_to_binary [] h = unfold binary_to_raw_bytes in refl
binary_to_raw_bytes-raw_bytes_to_binary (c ∷ bytes) h =
    let ih = binary_to_raw_bytes-raw_bytes_to_binary bytes h.1 in
    elim (Bool-cases (not (c == 126) && prints c)) [
      | inl p ↦ rw p (decode-plain c (raw_bytes_to_binary bytes) bytes (ground arith) ih)
      | inr q ↦ rw q (decode-coded c (raw_bytes_to_binary bytes) bytes h.0 ih)
    ]

-- The printed form is ASCII text that prints, with no byte below the space or above `~`.
pub raw_bytes_to_binary-printable :
    (bytes : List ℕ)
    → All (λ c. c < 256) bytes
    → All (λ c. (32 ≤ c) × (c ≤ 126)) (raw_bytes_to_binary bytes)
unfolding raw_bytes_to_binary
raw_bytes_to_binary-printable [] h = tt
raw_bytes_to_binary-printable (c ∷ bytes) h =
    let ih = raw_bytes_to_binary-printable bytes h.1 in
    elim (Bool-cases (not (c == 126) && prints c)) [
      | inl p ↦ rw p (printable c p, ih)
      | inr q ↦ rw q (
        (omega arith),
        (hex_digit_range (c / 16) (omega arith), (hex_digit_range (c % 16) (omega arith), ih)),
      )
    ]
