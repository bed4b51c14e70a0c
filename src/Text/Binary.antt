-- ===== src/Text/Binary.antt =====
-- raw_bytes_to_binary and binary_to_raw_bytes of server/utils.c: bytes of the network as MOO
-- strings, with `~xx` for a byte that does not print. The static streams are emptied by each call
-- before they are used again, so a call is a function of its arguments.
use waverous.Base.{
  ℕ, ◌+◌, ◌-◌, ◌*◌, ◌/◌, ◌%◌, Bool, ◌&&◌, ◌||◌, not, Option, none, some, List, [], ◌∷◌, leb, ◌==◌,
  if◌then◌else◌,
}
use waverous.Text.{CStr}

-- `isgraph` of the C locale, or a space.
unfoldable pub prints : ℕ → Bool
prints c = (leb 33 c && leb c 126) || c == 32

-- A digit as the `%x` of `stream_printf` prints it, through `itoa`: in upper case.
unfoldable pub hex_digit : ℕ → ℕ
hex_digit d = if leb d 9 then d + 48 else d + 55

unfoldable pub raw_bytes_to_binary : List ℕ → CStr
raw_bytes_to_binary [] = []
raw_bytes_to_binary (c ∷ buffer) =
    let rest = raw_bytes_to_binary buffer in
    if not (c == 126) && prints c
    then c ∷ rest
    else 126 ∷ hex_digit (c / 16) ∷ hex_digit (c % 16) ∷ rest

unfoldable pub toupper : ℕ → ℕ
toupper c = if leb 97 c && leb c 122 then c - 32 else c

-- `cc * 16 + ...`, kept in a `char`; `none` is the early `return 0`.
unfoldable pub hex_value : ℕ → ℕ → Option ℕ
unfolding toupper
hex_value cc c =
    let u = toupper c in
    if (leb 48 u && leb u 57) || (leb 65 u && leb u 70)
    then some ((cc * 16 + (if leb u 57 then u - 48 else u - 65 + 10)) % 256)
    else none

unfoldable pub binary_to_raw_bytes : CStr → Option (List ℕ)
binary_to_raw_bytes [] = some []
binary_to_raw_bytes (c ∷ []) = if c == 126 then none else some (c ∷ [])
binary_to_raw_bytes (c ∷ d ∷ []) =
    let rest = binary_to_raw_bytes (d ∷ []) in
    if c == 126 then none else elim rest [ none ↦ none | some bytes ↦ some (c ∷ bytes) ]
binary_to_raw_bytes (c ∷ d ∷ e ∷ s) =
    let plain = binary_to_raw_bytes (d ∷ e ∷ s) in
    let coded = binary_to_raw_bytes s in
    if c == 126
    then elim (hex_value 0 d) [
      | none ↦ none
      | some high ↦ elim (hex_value high e) [
        | none ↦ none
        | some byte ↦ elim coded [ none ↦ none | some bytes ↦ some (byte ∷ bytes) ]
      ]
    ]
    else elim plain [ none ↦ none | some bytes ↦ some (c ∷ bytes) ]
