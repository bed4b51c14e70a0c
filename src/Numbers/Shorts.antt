-- ===== src/Numbers/Shorts.antt =====
-- The `short` fields of server/db_private.h: 16 bits in two's complement. Where a field is read by
-- masks of its low bits only, the model keeps the bits as a number below 2^16.
use waverous.Base.{ℕ, ◌-◌, ◌%◌, ◌^◌, ◌<◌, ◌≡◌, ℤ, pos, negsuc, arith, ltb, if◌then◌else◌}

-- The bits of a `short` that is given a value.
abbrev pub short_bits : ℕ → ℕ
short_bits n = n % 2 ^ 16

abbrev pub of_short_bits : ℕ → ℤ
of_short_bits w = if ltb w (2 ^ 15) then pos w else negsuc (2 ^ 16 - 1 - w)

-- The value of a `short` that is given an `int`.
unfoldable pub to_short : ℤ → ℤ
to_short (pos n) = of_short_bits (n % 2 ^ 16)
to_short (negsuc n) = of_short_bits (2 ^ 16 - 1 - n % 2 ^ 16)

abbrev pub IsShort : ℤ → Type 0
IsShort (pos n) = n < 2 ^ 15
IsShort (negsuc n) = n < 2 ^ 15

pub to_short-IsShort : (n : ℤ) → IsShort n → to_short n ≡ n
unfolding to_short
to_short-IsShort (pos n) h = ground arith
to_short-IsShort (negsuc n) h = ground arith
