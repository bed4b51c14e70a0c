-- ===== src/Tests/Streams.antt =====
-- Buffers and numbers of server/streams.c.
use waverous.Base.{◌≡◌, ◌≢◌, refl, inl, some, none, pos, ◌^◌, negsuc, [], ◌∷◌, arith, codes}
use waverous.Streams.{
  Stream, stream_add_char, stream_add_string, size_for, digits_loop, itoa_least, itoa,
}
use waverous.Streams.Laws.{Appends, stream_add-HasRoom}
use waverous.Streams.Digits.{Spells, spelled-itoa}

-- A buffer of four bytes that holds three.
abbrev full : Stream
full = record { text = codes "abc"; buflen = 4 }

stream_add-HasRoom_example :
    Appends full (100 ∷ []) (stream_add_char full 100)
    × Appends full (codes "defghijk") (stream_add_string full (codes "defghijk"))
stream_add-HasRoom_example =
    stream_add-HasRoom full 100 (codes "defghijk") (omega arith) (omega arith) (omega arith)

other : negsuc 4094 ≢ negsuc 2147483647
other e = ground arith

spelled-itoa_example : Spells 16 (negsuc 4094) (itoa (negsuc 4094) 16)
spelled-itoa_example =
    spelled-itoa (negsuc 4094) 16 (omega arith) (omega arith) (omega arith) (inl other)

-- `-FFF`
hex : itoa (negsuc 4094) 16 ≡ some (codes "-FFF")
unfolding itoa digits_loop
hex = refl

-- Twenty digits of radix 2, in front of the buffer.
binary : itoa (pos 524288) 2 ≡ none
unfolding itoa digits_loop
binary = refl

-- The least number of 32 bits is written as the one above it.
least_hex : itoa (negsuc 2147483647) 16 ≡ itoa (negsuc 2147483646) 16
unfolding itoa itoa_least digits_loop
least_hex = refl

-- A full buffer of 2^30 bytes is not doubled.
size_overflows : size_for (2 ^ 30) (2 ^ 30) ≡ none
size_overflows = refl
