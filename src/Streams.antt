-- ===== src/Streams.antt =====
-- The growing text buffers of server/streams.c. The text is what the buffer holds up to `current`;
-- a write behind the buffer's end has no result, and neither has an `int` that overflows.
pub mod Laws
pub mod Digits
use waverous.Base.{
  ℕ, zero, suc, ◌+◌, ◌-◌, ◌*◌, ◌^◌, ◌/◌, ◌%◌, Bool, true, false, ◌&&◌, ◌||◌, not, Option, none,
  some, ℤ, pos, negsuc, List, [], ◌∷◌, ◌++◌, leb, ltb, ◌==◌, if◌then◌else◌, length, codes,
}
use waverous.Text.{CStr}

-- `buflen` and the length of `text`, which is `current`, are of type `int`: what the code computes
-- from them goes through `int_value`.
pub record Stream : Type 0 where
  pub text : CStr
  pub buflen : ℕ

unfoldable pub new_stream : ℕ → Stream
new_stream size = record { text = []; buflen = size }

unfoldable pub grow : Stream → ℕ → Stream
grow s newlen = record s { buflen = newlen }

-- The bytes go behind the text, and with a string also its final zero.
abbrev pub write : Stream → CStr → (room : ℕ) → Option Stream
write s bytes room =
    if ltb s.buflen (length s.text + room) then none else some (record s { text = s.text ++ bytes })

-- The value of an `int`; a greater one overflows, and there is no result.
abbrev pub int_value : ℕ → Option ℕ
int_value n = if ltb n (2 ^ 31) then some n else none

unfoldable pub stream_add_char : Stream → ℕ → Option Stream
unfolding grow
stream_add_char s c = elim (int_value (length s.text + 1)) [
  | none ↦ none
  | some next ↦
      let grown = elim (int_value (s.buflen * 2)) as (λ _. Option Stream) [
        | none ↦ none
        | some newlen ↦ write (grow s newlen) (c ∷ []) 1
      ] in
      if leb s.buflen next then grown else write s (c ∷ []) 1
]

unfoldable pub drop_last : CStr → CStr
drop_last [] = []
drop_last (c ∷ []) = []
drop_last (c ∷ d ∷ s) = c ∷ drop_last (d ∷ s)

unfoldable pub stream_delete_char : Stream → Stream
unfolding drop_last
stream_delete_char s = record s { text = drop_last s.text }

-- The new size: twice the old one, or what the string needs.
abbrev pub size_for : ℕ → ℕ → Option ℕ
size_for buflen needed = elim (int_value (buflen * 2)) [
  | none ↦ none
  | some newlen ↦ if leb newlen needed then int_value (needed + 1) else some newlen
]

unfoldable pub stream_add_string : Stream → CStr → Option Stream
unfolding grow
stream_add_string s string = elim (int_value (length s.text + length string)) [
  | none ↦ none
  | some needed ↦
      let grown = elim (size_for s.buflen needed) as (λ _. Option Stream) [
        | none ↦ none
        | some newlen ↦ write (grow s newlen) string (length string + 1)
      ] in
      if leb s.buflen needed then grown else write s string (length string + 1)
]

abbrev pub digit_char : ℕ → ℕ
digit_char d = if ltb d 10 then b'0' + d else b'A' + d - 10

-- The digits of a number, in front of what is there; `room` is what is left of the buffer in front
-- of `ptr`, and a digit in front of the buffer has no result.
unfoldable pub digits_loop : (room : ℕ) → ℕ → (radix : ℕ) → CStr → Option CStr
digits_loop zero n radix s = if n == 0 then some s else none
digits_loop (suc room) n radix s =
    let rest = digits_loop room (n / radix) radix (digit_char (n % radix) ∷ s) in
    if n == 0 then some s else rest

-- What is in front of the final zero of `static char buffer[20]`.
abbrev pub buffer_room : ℕ
buffer_room = 19

-- `*(--ptr) = '-'`
abbrev pub add_sign : CStr → Option CStr
add_sign s = if ltb (length s) buffer_room then some (b'-' ∷ s) else none

-- The least integer; another radix is logged as an error.
unfoldable pub itoa_least : ℕ → CStr
itoa_least radix =
    if radix == 16
    then codes "-7FFFFFFF"
    else if radix == 10
    then codes "-2147483648"
    else if radix == 8
    then codes "-17777777777"
    else codes "0"

unfoldable pub itoa : ℤ → ℕ → Option CStr
itoa (pos n) radix = if n == 0 then some (codes "0") else digits_loop buffer_room n radix []
itoa (negsuc n) radix =
    if n == 2147483647
    then some (itoa_least radix)
    else elim (digits_loop buffer_room (n + 1) radix []) [ none ↦ none | some s ↦ add_sign s ]
