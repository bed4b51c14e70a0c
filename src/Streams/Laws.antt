-- ===== src/Streams/Laws.antt =====
-- The buffers of server/streams.c always have room for a byte more, the final zero of a C string.
use waverous.Base.{
  ℕ, ◌+◌, ◌*◌, ◌^◌, ◌≤◌, ◌<◌, ◌≡◌, refl, inl, inr, true, false, Option, some, [], ◌∷◌, ◌++◌, arith,
  leb, ltb, length, length-append, Bool-cases,
}
use waverous.Text.{CStr}
use waverous.Streams.{Stream, grow, write, stream_add_char, stream_add_string, size_for}

abbrev pub HasRoom : Stream → Type 0
HasRoom s = length s.text < s.buflen

-- The write happens, and puts the bytes behind the text.
abbrev pub Appends : Stream → CStr → Option Stream → Type 0
Appends s bytes r = (t : Stream) × (r ≡ some t) × (t.text ≡ s.text ++ bytes) × HasRoom t

write-Appends :
    (s : Stream) (bytes : CStr) (room : ℕ)
    → length s.text + room ≤ s.buflen
    → length s.text + length bytes < s.buflen
    → Appends s bytes (write s bytes room)
write-Appends s bytes room r l =
    let enough : ltb s.buflen (length s.text + room) ≡ false = ground arith in
    (
      record s { text = s.text ++ bytes },
      rw enough refl,
      refl,
      omega (arith, length-append s.text bytes),
    )

int_fits : (n : ℕ) → n < 2 ^ 31 → ltb n (2 ^ 31) ≡ true
int_fits n h = ground arith

-- The size is found, and is enough.
size_for-some :
    (b needed : ℕ)
    → b < 2 ^ 30
    → needed + 1 < 2 ^ 31
    → (n : ℕ) × (size_for b needed ≡ some n) × (needed < n)
size_for-some b needed h k = elim (Bool-cases (leb (b * 2) needed)) [
  | inl t ↦ (
    needed + 1,
    rw (size_for, int_fits (b * 2) (omega arith), t, int_fits (needed + 1) k) refl,
    omega arith,
  )
  | inr f ↦ (b * 2, rw (size_for, int_fits (b * 2) (omega arith), f) refl, ground arith)
]

-- From a buffer with room, of less than 2^30 bytes, and for a string that with the text and a final
-- zero makes less than 2^31 bytes, adding a byte or the string overflows no `int` and never writes
-- behind the buffer's end, puts it behind the text, and leaves room again.
pub stream_add-HasRoom :
    (s : Stream) (c : ℕ) (string : CStr)
    → HasRoom s
    → s.buflen < 2 ^ 30
    → length s.text + length string + 1 < 2 ^ 31
    → Appends s (c ∷ []) (stream_add_char s c) × Appends s string (stream_add_string s string)
unfolding stream_add_char stream_add_string grow
stream_add-HasRoom s c string h small short = (by_char, by_string)
  where
    by_char : Appends s (c ∷ []) (stream_add_char s c)
    by_char =
        rw (stream_add_char, int_fits (length s.text + 1) (omega arith))
          (elim (Bool-cases (leb s.buflen (length s.text + 1))) [
            | inl t ↦
                rw (t, int_fits (s.buflen * 2) (omega arith))
                  (write-Appends (grow s (s.buflen * 2)) (c ∷ []) 1 (omega arith) (omega arith))
            | inr f ↦ rw f (write-Appends s (c ∷ []) 1 (omega arith) (ground arith))
          ])

    by_string : Appends s string (stream_add_string s string)
    by_string =
        rw (stream_add_string, int_fits (length s.text + length string) (omega arith))
          (elim (Bool-cases (leb s.buflen (length s.text + length string))) [
            | inl t ↦
                let (n, e, enough) =
                  size_for-some s.buflen (length s.text + length string) small short in
                rw (t, e) (write-Appends (grow s n) string (length string + 1) (omega arith) enough)
            | inr f ↦
                rw f (write-Appends s string (length string + 1) (ground arith) (ground arith))
          ])
