-- ===== src/Text.antt =====
-- The string routines of server/utils.c. A C string is the list of its bytes before the final NUL,
-- each from 1 to 255; a pointer into a string is the rest of the list from there on.
pub mod Compare
pub mod Verbs
pub mod VerbSpec
pub mod VerbNames
pub mod Binary
pub mod BinaryLaws
pub mod Search
pub mod SearchLaws
use waverous.Base.{
  ℕ, zero, suc, ◌+◌, ◌-◌, ◌*◌, ◌/◌, ◌%◌, ◌^◌, ◌≤◌, Bool, true, false, ◌&&◌, ℤ, pos, List, [], ◌∷◌,
  leb, ◌==◌, if◌then◌else◌, All,
}
use waverous.Base.Int.{sub_ℕ}

abbrev pub CStr : Type 0
CStr = List ℕ

-- A byte that may stand in a C string.
abbrev pub IsChar : ℕ → Type 0
IsChar c = (1 ≤ c) × (c ≤ 255)

abbrev pub IsText : CStr → Type 0
IsText s = All IsChar s

-- The table `cmap`: upper case letters of ASCII to lower case, any other byte to itself.
unfoldable pub cmap : ℕ → ℕ
cmap c = if leb 65 c && leb c 90 then c + 32 else c

-- `cmap[a] - cmap[b]`, where `char` is signed: both are moved up by 128 before the subtraction.
unfoldable pub char_diff : ℕ → ℕ → ℤ
unfolding cmap
char_diff a b = sub_ℕ ((cmap a + 128) % 256) ((cmap b + 128) % 256)

unfoldable pub mystrcasecmp : CStr → CStr → ℤ
mystrcasecmp [] [] = pos 0
mystrcasecmp [] (b ∷ t) = char_diff 0 b
mystrcasecmp (a ∷ s) [] = char_diff a 0
mystrcasecmp (a ∷ s) (b ∷ t) = if cmap a == cmap b then mystrcasecmp s t else char_diff a b

unfoldable pub mystrncasecmp : CStr → CStr → ℕ → ℤ
mystrncasecmp s t zero = pos 0
mystrncasecmp [] [] (suc n) = pos 0
mystrncasecmp [] (b ∷ t) (suc n) = char_diff 0 b
mystrncasecmp (a ∷ s) [] (suc n) = char_diff a 0
mystrncasecmp (a ∷ s) (b ∷ t) (suc n) =
    if cmap a == cmap b then mystrncasecmp s t n else char_diff a b

-- `strncmp(s, t, n) == 0` and `strcmp(s, t) == 0`, of the C library.
unfoldable pub strneq : CStr → CStr → ℕ → Bool
strneq s t zero = true
strneq [] [] (suc n) = true
strneq [] (b ∷ t) (suc n) = false
strneq (a ∷ s) [] (suc n) = false
strneq (a ∷ s) (b ∷ t) (suc n) = if a == b then strneq s t n else false

unfoldable pub streq : CStr → CStr → Bool
streq [] [] = true
streq [] (b ∷ t) = false
streq (a ∷ s) [] = false
streq (a ∷ s) (b ∷ t) = if a == b then streq s t else false

-- One round of `str_hash`: `(ans << 3) + (ans >> 28) + cmap[c]` on 32 bits, the `char` sign-extended.
unfoldable pub hash_step : ℕ → ℕ → ℕ
hash_step ans c =
    (ans * 8 + ans / 2 ^ 28 + (if leb 128 (cmap c) then cmap c + 2 ^ 32 - 256 else cmap c)) % 2 ^ 32

unfoldable pub hash_from : ℕ → CStr → ℕ
hash_from ans [] = ans
hash_from ans (c ∷ s) = hash_from (hash_step ans c) s

unfoldable pub str_hash : CStr → ℕ
str_hash s = hash_from 0 s
