-- ===== src/Text/Compare.antt =====
-- mystrcasecmp, mystrncasecmp and str_hash of server/utils.c, against lower-cased texts.
use waverous.Base.{ℕ, zero, suc, ◌≤◌, ◌<◌, ◌^◌, ◌≡◌, refl, ◌↔◌, pos, [], ◌∷◌, map, arith, take}
use waverous.Text.{
  CStr, IsText, cmap, char_diff, mystrcasecmp, mystrncasecmp, hash_step, hash_from, str_hash,
}

-- The text with its letters in lower case, as the comparison sees it.
abbrev pub lower : CStr → CStr
lower = map cmap

pub char_diff-eq-zero : (a b : ℕ) → a ≤ 255 → b ≤ 255 → char_diff a b ≡ pos 0 → cmap a ≡ cmap b
unfolding char_diff
char_diff-eq-zero a b ha hb h = ground arith

pub cmap-pos : (a : ℕ) → 1 ≤ a → 1 ≤ cmap a
unfolding cmap
cmap-pos a h = ground arith

pub cmap-zero : cmap 0 ≡ 0
unfolding cmap
cmap-zero = refl

-- For texts of bytes from 1 to 255, `mystrcasecmp` is 0 exactly if they agree up to the case of
-- their letters.
pub mystrcasecmp-eq-zero :
    (s t : CStr) → IsText s → IsText t → (mystrcasecmp s t ≡ pos 0) ↔ (lower s ≡ lower t)
unfolding mystrcasecmp
mystrcasecmp-eq-zero [] [] hs ht = (λ _. refl, λ _. refl)
mystrcasecmp-eq-zero [] (b ∷ t) hs ht = (
  λ h.
      absurd
        (omega (arith, char_diff-eq-zero 0 b (omega arith) ht.0.1 h, cmap-zero, cmap-pos b ht.0.0)),
  λ h. cc,
)
mystrcasecmp-eq-zero (a ∷ s) [] hs ht = (
  λ h.
      absurd
        (omega (arith, char_diff-eq-zero a 0 hs.0.1 (omega arith) h, cmap-zero, cmap-pos a hs.0.0)),
  λ h. cc,
)
mystrcasecmp-eq-zero (a ∷ s) (b ∷ t) hs ht = (
  ground (arith, (mystrcasecmp-eq-zero s t hs.1 ht.1).0, char_diff-eq-zero a b hs.0.1 ht.0.1),
  ground (arith, (mystrcasecmp-eq-zero s t hs.1 ht.1).1),
)

-- For texts of bytes from 1 to 255, `mystrncasecmp` is 0 exactly if their first `n` bytes agree up
-- to the case of their letters.
pub mystrncasecmp-eq-zero :
    (s t : CStr) (n : ℕ)
    → IsText s
    → IsText t
    → (mystrncasecmp s t n ≡ pos 0) ↔ (lower (take n s) ≡ lower (take n t))
unfolding mystrncasecmp
mystrncasecmp-eq-zero [] [] zero hs ht = (λ _. refl, λ _. refl)
mystrncasecmp-eq-zero s t zero hs ht = (λ _. refl, λ _. refl)
mystrncasecmp-eq-zero [] [] (suc n) hs ht = (λ _. refl, λ _. refl)
mystrncasecmp-eq-zero [] (b ∷ t) (suc n) hs ht = (
  λ h.
      absurd
        (omega (arith, char_diff-eq-zero 0 b (omega arith) ht.0.1 h, cmap-zero, cmap-pos b ht.0.0)),
  λ h. cc,
)
mystrncasecmp-eq-zero (a ∷ s) [] (suc n) hs ht = (
  λ h.
      absurd
        (omega (arith, char_diff-eq-zero a 0 hs.0.1 (omega arith) h, cmap-zero, cmap-pos a hs.0.0)),
  λ h. cc,
)
mystrncasecmp-eq-zero (a ∷ s) (b ∷ t) (suc n) hs ht = (
  ground (arith, (mystrncasecmp-eq-zero s t n hs.1 ht.1).0, char_diff-eq-zero a b hs.0.1 ht.0.1),
  ground (arith, (mystrncasecmp-eq-zero s t n hs.1 ht.1).1),
)

hash_step-cmap : (ans a b : ℕ) → cmap a ≡ cmap b → hash_step ans a ≡ hash_step ans b
unfolding hash_step
hash_step-cmap ans a b h = rw h

hash_from-lt : (ans : ℕ) (s : CStr) → ans < 2 ^ 32 → hash_from ans s < 2 ^ 32
unfolding hash_from hash_step
hash_from-lt ans [] h = h
hash_from-lt ans (c ∷ s) h = hash_from-lt (hash_step ans c) s (omega arith)

hash_from-lower : (ans : ℕ) (s t : CStr) → lower s ≡ lower t → hash_from ans s ≡ hash_from ans t
unfolding hash_from
hash_from-lower ans [] [] h = refl
hash_from-lower ans [] (b ∷ t) h = cc
hash_from-lower ans (a ∷ s) [] h = cc
hash_from-lower ans (a ∷ s) (b ∷ t) h =
    let head : cmap a ≡ cmap b = cc in
    rw (hash_step-cmap ans a b head) (hash_from-lower (hash_step ans b) s t (cc))

-- Texts that `mystrcasecmp` finds equal have the same hash.
pub str_hash-mystrcasecmp :
    (s t : CStr) → IsText s → IsText t → mystrcasecmp s t ≡ pos 0 → str_hash s ≡ str_hash t
unfolding str_hash
str_hash-mystrcasecmp s t hs ht h = hash_from-lower 0 s t ((mystrcasecmp-eq-zero s t hs ht).0 h)

-- A hash is a number of 32 bits.
pub str_hash-lt : (s : CStr) → str_hash s < 2 ^ 32
unfolding str_hash
str_hash-lt s = hash_from-lt 0 s (omega arith)
