-- ===== src/Numbers/Division.antt =====
-- `do_divide`, `do_modulus` and `do_add` of server/numbers.c on integers.
use native.Mathlib.Nat.{div-add-mod}
use waverous.Base.{
  ℕ, zero, suc, ◌+◌, ◌-◌, ◌*◌, ◌/◌, ◌%◌, ◌^◌, ◌<◌, ◌≡◌, ◌≢◌, refl, ap, sym, ◌∙◌, Bool, true, false,
  not, ℤ, pos, negsuc, arith,
}
use waverous.Numbers.{IsInt32, neg, quotient, remainder, bits, of_bits, add32, sub32}

-- |n|
abbrev pub magnitude : ℤ → ℕ
magnitude (pos n) = n
magnitude (negsuc n) = suc n

abbrev pub negative : ℤ → Bool
negative (pos n) = false
negative (negsuc n) = true

abbrev pub differ : Bool → Bool → Bool
differ true b = not b
differ false b = b

-- What holds of a quotient that is cut off towards zero and of its remainder: their sizes make up
-- the dividend's, the remainder is the smaller, and it has the dividend's sign.
pub record Divides (a b q r : ℤ) : Type 0 where
  pub sizes : magnitude a ≡ magnitude b * magnitude q + magnitude r
  pub smaller : magnitude r < magnitude b
  pub sign_of_remainder : r ≢ pos 0 → (negative r ≡ negative a)
  pub sign_of_quotient : q ≢ pos 0 → (negative q ≡ differ (negative a) (negative b))

magnitude-neg : (n : ℕ) → magnitude (neg n) ≡ n
magnitude-neg zero = refl
magnitude-neg (suc n) = refl

negative-neg : (n : ℕ) → neg n ≢ pos 0 → negative (neg n) ≡ true
negative-neg zero h = absurd (h refl)
negative-neg (suc n) h = refl

sizes_of : (m n : ℕ) → m ≡ n * (m / n) + m % n
sizes_of m n = sym (div-add-mod m n)

-- By the four signs.
pub Divides-exact : (a b : ℤ) → b ≢ pos 0 → Divides a b (quotient a b) (remainder a b)
Divides-exact (pos a) (pos zero) nz = absurd (nz refl)
Divides-exact (pos a) (pos (suc b)) nz = record {
  sizes = sizes_of a (suc b);
  smaller = omega arith;
  sign_of_remainder = λ h. refl;
  sign_of_quotient = λ h. refl;
}
Divides-exact (pos a) (negsuc b) nz = record {
  sizes = rw (magnitude-neg (a / suc b)) (sizes_of a (suc b));
  smaller = omega arith;
  sign_of_remainder = λ h. refl;
  sign_of_quotient = λ h. negative-neg (a / suc b) h;
}
Divides-exact (negsuc a) (pos zero) nz = absurd (nz refl)
Divides-exact (negsuc a) (pos (suc b)) nz = record {
  sizes =
      rw (magnitude-neg (suc a / suc b), magnitude-neg (suc a % suc b)) (sizes_of (suc a) (suc b));
  smaller = rw (magnitude-neg (suc a % suc b)) (omega arith);
  sign_of_remainder = λ h. negative-neg (suc a % suc b) h;
  sign_of_quotient = λ h. negative-neg (suc a / suc b) h;
}
Divides-exact (negsuc a) (negsuc b) nz = record {
  sizes = rw (magnitude-neg (suc a % suc b)) (sizes_of (suc a) (suc b));
  smaller = rw (magnitude-neg (suc a % suc b)) (omega arith);
  sign_of_remainder = λ h. negative-neg (suc a % suc b) h;
  sign_of_quotient = λ h. refl;
}

-- A number and its 32 bits determine each other.
of_bits-bits : (a : ℤ) → IsInt32 a → of_bits (bits a) ≡ a
unfolding of_bits bits
of_bits-bits (pos n) h = ground arith
of_bits-bits (negsuc n) h = ground arith

bits-of_bits : (w : ℕ) → w < 2 ^ 32 → bits (of_bits w) ≡ w
unfolding of_bits bits
bits-of_bits w h = ground arith

bits-lt : (a : ℤ) → bits a < 2 ^ 32
unfolding bits
bits-lt (pos n) = omega arith
bits-lt (negsuc n) = omega arith

-- For an `int32`, subtracting what was added gives it back, wrapped around or not.
pub sub32-add32 : (a b : ℤ) → IsInt32 a → sub32 (add32 a b) b ≡ a
unfolding add32 sub32
sub32-add32 a b h =
    rw (bits-of_bits ((bits a + bits b) % 2 ^ 32) (omega arith))
      (ap of_bits (cancel (bits a) (bits b) (bits-lt a) (bits-lt b)) ∙ of_bits-bits a h)
  where
    cancel : (x y : ℕ) → x < 2 ^ 32 → y < 2 ^ 32 → ((x + y) % 2 ^ 32 + 2 ^ 32 - y) % 2 ^ 32 ≡ x
    cancel x y hx hy = omega arith
