-- ===== src/Numbers/Power.antt =====
-- `do_power` of server/numbers.c for integers.
use native.Mathlib.Nat.{pow-suc, pow-zero, div-add-mod, add-mul-mod_self_left}
use waverous.Base.{
  ℕ, zero, suc, ◌+◌, ◌*◌, ◌/◌, ◌%◌, ◌^◌, ◌<◌, ◌≡◌, ap, sym, ◌∙◌, inl, inr, false, some, ℤ, pos,
  arith, ◌==◌, if◌then◌else◌, Bool-cases,
}
use waverous.Values.{int}
use waverous.Numbers.{bits, of_bits, pow_loop, int_power}

mod-mul : (m x y : ℕ) → x % m * y % m ≡ x * y % m
mod-mul m x y =
    sym (add-mul-mod_self_left (x % m * y) m (x / m * y))
    ∙ ap (λ n. n % m) (split ∙ ap (λ n. n * y) (div-add-mod x m))
  where
    split : x % m * y + m * (x / m * y) ≡ (m * (x / m) + x % m) * y
    split = omega arith

mul-mod : (m x y : ℕ) → x * (y % m) % m ≡ x * y % m
mul-mod m x y = ap (λ n. n % m) (omega arith) ∙ mod-mul m y x ∙ ap (λ n. n % m) (omega arith)

-- A base may be reduced before the power is taken.
pow-mod : (m x y k : ℕ) → x * (y % m) ^ k % m ≡ x * y ^ k % m
pow-mod m x y zero = rw (pow-zero (y % m), pow-zero y)
pow-mod m x y (suc k) =
    rw (pow-suc (y % m) k, pow-suc y k)
      (ap (λ n. n % m) (regroup x ((y % m) ^ k) (y % m))
        ∙ pow-mod m (x * (y % m)) y k
        ∙ ap (λ n. n % m) (sym (regroup x (y ^ k) (y % m)) ∙ regroup' x (y ^ k) (y % m))
        ∙ mul-mod m (x * y ^ k) y
        ∙ ap (λ n. n % m) (sym (regroup' x (y ^ k) y)))
  where
    regroup : (a b c : ℕ) → a * (b * c) ≡ a * c * b
    regroup a b c = omega arith

    regroup' : (a b c : ℕ) → a * (b * c) ≡ a * b * c
    regroup' a b c = omega arith

pow_double : (a k : ℕ) → (a * a) ^ k ≡ a ^ (k + k)
pow_double a zero = rw (pow-zero (a * a)) (sym (pow-zero a))
pow_double a (suc k) =
    pow-suc (a * a) k
    ∙ ap (λ n. n * (a * a)) (pow_double a k)
    ∙ regroup (a ^ (k + k)) a
    ∙ ap (λ n. n * a) (sym (pow-suc a (k + k)))
    ∙ sym (pow-suc a (suc (k + k)))
    ∙ ap (λ n. a ^ n) (omega arith)
  where
    regroup : (x y : ℕ) → x * (y * y) ≡ x * y * y
    regroup x y = omega arith

-- The two ways a round of the loop goes on, as powers.
even_power : (a b : ℕ) → b % 2 ≡ 0 → (a * a) ^ (b / 2) ≡ a ^ b
even_power a b h = pow_double a (b / 2) ∙ ap (λ n. a ^ n) (omega arith)

odd_power : (a b : ℕ) → b % 2 ≡ 1 → a * (a * a) ^ (b / 2) ≡ a ^ b
odd_power a b h =
    ap (λ n. a * n) (pow_double a (b / 2))
    ∙ (omega arith)
    ∙ sym (pow-suc a (b / 2 + b / 2))
    ∙ ap (λ n. a ^ n) (omega arith)

half_lt : (f b : ℕ) → b < 2 ^ suc f → b / 2 < 2 ^ f
half_lt f b h = omega (arith, pow-suc 2 f)

round_even : (m r a b : ℕ) → b % 2 ≡ 0 → r * (a * a % m) ^ (b / 2) % m ≡ r * a ^ b % m
round_even m r a b h = pow-mod m r (a * a) (b / 2) ∙ ap (λ n. r * n % m) (even_power a b h)

round_odd : (m r a b : ℕ) → b % 2 ≡ 1 → r * a % m * (a * a % m) ^ (b / 2) % m ≡ r * a ^ b % m
round_odd m r a b h =
    mod-mul m (r * a) ((a * a % m) ^ (b / 2))
    ∙ pow-mod m (r * a) (a * a) (b / 2)
    ∙ ap (λ n. n % m) (regroup r a ((a * a) ^ (b / 2)) ∙ ap (λ n. r * n) (odd_power a b h))
  where
    regroup : (x y z : ℕ) → x * y * z ≡ x * (y * z)
    regroup x y z = omega arith

pow_loop-done :
    (fuel r a b : ℕ) → b ≡ 0 → r < 2 ^ 32 → pow_loop (suc fuel) r a b ≡ some (r * a ^ b % 2 ^ 32)
unfolding pow_loop
pow_loop-done fuel r a b e l = rw (e, pow-zero a) (ap some (omega arith))

pow_loop-more :
    (fuel r a b : ℕ)
    → (b == 0) ≡ false
    → pow_loop (suc fuel) r a b
      ≡ pow_loop fuel (if b % 2 == 0 then r else r * a % 2 ^ 32) (a * a % 2 ^ 32) (b / 2)
unfolding pow_loop
pow_loop-more fuel r a b h = rw h

-- As many rounds as the exponent has bits, and one more, are enough.
pow_loop-pow :
    (fuel r a b : ℕ)
    → b < 2 ^ fuel
    → r < 2 ^ 32
    → pow_loop (suc fuel) r a b ≡ some (r * a ^ b % 2 ^ 32)
pow_loop-pow zero r a b h l = pow_loop-done zero r a b (omega (arith, pow-zero 2)) l
pow_loop-pow (suc fuel) r a b h l = elim (Bool-cases (b == 0)) [
  | inl z ↦ pow_loop-done (suc fuel) r a b (ground arith) l
  | inr n ↦ elim (Bool-cases (b % 2 == 0)) [
    | inl even ↦
        pow_loop-more (suc fuel) r a b n
        ∙ (rw even (pow_loop-pow fuel r (a * a % 2 ^ 32) (b / 2) (half_lt fuel b h) l))
        ∙ ap some (round_even (2 ^ 32) r a b (ground arith))
    | inr odd ↦
        pow_loop-more (suc fuel) r a b n
        ∙ (rw odd (
            pow_loop-pow fuel (r * a % 2 ^ 32) (a * a % 2 ^ 32) (b / 2) (half_lt fuel b h)
              (omega arith)))
        ∙ ap some (round_odd (2 ^ 32) r a b (ground arith))
  ]
]

-- For an exponent from 0 to 2^31 - 1, the integer branch of `do_power` ends and gives the low 32
-- bits of the base's true power.
pub int_power-pow :
    (a : ℤ) (b : ℕ) → b < 2 ^ 31 → int_power a (pos b) ≡ some (int (of_bits (bits a ^ b % 2 ^ 32)))
unfolding int_power
int_power-pow a b h =
    rw (pow_loop-pow 31 1 (bits a) b h (omega arith))
      (ap (λ n. some (int (of_bits (n % 2 ^ 32)))) (omega arith))
