-- ===== src/Streams/Digits.antt =====
-- The numbers that `itoa` of server/streams.c writes.
use waverous.Base.{
  ℕ, zero, suc, ◌+◌, ◌-◌, ◌*◌, ◌/◌, ◌%◌, ◌^◌, ◌≤◌, ◌<◌, ◌≡◌, ◌≢◌, ◌⊎◌, refl, ap, ◌∙◌, inl, inr,
  Bool, true, ℤ, pos, negsuc, [], ◌∷◌, arith, ltb, ◌==◌, if◌then◌else◌, Bool-cases, not, Option,
  some, length, codes,
}
use native.Mathlib.Nat.{div-add-mod', mul-le-mul_left, mod-lt}
use waverous.Text.{CStr}
use waverous.Numbers.{IsInt32}
use waverous.Streams.{digit_char, digits_loop, buffer_room, itoa_least, itoa}

-- The value of a digit, and of digits behind a number.
abbrev pub digit_value : ℕ → ℕ
digit_value c = if ltb c 65 then c - 48 else c - 55

abbrev pub value_from : ℕ → ℕ → CStr → ℕ
value_from radix n [] = n
value_from radix n (c ∷ s) = value_from radix (n * radix + digit_value c) s

-- The integer that is spelled, with a sign in front or none.
abbrev pub negated : ℕ → ℤ
negated zero = pos 0
negated (suc n) = negsuc n

abbrev pub spelled : ℕ → CStr → ℤ
spelled radix [] = pos 0
spelled radix (c ∷ s) =
    if c == b'-' then negated (value_from radix 0 s) else pos (value_from radix 0 (c ∷ s))

digit_value-digit_char : (d : ℕ) → d < 16 → digit_value (digit_char d) ≡ d
digit_value-digit_char d h = ground arith

quotient-lt : (n r k : ℕ) → 4 ≤ r → n < 4 * k → n / r < k
quotient-lt n r k lo h =
    let four : n / r * 4 ≤ n / r * r = mul-le-mul_left (n / r) lo in
    let whole : n / r * r + n % r ≡ n = div-add-mod' n r in omega arith

abbrev no_sign : CStr → Bool
no_sign [] = true
no_sign (c ∷ s) = not (c == b'-')

-- The digits fit, and make up the number in front of what was there.
abbrev Written : (count n radix : ℕ) → CStr → Option CStr → Type 0
Written count n radix s r =
    (t : CStr) × (r ≡ some t)
    × (length t ≤ count + length s)
    × (value_from radix 0 t ≡ value_from radix n s)
    × (no_sign t ≡ true)

Written-none :
    (count n radix : ℕ) (s : CStr) → n ≡ 0 → no_sign s ≡ true → Written count n radix s (some s)
Written-none count n radix s e h = (s, refl, omega arith, rw e refl, h)

digits_loop-Written :
    (count room n radix : ℕ) (s : CStr)
    → count ≤ room
    → 4 ≤ radix
    → radix ≤ 16
    → n < 4 ^ count
    → no_sign s ≡ true
    → Written count n radix s (digits_loop room n radix s)
unfolding digits_loop
digits_loop-Written zero zero n radix s fits lo hi h sign =
    let e : n ≡ 0 = omega arith in rw e (Written-none 0 0 radix s refl sign)
digits_loop-Written zero (suc room) n radix s fits lo hi h sign =
    let e : n ≡ 0 = omega arith in rw e (Written-none 0 0 radix s refl sign)
digits_loop-Written (suc count) zero n radix s fits lo hi h sign = absurd (omega arith)
digits_loop-Written (suc count) (suc room) n radix s fits lo hi h sign =
    elim (Bool-cases (n == 0)) [
      | inl t ↦ rw t (Written-none (suc count) n radix s (ground arith) sign)
      | inr f ↦
          let small_digit : n % radix < 16 =
            omega (arith, mod-lt n {m = radix} (omega arith), hi) in
          let (t, e, len, value, first) =
            digits_loop-Written count room (n / radix) radix (digit_char (n % radix) ∷ s)
              (omega arith) lo hi (quotient-lt n radix (4 ^ count) lo (omega (arith, h)))
              (ground arith) in
          rw f (
            t,
            e,
            omega arith,
            value
                ∙ ap (λ m. value_from radix m s)
                    (rw (digit_value-digit_char (n % radix) small_digit) (div-add-mod' n radix)),
            first,
          )
    ]

spelled-digits :
    (radix : ℕ) (s : CStr) → no_sign s ≡ true → spelled radix s ≡ pos (value_from radix 0 s)
spelled-digits radix [] h = refl
spelled-digits radix (c ∷ s) h = ground arith

-- The sixteen digits of a radix from 4 on.
digits-Written :
    (n radix : ℕ)
    → 4 ≤ radix
    → radix ≤ 16
    → n < 2 ^ 32
    → Written 16 n radix [] (digits_loop buffer_room n radix [])
digits-Written n radix lo hi h =
    digits_loop-Written 16 buffer_room n radix [] (omega arith) lo hi (omega arith) refl

-- There is a text, and it spells the number.
abbrev pub Spells : (radix : ℕ) → ℤ → Option CStr → Type 0
Spells radix n r = (s : CStr) × (r ≡ some s) × (spelled radix s ≡ n)

-- For a number of 32 bits and a radix from 4 to 16, `itoa` writes no digit and no sign in front of
-- its buffer of 20 bytes, and the digits spell the number, in upper case and with a sign if it is
-- negative; for the least number only if the radix is 10.
pub spelled-itoa :
    (n : ℤ) (radix : ℕ)
    → IsInt32 n
    → 4 ≤ radix
    → radix ≤ 16
    → (n ≢ negsuc 2147483647) ⊎ (radix ≡ 10)
    → Spells radix n (itoa n radix)
unfolding itoa
spelled-itoa (pos n) radix i lo hi w = elim (Bool-cases (n == 0)) [
  | inl t ↦ let e : 0 * radix + 0 ≡ n = ground arith in rw t (codes "0", refl, ap pos e)
  | inr f ↦
      let (s, e, len, value, first) = digits-Written n radix lo hi (omega arith) in
      rw f (s, e, spelled-digits radix s first ∙ ap pos value)
]
spelled-itoa (negsuc n) radix i lo hi w = elim (Bool-cases (n == 2147483647)) [
  | inl t ↦ rw t (itoa_least radix, refl, least (ground arith))
  | inr f ↦
      let (s, e, len, value, first) = digits-Written (n + 1) radix lo hi (omega arith) in
      let fits : ltb (length s) buffer_room ≡ true = ground arith in
      rw (f, e, fits) (b'-' ∷ s, refl, ap negated value ∙ negated-suc)
]
  where
    negated-suc : negated (n + 1) ≡ negsuc n
    negated-suc = let e : n + 1 ≡ suc n = omega arith in ap negated e

    ten : n ≡ 2147483647 → radix ≡ 10
    ten e = elim w [ inl differs ↦ absurd (differs (ap negsuc e)) | inr t ↦ t ]

    least : n ≡ 2147483647 → spelled radix (itoa_least radix) ≡ negsuc n
    least e = rw (ten e, e) (unfold itoa_least in refl)
