-- ===== src/Numbers/Quotients.antt =====
-- The macro DIVISION_OP of server/numbers.c on any two values.
use waverous.Base.{
  ℕ, ◌≡◌, ◌≢◌, refl, inl, inr, Bool, true, false, Option, none, some, ℤ, pos, negsuc, eqz, eqz_iff,
  arith, ◌==◌, ◌&&◌, Bool-cases,
}
use waverous.Values.{
  Var, int, obj, str, err, list, clear, unset, catch, finally, float, e_type, e_div,
}
use waverous.Numbers.{
  Floats, type_of, overflows, div32, mod32, checked_float, division_operands, division_op,
  do_divide, do_modulus,
}
use waverous.Numbers.Division.{Divides, Divides-exact}

abbrev pub is_number : Var → Bool
is_number (int n) = true
is_number (float d) = true
is_number _ = false

-- What two operands give divided, and what modulo each other.
pub data Divided (fl : Floats) : Var → Var → Option Var → Option Var → Type 0 where
  mistyped :
      {x y : Var} → type_of x ≢ type_of y → Divided fl x y (some (err e_type)) (some (err e_type))
  by_zero : {a : ℤ} → Divided fl (int a) (int (pos 0)) (some (err e_div)) (some (err e_div))
  trapped : Divided fl (int (negsuc 2147483647)) (int (negsuc 0)) none none
  exact :
      {a b q r : ℤ}
      → b ≢ pos 0
      → overflows a b ≡ false
      → Divides a b q r
      → Divided fl (int a) (int b) (some (int q)) (some (int r))
  by_float_zero :
      {d e : ℕ}
      → fl.feq e fl.fzero ≡ true
      → Divided fl (float d) (float e) (some (err e_div)) (some (err e_div))
  floats :
      {d e : ℕ}
      → fl.feq e fl.fzero ≡ false
      → Divided fl
          (float d)
          (float e)
          (some (checked_float fl (fl.fdiv d e)))
          (some (checked_float fl (fl.fmod d e)))
  no_numbers :
      {x y : Var}
      → type_of x ≡ type_of y
      → is_number x ≡ false
      → Divided fl x y (some (err e_div)) (some (err e_div))

only_int : (y : Var) → type_of y ≡ 0 → (b : ℤ) × (y ≡ int b)
unfolding type_of
only_int (int b) h = (b, refl)
only_int (obj o) h = absurd (omega arith)
only_int (str s) h = absurd (omega arith)
only_int (err e) h = absurd (omega arith)
only_int (list l) h = absurd (omega arith)
only_int clear h = absurd (omega arith)
only_int unset h = absurd (omega arith)
only_int (catch n) h = absurd (omega arith)
only_int (finally n) h = absurd (omega arith)
only_int (float d) h = absurd (omega arith)

only_float : (y : Var) → type_of y ≡ 0x89 → (e : ℕ) × (y ≡ float e)
unfolding type_of
only_float (int b) h = absurd (omega arith)
only_float (obj o) h = absurd (omega arith)
only_float (str s) h = absurd (omega arith)
only_float (err e) h = absurd (omega arith)
only_float (list l) h = absurd (omega arith)
only_float clear h = absurd (omega arith)
only_float unset h = absurd (omega arith)
only_float (catch n) h = absurd (omega arith)
only_float (finally n) h = absurd (omega arith)
only_float (float e) h = (e, refl)

overflows-parts : (a b : ℤ) → overflows a b ≡ true → (a ≡ negsuc 2147483647) × (b ≡ negsuc 0)
overflows-parts a b h =
    let parts = both (eqz a (negsuc 2147483647)) (eqz b (negsuc 0)) h in
    ((eqz_iff a (negsuc 2147483647)).0 parts.0, (eqz_iff b (negsuc 0)).0 parts.1)
  where
    both : (p q : Bool) → (p && q) ≡ true → (p ≡ true) × (q ≡ true)
    both true q e = (refl, e)
    both false q e = cc

nonzero : (b : ℤ) → eqz b (pos 0) ≡ false → b ≢ pos 0
nonzero b h e = let t : eqz b (pos 0) ≡ true = (eqz_iff b (pos 0)).1 e in cc

module _ (fl : Floats) where
  -- Both operators on two operands.
  abbrev Both : Var → Var → Type 0
  Both x y =
      Divided fl x y (division_operands fl div32 fl.fdiv x y)
        (division_operands fl mod32 fl.fmod x y)

  ints : (a b : ℤ) → Both (int a) (int b)
  unfolding div32 mod32 eqz
  ints a b = elim (Bool-cases (eqz b (pos 0))) [
    | inl z ↦ let zero_b : b ≡ pos 0 = (eqz_iff b (pos 0)).0 z in rw zero_b by_zero
    | inr nz ↦ elim (Bool-cases (overflows a b)) [
      | inl o ↦ let (least, minus_one) = overflows-parts a b o in rw (least, minus_one) trapped
      | inr f ↦ rw (nz, f) (exact (nonzero b nz) f (Divides-exact a b (nonzero b nz)))
    ]
  ]

  doubles : (d e : ℕ) → Both (float d) (float e)
  doubles d e = elim (Bool-cases (fl.feq e fl.fzero)) [
    | inl z ↦ rw z (by_float_zero z)
    | inr f ↦ rw f (floats f)
  ]

  operands : (x y : Var) → type_of x ≡ type_of y → Both x y
  unfolding type_of
  operands (int a) y h = let (b, e) = only_int y (cc) in rw e (ints a b)
  operands (float d) y h = let (b, e) = only_float y (cc) in rw e (doubles d b)
  operands (obj o) y h = no_numbers h refl
  operands (str s) y h = no_numbers h refl
  operands (err e) y h = no_numbers h refl
  operands (list l) y h = no_numbers h refl
  operands clear y h = no_numbers h refl
  operands unset y h = no_numbers h refl
  operands (catch n) y h = no_numbers h refl
  operands (finally n) y h = no_numbers h refl

-- For any two values, `do_divide` and `do_modulus` give E_TYPE if the types differ, and E_DIV for a
-- divisor that is the integer or the double zero and for two values of one type that is no number.
-- For integers else, both trap for the least integer and -1, and give the quotient cut off
-- towards zero and its remainder otherwise; for doubles, the machine's own or E_FLOAT.
pub do_divide-Divided :
    (fl : Floats) (x y : Var) → Divided fl x y (do_divide fl x y) (do_modulus fl x y)
unfolding do_divide do_modulus division_op
do_divide-Divided fl x y = elim (Bool-cases (type_of x == type_of y)) [
  | inl t ↦ rw t (operands fl x y (ground arith))
  | inr f ↦ rw f (mistyped (ground arith))
]
