-- ===== src/Numbers.antt =====
-- The arithmetic of the MOO language, server/numbers.c. An `int32` is an integer of the model; its
-- sum, difference and product wrap around at 32 bits, as the machine's do.
pub mod Power
pub mod Division
pub mod Quotients
pub mod Shorts
use waverous.Base.{
  ℕ, zero, suc, ◌+◌, ◌-◌, ◌*◌, ◌/◌, ◌%◌, ◌^◌, ◌≤◌, ◌<◌, Bool, true, false, ◌&&◌, ◌||◌, not, Option,
  none, some, ℤ, pos, negsuc, ltb, ◌==◌, eqz, if◌then◌else◌,
}
use waverous.Values.{
  Var, int, obj, str, err, list, clear, unset, catch, finally, float, Error, e_type, e_div, e_float,
}

-- The 32 bits of an `int32`, and the number that 32 bits stand for.
unfoldable pub bits : ℤ → ℕ
bits (pos n) = n % 2 ^ 32
bits (negsuc n) = 2 ^ 32 - 1 - n % 2 ^ 32

unfoldable pub of_bits : ℕ → ℤ
of_bits w = if ltb w (2 ^ 31) then pos w else negsuc (2 ^ 32 - 1 - w)

-- A value of the type `int32`.
abbrev pub IsInt32 : ℤ → Type 0
IsInt32 (pos n) = n < 2 ^ 31
IsInt32 (negsuc n) = n < 2 ^ 31

unfoldable pub add32 : ℤ → ℤ → ℤ
add32 a b = of_bits ((bits a + bits b) % 2 ^ 32)

unfoldable pub sub32 : ℤ → ℤ → ℤ
sub32 a b = of_bits ((bits a + 2 ^ 32 - bits b) % 2 ^ 32)

unfoldable pub mul32 : ℤ → ℤ → ℤ
mul32 a b = of_bits (bits a * bits b % 2 ^ 32)

-- `a / b` and `a % b` for `b != 0`: the quotient is cut off towards zero. `none` is the one
-- quotient that is no `int32`, on which the machine traps.
abbrev pub overflows : ℤ → ℤ → Bool
overflows a b = eqz a (negsuc (2 ^ 31 - 1)) && eqz b (negsuc 0)

-- -n
abbrev pub neg : ℕ → ℤ
neg zero = pos 0
neg (suc n) = negsuc n

abbrev pub quotient : ℤ → ℤ → ℤ
quotient (pos a) (pos b) = pos (a / b)
quotient (pos a) (negsuc b) = neg (a / suc b)
quotient (negsuc a) (pos b) = neg (suc a / b)
quotient (negsuc a) (negsuc b) = pos (suc a / suc b)

abbrev pub remainder : ℤ → ℤ → ℤ
remainder (pos a) (pos b) = pos (a % b)
remainder (pos a) (negsuc b) = pos (a % suc b)
remainder (negsuc a) (pos b) = neg (suc a % b)
remainder (negsuc a) (negsuc b) = neg (suc a % suc b)

unfoldable pub div32 : ℤ → ℤ → Option ℤ
div32 a b = if overflows a b then none else some (quotient a b)

unfoldable pub mod32 : ℤ → ℤ → Option ℤ
mod32 a b = if overflows a b then none else some (remainder a b)

unfoldable pub compare_integers : ℤ → ℤ → ℤ
compare_integers (pos a) (pos b) = if ltb a b then negsuc 0 else if a == b then pos 0 else pos 1
compare_integers (pos a) (negsuc b) = pos 1
compare_integers (negsuc a) (pos b) = negsuc 0
compare_integers (negsuc a) (negsuc b) =
    if ltb b a then negsuc 0 else if a == b then pos 0 else pos 1

-- `v.type`
unfoldable pub type_of : Var → ℕ
type_of (int n) = 0
type_of (obj o) = 1
type_of (str s) = 0x82
type_of (err e) = 3
type_of (list l) = 0x84
type_of clear = 5
type_of unset = 6
type_of (catch n) = 7
type_of (finally n) = 8
type_of (float d) = 0x89

-- The operations of the machine on doubles, of which the model knows nothing.
pub record Floats : Type 0 where
  pub fadd : ℕ → ℕ → ℕ
  pub fsub : ℕ → ℕ → ℕ
  pub fmul : ℕ → ℕ → ℕ
  pub fdiv : ℕ → ℕ → ℕ
  pub fmod : ℕ → ℕ → ℕ
  pub feq : ℕ → ℕ → Bool
  pub flt : ℕ → ℕ → Bool
  pub fzero : ℕ
  pub is_real : ℕ → Bool
  -- `pow` of the C library, and whether it set `errno`.
  pub pow : ℕ → ℕ → ℕ
  pub pow_errno : ℕ → ℕ → Bool
  -- `(double) n`
  pub of_int : ℤ → ℕ

-- `while (b != 0) { if (b % 2 != 0) r *= a; a *= a; b >>= 1; }` on 32 bits, with fuel.
unfoldable pub pow_loop : ℕ → (r a b : ℕ) → Option ℕ
pow_loop zero r a b = none
pow_loop (suc fuel) r a b =
    let rest = pow_loop fuel (if b % 2 == 0 then r else r * a % 2 ^ 32) (a * a % 2 ^ 32) (b / 2) in
    if b == 0 then some r else rest

abbrev bits_int : Option ℕ → Option Var
bits_int none = none
bits_int (some r) = some (int (of_bits r))

-- The integer branch of `do_power`; 32 rounds are enough for an exponent of 31 bits.
unfoldable pub int_power : ℤ → ℤ → Option Var
int_power a (pos b) = bits_int (pow_loop 32 1 (bits a) b)
int_power a (negsuc b) =
    if eqz a (negsuc 0)
    then some (int (if suc b % 2 == 0 then pos 1 else negsuc 0))
    else if eqz a (pos 0)
    then some (err e_div)
    else if eqz a (pos 1)
    then some (int (pos 1))
    else some (int (pos 0))

module _ (fl : Floats) where
  abbrev float_power : ℕ → ℕ → Var
  float_power a d =
      if fl.pow_errno a d || not (fl.is_real (fl.pow a d)) then err e_float else float (fl.pow a d)

  unfoldable pub do_power : Var → Var → Option Var
  unfolding int_power
  do_power (int a) (int b) = int_power a b
  do_power (float a) (int b) = some (float_power a (fl.of_int b))
  do_power (float a) (float b) = some (float_power a b)
  do_power _ _ = some (err e_type)

  unfoldable pub compare_numbers : Var → Var → Option Var
  unfolding type_of compare_integers
  compare_numbers a b = if not (type_of a == type_of b) then some (err e_type) else same_type a b
    where
      same_type : Var → Var → Option Var
      same_type (int m) (int n) = some (int (compare_integers m n))
      same_type (float m) (float n) =
          some (int (if fl.flt m n then negsuc 0 else if fl.feq m n then pos 0 else pos 1))
      same_type _ _ = none

  abbrev pub checked_float : ℕ → Var
  checked_float d = if fl.is_real d then float d else err e_float

  -- The macro SIMPLE_BINARY; `none` is a read of the wrong member of the union.
  abbrev simple_operands : (ℤ → ℤ → ℤ) → (ℕ → ℕ → ℕ) → Var → Var → Option Var
  simple_operands iop fop (int a) (int b) = some (int (iop a b))
  simple_operands iop fop (float a) (float b) = some (checked_float (fop a b))
  simple_operands iop fop _ _ = none

  unfoldable pub simple_binary : (ℤ → ℤ → ℤ) → (ℕ → ℕ → ℕ) → Var → Var → Option Var
  unfolding type_of
  simple_binary iop fop a b =
      if not (type_of a == type_of b) then some (err e_type) else simple_operands iop fop a b

  unfoldable pub do_add : Var → Var → Option Var
  unfolding simple_binary
  do_add = simple_binary add32 fl.fadd

  unfoldable pub do_subtract : Var → Var → Option Var
  unfolding simple_binary
  do_subtract = simple_binary sub32 fl.fsub

  unfoldable pub do_multiply : Var → Var → Option Var
  unfolding simple_binary
  do_multiply = simple_binary mul32 fl.fmul

  abbrev as_int : Option ℤ → Option Var
  as_int none = none
  as_int (some q) = some (int q)

  -- The macro DIVISION_OP. Operands of one type that is no number give E_DIV too.
  abbrev pub division_operands : (ℤ → ℤ → Option ℤ) → (ℕ → ℕ → ℕ) → Var → Var → Option Var
  division_operands iop fop (int a) (int b) =
      if eqz b (pos 0) then some (err e_div) else as_int (iop a b)
  division_operands iop fop (float a) (float b) =
      if fl.feq b fl.fzero then some (err e_div) else some (checked_float (fop a b))
  division_operands iop fop _ _ = some (err e_div)

  unfoldable pub division_op : (ℤ → ℤ → Option ℤ) → (ℕ → ℕ → ℕ) → Var → Var → Option Var
  unfolding type_of
  division_op iop fop a b =
      if not (type_of a == type_of b) then some (err e_type) else division_operands iop fop a b

  unfoldable pub do_divide : Var → Var → Option Var
  unfolding division_op
  do_divide = division_op div32 fl.fdiv

  unfoldable pub do_modulus : Var → Var → Option Var
  unfolding division_op
  do_modulus = division_op mod32 fl.fmod
