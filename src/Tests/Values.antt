-- ===== src/Tests/Values.antt =====
-- The values of the language on small cases: server/numbers.c, server/list.c and `equality`.
use waverous.Base.{
  ◌≡◌, refl, Bool, true, false, some, ℤ, pos, negsuc, List, [], ◌∷◌, ◌^◌, ◌%◌, ◌==◌, ◌+◌, ◌-◌, ◌*◌,
  ◌/◌, ltb, ◌↔◌, eqz, arith, ℕ,
}
use waverous.Values.{Var, int, str, list, nil, cons}
use waverous.Numbers.{
  of_bits, bits, int_power, mod32, add32, Floats, do_divide, do_modulus, division_op, type_of,
}
use waverous.Numbers.Power.{int_power-pow}
use waverous.Numbers.Quotients.{Divided, do_divide-Divided}
use waverous.Equality.{equality}
use waverous.Equality.Laws.{equality_iff}

-- {1, "a"}
abbrev pair : Var
pair = list (cons (int (pos 1)) (cons (str (97 ∷ [])) nil))

-- Two doubles are the same here if their bits are.
abbrev same_bits : ℕ → ℕ → Bool
same_bits a b = a == b

abbrev three : List ℕ
three = 5 ∷ 6 ∷ 7 ∷ []

abbrev patch : List ℕ
patch = 8 ∷ 9 ∷ []

-- -7
abbrev minus_seven : ℤ
minus_seven = negsuc 6

-- Doubles whose values are the numbers 0, 1, ... themselves, with all results real.
abbrev bit_floats : Floats
bit_floats = record {
  fadd = λ a b. a + b;
  fsub = λ a b. a - b;
  fmul = λ a b. a * b;
  fdiv = λ a b. a / b;
  fmod = λ a b. a % b;
  feq = λ a b. a == b;
  flt = λ a b. ltb a b;
  fzero = 0;
  is_real = λ a. true;
  pow = λ a b. a ^ b;
  pow_errno = λ a b. false;
  of_int = λ n. bits n;
}

sum_wraps : add32 (pos 2147483647) (pos 1) ≡ negsuc 2147483647
unfolding add32 of_bits bits
sum_wraps = refl

int_power-pow_example :
    int_power (negsuc 2) (pos 5) ≡ some (int (of_bits (bits (negsuc 2) ^ 5 % 2 ^ 32)))
int_power-pow_example = int_power-pow (negsuc 2) 5 (omega arith)

do_divide-Divided_example :
    Divided bit_floats
      (int minus_seven)
      (int (pos 2))
      (do_divide bit_floats (int minus_seven) (int (pos 2)))
      (do_modulus bit_floats (int minus_seven) (int (pos 2)))
do_divide-Divided_example = do_divide-Divided bit_floats (int minus_seven) (int (pos 2))

-- -7 % 2 is -1
minus_seven_modulus : do_modulus bit_floats (int minus_seven) (int (pos 2)) ≡ some (int (negsuc 0))
unfolding do_modulus division_op mod32 type_of eqz
minus_seven_modulus = refl

equality_iff_example : (equality same_bits true pair pair ≡ some true) ↔ (pair ≡ pair)
equality_iff_example = equality_iff same_bits pair pair (tt, (tt, tt))

-- {1, {1, "a"}} and "a"
abbrev one_and_pair : List Var
one_and_pair = int (pos 1) ∷ pair ∷ []

abbrev letter : Var
letter = str (97 ∷ [])
