-- ===== src/Real/Integers.antt =====
-- Integers in the place of `double`, with a quotient that drops the fraction.
use cpp_examples.Prelude.{suc, ◌/◌, ◌^◌}
use cpp_examples.Prelude.Int.{ℤ, pos, negsuc, ◌+ℤ◌, ◌-ℤ◌, ◌*ℤ◌, ltb_ℤ}
use cpp_examples.Real.{Real}

unfoldable pub divide_ℤ : ℤ → ℤ → ℤ
divide_ℤ (pos a) (pos b) = pos (a / b)
divide_ℤ (pos a) (negsuc b) = pos 0 -ℤ pos (a / suc b)
divide_ℤ (negsuc a) (pos b) = pos 0 -ℤ pos (suc a / b)
divide_ℤ (negsuc a) (negsuc b) = pos (suc a / suc b)

instance abbrev pub integers : Real ℤ
integers = record {
  literal = λ m d. pos (m / 10 ^ d);
  plus = λ a b. a +ℤ b;
  minus = λ a b. a -ℤ b;
  times = λ a b. a *ℤ b;
  divide = divide_ℤ;
  negate = λ a. pos 0 -ℤ a;
  less = ltb_ℤ;
  sqrt = λ a. a;
  pow = λ a b. a;
  exp = λ a. a;
  cos = λ a. pos 1;
  sin = λ a. a;
  atan = λ a. a;
  atan2 = λ a b. a;
  pi = pos 3;
  largest = pos 1000;
}
