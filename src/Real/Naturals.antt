-- ===== src/Real/Naturals.antt =====
-- Natural numbers in the place of `double`, for the tests of the programs of cjunk/practice.
use cpp_examples.Prelude.{ℕ, ◌+◌, ◌-◌, ◌*◌, ◌/◌, ◌^◌, ltb}
use cpp_examples.Real.{Real}

instance abbrev pub naturals : Real ℕ
naturals = record {
  literal = λ m d. m / 10 ^ d;
  plus = λ a b. a + b;
  minus = λ a b. a - b;
  times = λ a b. a * b;
  divide = λ a b. a / b;
  negate = λ a. 0;
  less = ltb;
  sqrt = λ a. a;
  pow = λ a b. a ^ b;
  exp = λ a. a;
  cos = λ a. 1;
  sin = λ a. a;
  atan = λ a. a;
  atan2 = λ a b. a;
  pi = 3;
  largest = 1000;
}
