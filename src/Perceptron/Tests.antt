-- ===== src/Perceptron/Tests.antt =====
-- A network over the natural numbers in place of `double`.
use cpp_examples.Prelude.{ℕ, ◌+◌, ◌*◌, ◌-◌, ◌≡◌, refl, some, List, [], ◌∷◌, length}
use cpp_examples.Perceptron.{Doubles, sigmoid, make_network, sum_from, run, run_network}
use cpp_examples.Perceptron.Shape.{run_network-constant}

-- The sigmoid is the identity here.
abbrev naturals : Doubles
naturals = record {
  Double = ℕ;
  zero_double = 0;
  plus = λ a b. a + b;
  times = λ a b. a * b;
  one = 1;
  divide = λ a b. b - a;
  negate = λ a. a;
  exp = λ a. a;
}

abbrev random : ℕ → ℕ → ℕ → ℕ
random l k i = l + 2 * k + i

run_network-constant_example :
    (ys : List ℕ) × ((length ys ≡ 2)
      × ((x : List ℕ) → run_network naturals (make_network naturals random 3 2 0 1) x ≡ some ys))
run_network-constant_example = run_network-constant naturals random 3 2 1

adds_the_bias : run naturals (record { weights = 2 ∷ 3 ∷ []; bias = 4 }) (10 ∷ 20 ∷ []) ≡ some 84
unfolding run sum_from sigmoid
adds_the_bias = refl
