-- ===== src/Perceptron.antt =====
-- The network of cjunk/practice/perceptron.cc. Numbers are an interface; the weights that the
-- constructors draw at random are arguments. An index out of bounds is undefined behaviour, `none`.
pub mod Shape
mod Tests
use cpp_examples.Prelude.{
  ℕ, zero, suc, ◌+◌, Option, none, some, List, [], ◌∷◌, length, get_elem?, ◌>>=◌,
}

-- `double`, with the operations of the file.
pub record Doubles : Type 1 where
  pub Double : Type 0
  pub zero_double : Double
  pub plus : Double → Double → Double
  pub times : Double → Double → Double
  pub one : Double
  pub divide : Double → Double → Double
  pub negate : Double → Double
  pub exp : Double → Double

-- `ML::Perceptron`
pub record Perceptron (Double : Type 0) : Type 0 where
  pub weights : List Double
  pub bias : Double

abbrev pub Layer : Type 0 → Type 0
Layer Double = List (Perceptron Double)

abbrev pub Network : Type 0 → Type 0
Network Double = List (Layer Double)

module _ (doubles : Doubles) where
  open doubles use {Double, zero_double, plus, times, one, divide, negate, exp}

  unfoldable pub sigmoid : Double → Double
  sigmoid x = divide one (plus one (exp (negate x)))

  -- `count` draws from number `i` on.
  unfoldable pub draws : (ℕ → Double) → ℕ → ℕ → List Double
  draws random i zero = []
  draws random i (suc count) = random i ∷ draws random (i + 1) count

  -- The constructors: `random l k i` is weight `i` of perceptron `k` of layer `l`.
  unfoldable pub make_perceptron : (ℕ → Double) → ℕ → Perceptron Double
  make_perceptron random inputs = record { weights = draws random 0 inputs; bias = one }

  unfoldable pub make_layer : (ℕ → ℕ → Double) → ℕ → ℕ → ℕ → Layer Double
  make_layer random inputs k zero = []
  make_layer random inputs k (suc outputs) =
      make_perceptron (random k) inputs ∷ make_layer random inputs (k + 1) outputs

  unfoldable pub make_network : (ℕ → ℕ → ℕ → Double) → ℕ → ℕ → ℕ → ℕ → Network Double
  make_network random inputs outputs l zero = make_layer (random l) inputs 0 outputs ∷ []
  make_network random inputs outputs l (suc hidden) =
      make_layer (random l) inputs 0 inputs ∷ make_network random inputs outputs (l + 1) hidden

  -- The loop of `Perceptron::run` from index `i` on, with the inputs that are left.
  unfoldable pub sum_from : List Double → ℕ → Double → List Double → Option Double
  sum_from weights i sum [] = some sum
  sum_from weights i sum (x ∷ xs) = do
    w ← get_elem? weights i
    sum_from weights (i + 1) (plus sum (times x w)) xs

  unfoldable pub run : Perceptron Double → List Double → Option Double
  run self x = do
    sum ← sum_from (self.weights) 0 zero_double x
    some (sigmoid (plus sum (self.bias)))

  unfoldable pub run_layer : Layer Double → List Double → Option (List Double)
  run_layer [] x = some []
  run_layer (p ∷ ps) x = do y ← run p x; ys ← run_layer ps x; some (y ∷ ys)

  -- The loop of `Network::run`, with `output` so far.
  unfoldable pub run_layers : Network Double → List Double → Option (List Double)
  run_layers [] output = some output
  run_layers (layer ∷ layers) output = do next ← run_layer layer output; run_layers layers next

  unfoldable pub run_network : Network Double → List Double → Option (List Double)
  run_network self x = run_layers self []

  -- `set_weights` of a perceptron, a layer and a network; the lists are indexed by the position.
  unfoldable pub set_weights : Perceptron Double → List Double → Perceptron Double
  set_weights self w = record self { weights = w }

  unfoldable pub set_layer_weights : Layer Double → ℕ → List (List Double) → Option (Layer Double)
  set_layer_weights [] i w = some []
  set_layer_weights (p ∷ ps) i w = do
    row ← get_elem? w i
    rest ← set_layer_weights ps (i + 1) w
    some (set_weights p row ∷ rest)

  unfoldable pub set_network_weights :
      Network Double → ℕ → List (List (List Double)) → Option (Network Double)
  set_network_weights [] i w = some []
  set_network_weights (layer ∷ layers) i w = do
    rows ← get_elem? w i
    first ← set_layer_weights layer 0 rows
    rest ← set_network_weights layers (i + 1) w
    some (first ∷ rest)
