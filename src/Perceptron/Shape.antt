-- ===== src/Perceptron/Shape.antt =====
-- What a network of cjunk/practice/perceptron.cc gives out.
use cpp_examples.Prelude.{
  ℕ, zero, suc, ◌+◌, ◌≤◌, ◌≡◌, refl, ap, some, List, [], ◌∷◌, arith, length, get_elem?_total,
}
use cpp_examples.Perceptron.{
  Doubles, sigmoid, draws, make_perceptron, make_layer, make_network, sum_from, run, run_layer,
  run_layers, run_network,
}

module _ (doubles : Doubles) where
  open doubles use {Double, zero_double}

  length-draws : (random : ℕ → Double) (i count : ℕ) → length (draws doubles random i count) ≡ count
  unfolding draws
  length-draws random i zero = refl
  length-draws random i (suc count) = ap suc (length-draws random (i + 1) count)

  -- With a weight for each input, the sum is there.
  sum_from_total :
      (weights : List Double) (i : ℕ) (sum : Double) (x : List Double)
      → i + length x ≤ length weights
      → (total : Double) × (sum_from doubles weights i sum x ≡ some total)
  unfolding sum_from
  sum_from_total weights i sum [] h = (sum, refl)
  sum_from_total weights i sum (y ∷ ys) h =
      let (w, found) = get_elem?_total weights i (omega arith) in
      let (total, done) =
        sum_from_total weights (i + 1) (doubles.plus sum (doubles.times y w)) ys (omega arith) in
      (total, rw (found, done) refl)

  run_total :
      (random : ℕ → Double) (inputs : ℕ) (x : List Double)
      → length x ≤ inputs
      → (y : Double) × (run doubles (make_perceptron doubles random inputs) x ≡ some y)
  unfolding run make_perceptron
  run_total random inputs x h =
      let count = length-draws random 0 inputs in
      let (total, done) =
        sum_from_total (draws doubles random 0 inputs) 0 zero_double x (omega arith) in
      (sigmoid doubles (doubles.plus total (doubles.one)), rw done refl)

  run_layer_total :
      (random : ℕ → ℕ → Double) (inputs k outputs : ℕ) (x : List Double)
      → length x ≤ inputs
      → (ys : List Double) × ((run_layer doubles (make_layer doubles random inputs k outputs) x
            ≡ some ys)
          × (length ys ≡ outputs))
  unfolding run_layer make_layer
  run_layer_total random inputs k zero x h = ([], (refl, refl))
  run_layer_total random inputs k (suc outputs) x h =
      let (y, one) = run_total (random k) inputs x h in
      let (ys, (more, count)) = run_layer_total random inputs (k + 1) outputs x h in
      (y ∷ ys, (rw (one, more) refl, ap suc count))

  run_layers_total :
      (random : ℕ → ℕ → ℕ → Double) (inputs outputs l hidden : ℕ) (x : List Double)
      → length x ≤ inputs
      → (ys : List Double) × ((run_layers doubles
              (make_network doubles random inputs outputs l hidden)
              x
            ≡ some ys)
          × (length ys ≡ outputs))
  unfolding run_layers make_network
  run_layers_total random inputs outputs l zero x h =
      let (ys, (done, count)) = run_layer_total (random l) inputs 0 outputs x h in
      (ys, (rw done refl, count))
  run_layers_total random inputs outputs l (suc hidden) x h =
      let (ys, (done, count)) = run_layer_total (random l) inputs 0 inputs x h in
      let (zs, (rest, size)) =
        run_layers_total random inputs outputs (l + 1) hidden ys (omega arith) in
      (zs, (rw (done, rest) refl, size))

  -- A network as its constructor makes it runs on every input with no access out of bounds, and gives
  -- as many numbers as it has outputs; they are the same for every input.
  pub run_network-constant :
      (random : ℕ → ℕ → ℕ → Double) (inputs outputs hidden : ℕ)
      → (ys : List Double) × ((length ys ≡ outputs)
          × ((x : List Double)
              → run_network doubles (make_network doubles random inputs outputs 0 hidden) x
                ≡ some ys))
  unfolding run_network
  run_network-constant random inputs outputs hidden =
      let (ys, (done, count)) = run_layers_total random inputs outputs 0 hidden [] (omega arith) in
      (ys, (count, λ x. done))
