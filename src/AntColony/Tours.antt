-- ===== src/AntColony/Tours.antt =====
-- The path that `ant` of cjunk/practice/antColonyOptimization.cc returns.
use mathlib.Core.List.{Perm}
use mathlib.Core.List.Perm
use cpp_examples.Prelude.{
  length-map, ℕ, zero, suc, ◌+◌, ◌<◌, ◌≤◌, ◌≡◌, ◌∙◌, refl, ap, some, List, [], ◌∷◌, map, arith,
  length, length-replicate, replicate, inl, inr, Bool-cases,
}
use cpp_examples.Real.{Real, ◌⊕◌, ◌⊘◌, whole}
use cpp_examples.AntColony.{iota, get_path}
use cpp_examples.AntColony.Distances.{
  IsPlane, IsTour, length-Perm, IsTour-length, IsTour-all_below, get_distance_total,
  get_visibility_total,
}
use cpp_examples.AntColony.Iteration.{
  Colony, Ant, delta_pheromone, cumulative_probability, find_next, probabilities, choose, draw_next,
  iteration, iterations, ant,
}
use cpp_examples.AntColony.Paths.{
  swap_drawn_total, length-delta_pheromone, deposit_total, length-cumulative_probability,
  find_next_below, swap_first_total,
}

module _ {Double : Type 0} ⦃real : Real Double⦄ (coordinates : List (List Double))
    (plane : IsPlane coordinates) (cities : 2 ≤ length coordinates) where
  probabilities_total :
      (colony : Colony Double) (pheromone : List Double) (sum : Double) (j count : ℕ)
      → count ≤ length pheromone
      → j + count ≤ length coordinates
      → (ps : List Double) × (total : Double) × (probabilities coordinates colony pheromone sum j
            count
          ≡ some (ps, total))
        × (length ps ≡ count)
  unfolding probabilities
  probabilities_total colony pheromone sum j zero h h' = ([], sum, refl, refl)
  probabilities_total colony [] sum j (suc count) h h' = absurd (omega arith)
  probabilities_total colony (p ∷ pheromone) sum j (suc count) h h' =
      let (v, seen) = get_visibility_total coordinates j plane (omega arith) in
      let probability = real.times (real.pow p (colony.alpha)) (real.pow v (colony.beta)) in
      let (ps, total, done, size) =
        probabilities_total colony pheromone (sum ⊕ probability) (j + 1) count (omega arith)
          (omega arith) in
      (probability ∷ ps, total, rw (seen, done) refl, ap suc size)

  -- A tour, with a pheromone for each city.
  abbrev IsReady : Ant Double → Type 0
  IsReady self = IsTour coordinates (self.path) × (length (self.pheromone) ≡ length coordinates)

  choose_total :
      (path : List ℕ) (self : Ant Double)
      → IsTour coordinates path
      → IsReady self
      → (after : Ant Double) × (choose coordinates path self ≡ some after) × IsReady after
  unfolding choose
  choose_total path self tour ready =
      let size = IsTour-length coordinates path tour in
      let (d, measured) =
        get_distance_total coordinates path plane (omega arith)
          (IsTour-all_below coordinates path tour) in
      elim (Bool-cases (real.less d (self.best_distance))) [
        | inl better ↦ (
          record self { path = path; best_distance = d },
          rw (measured, better) refl,
          (tour, ready.1),
        )
        | inr worse ↦ (self, rw (measured, worse) refl, ready)
      ]

  draw_next_total :
      (colony : Colony Double) (r : Double) (self : Ant Double)
      → IsReady self
      → (next : ℕ) × (pheromone : List Double) × (draw_next coordinates colony r self
          ≡ some (next, pheromone))
        × (next < length coordinates)
        × (length pheromone ≡ length coordinates)
  unfolding draw_next
  draw_next_total colony r self (tour, sized) =
      let size = IsTour-length coordinates (self.path) tour in
      let below = IsTour-all_below coordinates (self.path) tour in
      let (d, measured) = get_distance_total coordinates (self.path) plane (omega arith) below in
      let whole_delta = length-delta_pheromone (length (self.path)) d (omega arith) in
      let (pheromone, deposited, kept) =
        deposit_total (colony.rho) (self.pheromone) (delta_pheromone (length (self.path)) d)
          (omega arith) in
      let (ps, sum, summed, count) =
        probabilities_total colony pheromone (whole 0) 0 (length (self.path)) (omega arith)
          (omega arith) in
      let divided = length-map (λ p. p ⊘ sum) ps in
      let added = length-cumulative_probability (map (λ p. p ⊘ sum) ps) in
      let next = find_next r (cumulative_probability (map (λ p. p ⊘ sum) ps)) 0 in
      let below_size : next < length coordinates =
        find_next_below r (cumulative_probability (map (λ p. p ⊘ sum) ps)) 0 (length coordinates)
          (omega arith) (omega arith) in
      (next, pheromone, rw (measured, deposited, summed) refl, below_size, omega arith)

  -- What the documentation of `std::random_shuffle` says.
  abbrev IsShuffle : (List ℕ → List ℕ) → Type 0
  IsShuffle shuffle = (xs : List ℕ) → Perm (shuffle xs) xs

  get_path-IsTour :
      (shuffle : List ℕ → List ℕ)
      → IsShuffle shuffle
      → IsTour coordinates (get_path coordinates shuffle)
  unfolding get_path
  get_path-IsTour shuffle shuffles = shuffles (iota 0 (length coordinates))

  iteration_total :
      (colony : Colony Double) (shuffle : List ℕ → List ℕ) (r r' : Double) (self : Ant Double)
      → IsShuffle shuffle
      → IsReady self
      → (after : Ant Double) × (iteration coordinates colony shuffle r r' self ≡ some after)
        × IsReady after
  unfolding iteration
  iteration_total colony shuffle r r' self shuffles ready =
      let tour = get_path-IsTour shuffle shuffles in
      let (chosen, choice, (toured, sized)) =
        choose_total (get_path coordinates shuffle) self tour ready in
      let (next, pheromone, drawing, below, kept) =
        draw_next_total colony r chosen (toured, sized) in
      let size = IsTour-length coordinates (chosen.path) toured in
      let (drawn, first, same) = swap_drawn_total next (chosen.path) (omega arith) in
      let drawn_size = length-Perm same in
      let (path, second, same') = swap_first_total colony r' drawn (omega arith) in
      (
        record chosen { path = path; pheromone = pheromone },
        rw (choice, drawing, first, second) refl,
        (Perm.trans same' (Perm.trans same toured), kept),
      )

  iterations_total :
      (colony : Colony Double) (shuffle : ℕ → List ℕ → List ℕ) (random : ℕ → Double × Double)
      (i count : ℕ) (self : Ant Double)
      → ((j : ℕ) → IsShuffle (shuffle j))
      → IsReady self
      → (last : Ant Double) × (iterations coordinates colony shuffle random i count self
          ≡ some last)
        × IsReady last
  unfolding iterations
  iterations_total colony shuffle random i zero self shuffles ready = (self, refl, ready)
  iterations_total colony shuffle random i (suc count) self shuffles ready =
      let (r, r') = random i in
      let (after, one, ready') = iteration_total colony (shuffle i) r r' self (shuffles i) ready in
      let (last, more, ready'') =
        iterations_total colony shuffle random (i + 1) count after shuffles ready' in
      (last, rw (one, more) refl, ready'')

  -- On at least two cities with two coordinates each, and with shuffles that keep the cities, an ant
  -- makes no access out of bounds and returns a path that visits each city once.
  pub ant-IsTour :
      (colony : Colony Double) (first : List ℕ → List ℕ) (shuffle : ℕ → List ℕ → List ℕ)
      (random : ℕ → Double × Double) (count : ℕ)
      → ((xs : List ℕ) → Perm (first xs) xs)
      → ((j : ℕ) (xs : List ℕ) → Perm (shuffle j xs) xs)
      → (path : List ℕ) × (ant coordinates colony first shuffle random count ≡ some path)
        × Perm path (iota 0 (length coordinates))
  unfolding ant
  ant-IsTour colony first shuffle random count first_shuffles shuffles =
      let path = get_path coordinates first in
      let tour = get_path-IsTour first first_shuffles in
      let start : Ant Double = record {
        path = path;
        pheromone = replicate (length path) (whole 1);
        best_distance = real.largest;
      } in
      let size = length-replicate (length path) (whole {Double = Double} 1) in
      let (last, done, (toured, sized)) =
        iterations_total colony shuffle random 0 count start shuffles
          (tour, size ∙ IsTour-length coordinates path tour) in
      (last.path, rw done refl, toured)
