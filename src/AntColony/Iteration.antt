-- ===== src/AntColony/Iteration.antt =====
-- `AntColonyOptimization::ant` of cjunk/practice/antColonyOptimization.cc. The shuffles and the random
-- numbers of iteration i are arguments; `get_random_engine` is not in the file.
use cpp_examples.Prelude.{
  ℕ, zero, suc, ◌+◌, ◌-◌, Option, none, some, List, [], ◌∷◌, ◌++◌, map, length, replicate, ◌==◌,
  if◌then◌else◌, ◌>>=◌,
}
use cpp_examples.Real.{Real, ◌⊕◌, ◌⊖◌, ◌⊗◌, ◌⊘◌, whole}
use cpp_examples.AntColony.{swap_next, get_distance, get_visibility, get_path}

-- The parameters of the colony that an ant reads.
pub record Colony (Double : Type 0) : Type 0 where
  pub alpha : Double
  pub beta : Double
  pub rho : Double
  pub q0 : Double

pub record Ant (Double : Type 0) : Type 0 where
  pub path : List ℕ
  pub pheromone : List Double
  pub best_distance : Double

-- The first swap, with the index that was drawn.
unfoldable pub swap_drawn : ℕ → List ℕ → Option (List ℕ)
swap_drawn next path = if next == length path - 1 then some path else swap_next path next

module _ {Double : Type 0} ⦃real : Real Double⦄ where
  -- `delta_pheromone`: the last element stays 0.
  unfoldable pub delta_pheromone : ℕ → Double → List Double
  delta_pheromone size distance = replicate (size - 1) (whole 1 ⊘ distance) ++ whole 0 ∷ []

  -- The loop over `pheromone`, as long as the path.
  unfoldable pub deposit : Double → List Double → List Double → Option (List Double)
  deposit rho pheromone [] = some pheromone
  deposit rho [] (d ∷ delta) = none
  deposit rho (p ∷ pheromone) (d ∷ delta) = do
    rest ← deposit rho pheromone delta
    some (((whole 1 ⊖ rho) ⊗ p ⊕ d) ∷ rest)

  unfoldable pub cumulate : Double → List Double → List Double
  cumulate last [] = []
  cumulate last (p ∷ probability) = (last ⊕ p) ∷ cumulate (last ⊕ p) probability

  unfoldable pub cumulative_probability : List Double → List Double
  cumulative_probability [] = []
  cumulative_probability (p ∷ probability) = p ∷ cumulate p probability

  -- The first index from j on whose number is greater than r, or 0.
  unfoldable pub find_next : Double → List Double → ℕ → ℕ
  find_next r [] j = 0
  find_next r (c ∷ cs) j =
      let further = find_next r cs (j + 1) in if real.less r c then j else further

  -- The second swap, with its own random number.
  unfoldable pub swap_first : Colony Double → Double → List ℕ → Option (List ℕ)
  swap_first colony r path =
      if real.less (whole 0) (colony.q0)
      then (if real.less r (colony.q0) then swap_next path 0 else some path)
      else some path

module _ {Double : Type 0} ⦃real : Real Double⦄ (coordinates : List (List Double)) where
  -- The probabilities of `count` cities from j on, not yet divided, and the sum.
  unfoldable pub probabilities :
      Colony Double → List Double → Double → ℕ → ℕ → Option (List Double × Double)
  probabilities colony pheromone sum j zero = some ([], sum)
  probabilities colony [] sum j (suc count) = none
  probabilities colony (p ∷ pheromone) sum j (suc count) = do
    visibility ← get_visibility coordinates j
    let probability = real.pow p (colony.alpha) ⊗ real.pow visibility (colony.beta)
    (rest, total) ← probabilities colony pheromone (sum ⊕ probability) (j + 1) count
    some (probability ∷ rest, total)

  -- The new path is taken when it is shorter.
  unfoldable pub choose : List ℕ → Ant Double → Option (Ant Double)
  choose next_path self = do
    next_distance ← get_distance coordinates next_path
    some (
        if real.less next_distance (self.best_distance)
        then record self { path = next_path; best_distance = next_distance }
        else self)

  -- The index `next`, and the pheromone.
  unfoldable pub draw_next : Colony Double → Double → Ant Double → Option (ℕ × List Double)
  draw_next colony r self = do
    let size = length (self.path)
    distance ← get_distance coordinates (self.path)
    pheromone ← deposit (colony.rho) (self.pheromone) (delta_pheromone size distance)
    (probability, sum) ← probabilities colony pheromone (whole 0) 0 size
    let cumulative = cumulative_probability (map (λ p. p ⊘ sum) probability)
    some (find_next r cumulative 0, pheromone)

  unfoldable pub iteration :
      Colony Double → (List ℕ → List ℕ) → Double → Double → Ant Double → Option (Ant Double)
  iteration colony shuffle r r' self = do
    chosen ← choose (get_path coordinates shuffle) self
    (next, pheromone) ← draw_next colony r chosen
    drawn ← swap_drawn next (chosen.path)
    path ← swap_first colony r' drawn
    some (record chosen { path = path; pheromone = pheromone })

  unfoldable pub iterations :
      Colony Double
      → (ℕ → List ℕ → List ℕ)
      → (ℕ → Double × Double)
      → ℕ
      → ℕ
      → Ant Double
      → Option (Ant Double)
  iterations colony shuffle random i zero self = some self
  iterations colony shuffle random i (suc count) self = do
    let (r, r') = random i
    after ← iteration colony (shuffle i) r r' self
    iterations colony shuffle random (i + 1) count after

  -- `ant`, with `first` for the shuffle before the loop.
  unfoldable pub ant :
      Colony Double
      → (List ℕ → List ℕ)
      → (ℕ → List ℕ → List ℕ)
      → (ℕ → Double × Double)
      → ℕ
      → Option (List ℕ)
  ant colony first shuffle random count = do
    let path = get_path coordinates first
    let pheromone = replicate (length path) (whole 1)
    let start : Ant Double = record {
      path = path;
      pheromone = pheromone;
      best_distance = real.largest;
    }
    last ← iterations colony shuffle random 0 count start
    some (last.path)
