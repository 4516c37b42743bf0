-- ===== src/ParticleFilter/Filter.antt =====
-- `normalize`, `resample` and `run_pf` of cjunk/practice/geoParticleFilter.cc. A future that `get` has
-- been called on is not valid, and another `get` is undefined behaviour, as is an index out of bounds.
use cpp_examples.Prelude.{
  ℕ, zero, suc, ◌+◌, Option, none, some, List, [], ◌∷◌, ◌++◌, map, length, get_elem?, set,
  replicate, if◌then◌else◌,
}
use cpp_examples.Prelude.Int.{ℤ}
use cpp_examples.Real.{Real, ◌⊕◌, ◌⊘◌, whole}
use cpp_examples.ParticleFilter.Particle.{Model, LandmarkObs, Particle, make_particle, update}

pub data Outcome (A : Type 0) : Type 0 where
  returned : A → Outcome A
  thrown undefined : Outcome A

abbrev pub bind : {A B : Type 0} → Outcome A → (A → Outcome B) → Outcome B
bind (returned a) f = f a
bind thrown f = thrown
bind undefined f = undefined

infixl 1 ◌>>=◌
abbrev pub ◌>>=◌ : {A B : Type 0} → Outcome A → (A → Outcome B) → Outcome B
o >>= f = bind o f

abbrev pub or_undefined : {A : Type 0} → Option A → Outcome A
or_undefined none = undefined
or_undefined (some a) = returned a

-- A future: with the particle that its task leaves, or none where the task threw, until `get`.
pub data Future (A : Type 0) : Type 0 where
  valid : Option A → Future A
  consumed : Future A

abbrev pub get : {A : Type 0} → Future A → Outcome A
get (valid none) = thrown
get (valid (some a)) = returned a
get consumed = undefined

module _ {Double : Type 0} ⦃real : Real Double⦄ where
  -- `std::accumulate`
  unfoldable pub accumulate : List Double → Double → Double
  accumulate [] sum = sum
  accumulate (w ∷ weights) sum = accumulate weights (sum ⊕ w)

  unfoldable pub normalize : List Double → List Double
  normalize weights = let sum = accumulate weights (whole 0) in map (λ w. w ⊘ sum) weights

  -- The cumulative weights after the last one.
  unfoldable pub cumulate : Double → List Double → List Double
  cumulate last [] = []
  cumulate last (w ∷ weights) = (last ⊕ w) ∷ cumulate (last ⊕ w) weights

  unfoldable pub cumulative : List Double → Outcome (List Double)
  cumulative [] = undefined
  cumulative (w ∷ weights) = returned (w ∷ cumulate w weights)

  -- The `while` loop, with the cumulative weights from `index` on.
  unfoldable pub find_index : Double → List Double → ℕ → Outcome ℕ
  find_index random_number [] index = undefined
  find_index random_number (c ∷ cs) index =
      let further = find_index random_number cs (index + 1) in
      if real.less c random_number then further else returned index

  -- The loop over the particles; `random i` is what `dis(gen)` gives at turn i.
  unfoldable pub resample_from :
      {A : Type 0} → (ℕ → Double) → List Double → List A → ℕ → ℕ → Outcome (List A)
  resample_from random cs particles i zero = returned []
  resample_from random cs particles i (suc turns) = do
    index ← find_index (random i) cs 0
    particle ← or_undefined (get_elem? particles index)
    rest ← resample_from random cs particles (i + 1) turns
    returned (particle ∷ rest)

  unfoldable pub resample : {A : Type 0} → (ℕ → Double) → List A → List Double → Outcome (List A)
  resample random particles weights = do
    cs ← cumulative weights
    resample_from random cs particles 0 (length particles)

-- `futures[j].get()` for `count` of them from j on: the particles, and the futures after it.
unfoldable pub get_all : {A : Type 0} → List (Future A) → ℕ → ℕ → Outcome (List A × List (Future A))
get_all futures j zero = returned ([], futures)
get_all futures j (suc count) = do
  future ← or_undefined (get_elem? futures j)
  particle ← get future
  (particles, after) ← get_all (set futures j consumed) (j + 1) count
  returned (particle ∷ particles, after)

module _ {Double Map : Type 0} ⦃real : Real Double⦄ (at : Map → ℤ → Option (Double × Double)) where
  -- What a turn prints: the weights, the normalized weights, and the resampled particles.
  pub record Printed : Type 0 where
    pub weights : List Double
    pub normalized : List Double
    pub resampled : List (Particle Double Map)

  -- The futures that `std::async` gives for the particles.
  unfoldable pub launch :
      List (Particle Double Map)
      → Model Double
      → List (LandmarkObs Double)
      → Map
      → List (Future (Particle Double Map))
  launch particles model observations landmarks =
      map (λ p. valid (update at p model observations landmarks)) particles

  -- The turns of the loop that are left; `random i` is the generator of turn i.
  unfoldable pub iterate :
      List (LandmarkObs Double)
      → Map
      → Model Double
      → (ℕ → ℕ → Double)
      → List (Particle Double Map)
      → List (Future (Particle Double Map))
      → ℕ
      → ℕ
      → Outcome (List Printed)
  iterate observations landmarks model random particles futures i zero = returned []
  iterate observations landmarks model random particles futures i (suc turns) = do
    let launched = futures ++ launch particles model observations landmarks
    (updated, after) ← get_all launched 0 (length particles)
    let weights = map (λ p. p.weight) updated
    let normalized = normalize weights
    resampled ← resample (random i) updated normalized
    rest ← iterate observations landmarks model random updated after (i + 1) turns
    returned (record { weights = weights; normalized = normalized; resampled = resampled } ∷ rest)

  unfoldable pub run_pf :
      List (LandmarkObs Double)
      → Map
      → Model Double
      → (ℕ → ℕ → Double)
      → ℕ
      → ℕ
      → Outcome (List Printed)
  run_pf observations map_landmarks model random num_particles num_iterations =
      let particles = replicate num_particles (make_particle at map_landmarks) in
      iterate observations map_landmarks model random particles [] 0 num_iterations
