-- ===== src/AntColony.antt =====
-- `Model` and `AntColonyOptimization::ant` of cjunk/practice/antColonyOptimization.cc. A path is a
-- vector of numbers of cities, which a `double` holds exactly. An index out of bounds is `none`.
pub mod Distances
pub mod Iteration
pub mod Paths
pub mod Tours
mod Tests
use cpp_examples.Prelude.{
  ℕ, zero, suc, ◌+◌, ◌-◌, ◌<◌, Bool, true, false, Option, none, some, List, [], ◌∷◌, ◌++◌, length,
  get_elem?, replicate, ◌==◌, if◌then◌else◌, ◌>>=◌,
}
use cpp_examples.Real.{Real, ◌⊕◌, ◌⊖◌, ◌⊗◌, ◌⊘◌, whole}

-- `std::iota` from `first` on.
unfoldable pub iota : ℕ → ℕ → List ℕ
iota first zero = []
iota first (suc count) = first ∷ iota (first + 1) count

-- `std::swap(path[i], path[i + 1])`
unfoldable pub swap_next : {A : Type 0} → List A → ℕ → Option (List A)
swap_next [] i = none
swap_next (x ∷ []) i = none
swap_next (x ∷ y ∷ rest) zero = some (y ∷ x ∷ rest)
swap_next (x ∷ y ∷ rest) (suc i) = do after ← swap_next (y ∷ rest) i; some (x ∷ after)

module _ {Double : Type 0} ⦃real : Real Double⦄ (coordinates : List (List Double)) where
  -- `get_distance(int, int)`
  unfoldable pub distance_between : ℕ → ℕ → Option Double
  distance_between i j = do
    a ← get_elem? coordinates i
    b ← get_elem? coordinates j
    a₀ ← get_elem? a 0
    b₀ ← get_elem? b 0
    a₁ ← get_elem? a 1
    b₁ ← get_elem? b 1
    some (real.sqrt (real.pow (a₀ ⊖ b₀) (whole 2) ⊕ real.pow (a₁ ⊖ b₁) (whole 2)))

  -- The loop of `get_distance`, at a city with the rest of the path.
  unfoldable pub distance_from : Double → ℕ → List ℕ → Option Double
  distance_from distance city [] = some distance
  distance_from distance city (next ∷ path) = do
    d ← distance_between city next
    distance_from (distance ⊕ d) next path

  -- For no city, `path.size() - 1` wraps around and the loop reads outside the path.
  unfoldable pub get_distance : List ℕ → Option Double
  get_distance [] = none
  get_distance (city ∷ path) = distance_from (whole 0) city path

  unfoldable pub visibility_from : ℕ → Double → ℕ → ℕ → Option Double
  visibility_from i visibility j zero = some visibility
  visibility_from i visibility j (suc count) = do
    seen ←
        (if i == j
          then some visibility
          else (do d ← distance_between i j; some (visibility ⊕ whole 1 ⊘ d)))
    visibility_from i seen (j + 1) count

  unfoldable pub get_visibility : ℕ → Option Double
  get_visibility i = visibility_from i (whole 0) 0 (length coordinates)

  -- `get_path`, with what `std::random_shuffle` does.
  unfoldable pub get_path : (List ℕ → List ℕ) → List ℕ
  get_path shuffle = shuffle (iota 0 (length coordinates))
