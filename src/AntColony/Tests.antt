-- ===== src/AntColony/Tests.antt =====
-- An ant of cjunk/practice/antColonyOptimization.cc between three cities.
use mathlib.Core.List.{Perm}
use mathlib.Core.List.Perm
use cpp_examples.Prelude.{
  ℕ, zero, suc, ◌≡◌, ◌≤◌, refl, ap, none, some, List, [], ◌∷◌, arith, length,
}
use cpp_examples.Real.Naturals.{naturals}
use cpp_examples.AntColony.{iota, swap_next}
use cpp_examples.AntColony.Iteration.{Colony, ant}
use cpp_examples.AntColony.Distances.{IsPlane}
use cpp_examples.AntColony.Tours.{ant-IsTour}

swapped : swap_next {A = ℕ} (4 ∷ 5 ∷ 6 ∷ []) 1 ≡ some (4 ∷ 6 ∷ 5 ∷ [])
unfolding swap_next
swapped = refl

swapped_outside : swap_next {A = ℕ} (4 ∷ 5 ∷ 6 ∷ []) 2 ≡ none
unfolding swap_next
swapped_outside = refl

abbrev cities : List (List ℕ)
cities = (0 ∷ 0 ∷ []) ∷ (3 ∷ 0 ∷ []) ∷ (3 ∷ 4 ∷ []) ∷ []

abbrev colony : Colony ℕ
colony = record { alpha = 1; beta = 1; rho = 0; q0 = 1 }

pair_long : (a b : ℕ) (row : List ℕ) → some (a ∷ b ∷ []) ≡ some row → 2 ≤ length row
pair_long a b row h =
    let same : (a ∷ b ∷ []) ≡ row = cc in let size : 2 ≡ length row = ap length same in omega arith

cities-IsPlane : IsPlane {Double = ℕ} cities
cities-IsPlane zero row h = pair_long 0 0 row h
cities-IsPlane (suc zero) row h = pair_long 3 0 row h
cities-IsPlane (suc (suc zero)) row h = pair_long 3 4 row h
cities-IsPlane (suc (suc (suc i))) row h = absurd cc

ant-IsTour_example :
    (path : List ℕ) × (ant cities colony (λ xs. xs) (λ j xs. xs) (λ j. (0, 0)) 2 ≡ some path)
    × Perm path (iota 0 3)
ant-IsTour_example =
    ant-IsTour cities cities-IsPlane (omega arith) colony (λ xs. xs) (λ j xs. xs) (λ j. (0, 0)) 2
      (λ xs. Perm.refl xs) (λ j xs. Perm.refl xs)
