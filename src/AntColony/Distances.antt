-- ===== src/AntColony/Distances.antt =====
-- The distances of cjunk/practice/antColonyOptimization.cc are there for every path between its cities.
use mathlib.Core.Logic.{∥∥₁_elim}
use mathlib.Core.Bool.{Bool-set}
use mathlib.Core.List.{Perm, Permᴰ}
use native.Mathlib.Nat.{ℕ_set}
use cpp_examples.Prelude.{
  ℕ, zero, suc, ◌+◌, ◌<◌, ◌≤◌, ◌≡◌, ◌∙◌, refl, ap, Bool, true, false, ◌&&◌, some, List, [], ◌∷◌,
  arith, length, get_elem?, get_elem?_total, ltb, lt→ltb, ltb→lt, ◌==◌, inl, inr, Bool-cases,
}
use cpp_examples.Real.{Real, ◌⊕◌, ◌⊖◌, ◌⊘◌, whole}
use cpp_examples.AntColony.{
  iota, distance_between, distance_from, get_distance, visibility_from, get_visibility,
}

abbrev pub all_below : ℕ → List ℕ → Bool
all_below n [] = true
all_below n (x ∷ xs) = ltb x n && all_below n xs

and_left_comm : (p q r : Bool) → (p && (q && r)) ≡ (q && (p && r))
and_left_comm true q r = refl
and_left_comm false true r = refl
and_left_comm false false r = refl

and_both : (p q : Bool) → (p && q) ≡ true → (p ≡ true) × (q ≡ true)
and_both true q h = (refl, h)
and_both false q h = absurd cc

all_below-cons :
    (n x : ℕ) (xs : List ℕ) → all_below n (x ∷ xs) ≡ true → (x < n) × (all_below n xs ≡ true)
all_below-cons n x xs h =
    let (below, rest) = and_both (ltb x n) (all_below n xs) h in (ltb→lt x n below, rest)

all_below-Permᴰ : (n : ℕ) {xs ys : List ℕ} → Permᴰ xs ys → all_below n xs ≡ all_below n ys
all_below-Permᴰ n Permᴰ.nil = refl
all_below-Permᴰ n (Permᴰ.cons e p) = rw (e, all_below-Permᴰ n p) refl
all_below-Permᴰ n (Permᴰ.swap {a' = a'} {b' = b'} {l = l} e f) =
    rw (e, f) (and_left_comm (ltb b' n) (ltb a' n) (all_below n l))
all_below-Permᴰ n (Permᴰ.trans p q) = all_below-Permᴰ n p ∙ all_below-Permᴰ n q

length-Permᴰ : {A : Type 0} {xs ys : List A} → Permᴰ xs ys → length xs ≡ length ys
length-Permᴰ Permᴰ.nil = refl
length-Permᴰ (Permᴰ.cons e p) = ap suc (length-Permᴰ p)
length-Permᴰ (Permᴰ.swap e f) = refl
length-Permᴰ (Permᴰ.trans p q) = length-Permᴰ p ∙ length-Permᴰ q

pub length-Perm : {A : Type 0} {xs ys : List A} → Perm xs ys → length xs ≡ length ys
length-Perm p = ∥∥₁_elim p (ℕ_set _ _) length-Permᴰ

length-iota : (first count : ℕ) → length (iota first count) ≡ count
unfolding iota
length-iota first zero = refl
length-iota first (suc count) = ap suc (length-iota (first + 1) count)

all_below-iota : (n first count : ℕ) → first + count ≤ n → all_below n (iota first count) ≡ true
unfolding iota
all_below-iota n first zero h = refl
all_below-iota n first (suc count) h =
    rw (lt→ltb first n (omega arith)) (all_below-iota n (first + 1) count (omega arith))

module _ {Double : Type 0} ⦃real : Real Double⦄ (coordinates : List (List Double)) where
  -- Each city has two coordinates.
  abbrev pub IsPlane : Type 0
  IsPlane = (i : ℕ) (row : List Double) → get_elem? coordinates i ≡ some row → 2 ≤ length row

  distance_between_total :
      (i j : ℕ)
      → IsPlane
      → i < length coordinates
      → j < length coordinates
      → (d : Double) × (distance_between coordinates i j ≡ some d)
  unfolding distance_between
  distance_between_total i j plane h h' =
      let (a, a_there) = get_elem?_total coordinates i h in
      let (b, b_there) = get_elem?_total coordinates j h' in
      let a_size = plane i a a_there in
      let b_size = plane j b b_there in
      let (a₀, a₀_there) = get_elem?_total a 0 (omega arith) in
      let (b₀, b₀_there) = get_elem?_total b 0 (omega arith) in
      let (a₁, a₁_there) = get_elem?_total a 1 (omega arith) in
      let (b₁, b₁_there) = get_elem?_total b 1 (omega arith) in
      (
        real.sqrt (real.pow (a₀ ⊖ b₀) (whole 2) ⊕ real.pow (a₁ ⊖ b₁) (whole 2)),
        rw (a_there, b_there, a₀_there, b₀_there, a₁_there, b₁_there) refl,
      )

  distance_from_total :
      (distance : Double) (city : ℕ) (path : List ℕ)
      → IsPlane
      → city < length coordinates
      → all_below (length coordinates) path ≡ true
      → (d : Double) × (distance_from coordinates distance city path ≡ some d)
  unfolding distance_from
  distance_from_total distance city [] plane h below = (distance, refl)
  distance_from_total distance city (next ∷ path) plane h below =
      let (next_below, rest_below) = all_below-cons (length coordinates) next path below in
      let (d, step) = distance_between_total city next plane h next_below in
      let (total, rest) =
        distance_from_total (distance ⊕ d) next path plane next_below rest_below in
      (total, rw (step, rest) refl)

  -- A path with the numbers of the cities, in any order.
  abbrev pub IsTour : List ℕ → Type 0
  IsTour path = Perm path (iota 0 (length coordinates))

  pub IsTour-length : (path : List ℕ) → IsTour path → length path ≡ length coordinates
  IsTour-length path tour = length-Perm tour ∙ length-iota 0 (length coordinates)

  pub IsTour-all_below : (path : List ℕ) → IsTour path → all_below (length coordinates) path ≡ true
  IsTour-all_below path tour =
      ∥∥₁_elim tour (Bool-set _ _) (all_below-Permᴰ (length coordinates))
      ∙ all_below-iota (length coordinates) 0 (length coordinates) (omega arith)

  pub get_distance_total :
      (path : List ℕ)
      → IsPlane
      → 0 < length path
      → all_below (length coordinates) path ≡ true
      → (d : Double) × (get_distance coordinates path ≡ some d)
  unfolding get_distance
  get_distance_total [] plane h below = absurd (omega arith)
  get_distance_total (city ∷ path) plane h below =
      let (city_below, rest_below) = all_below-cons (length coordinates) city path below in
      distance_from_total (whole 0) city path plane city_below rest_below

  visibility_from_total :
      (i : ℕ) (visibility : Double) (j count : ℕ)
      → IsPlane
      → i < length coordinates
      → j + count ≤ length coordinates
      → (v : Double) × (visibility_from coordinates i visibility j count ≡ some v)
  unfolding visibility_from
  visibility_from_total i visibility j zero plane h h' = (visibility, refl)
  visibility_from_total i visibility j (suc count) plane h h' = elim (Bool-cases (i == j)) [
    | inl same ↦
        (let (v, rest) = visibility_from_total i visibility (j + 1) count plane h (omega arith) in
          (v, rw (same, rest) refl))
    | inr other ↦
        (let (d, there) = distance_between_total i j plane h (omega arith) in
          let (v, rest) =
            visibility_from_total i (visibility ⊕ whole 1 ⊘ d) (j + 1) count plane h
              (omega arith) in
          (v, rw (other, there, rest) refl))
  ]

  pub get_visibility_total :
      (i : ℕ)
      → IsPlane
      → i < length coordinates
      → (v : Double) × (get_visibility coordinates i ≡ some v)
  unfolding get_visibility
  get_visibility_total i plane h =
      visibility_from_total i (whole 0) 0 (length coordinates) plane h (omega arith)
