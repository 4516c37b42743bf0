-- ===== src/AntColony/Paths.antt =====
-- The steps of an iteration of `ant` in cjunk/practice/antColonyOptimization.cc: when they are made,
-- and on what lengths.
use mathlib.Core.List.{Perm}
use mathlib.Core.List.Perm
use cpp_examples.Prelude.{
  ℕ, zero, suc, ◌+◌, ◌-◌, ◌<◌, ◌≤◌, ◌≡◌, ◌∙◌, refl, ap, some, List, [], ◌∷◌, arith, length,
  length-append, length-replicate, replicate, ◌==◌, inl, inr, Bool-cases,
}
use cpp_examples.Real.{Real, ◌⊕◌, ◌⊖◌, ◌⊗◌, ◌⊘◌, whole}
use cpp_examples.AntColony.{swap_next}
use cpp_examples.AntColony.Iteration.{
  Colony, delta_pheromone, deposit, cumulate, cumulative_probability, find_next, swap_drawn,
  swap_first,
}

swap_next-Perm :
    {A : Type 0} (xs : List A) (i : ℕ)
    → i + 1 < length xs
    → (ys : List A) × (swap_next xs i ≡ some ys) × Perm ys xs
unfolding swap_next
swap_next-Perm [] i h = absurd (omega arith)
swap_next-Perm (x ∷ []) i h = absurd (omega arith)
swap_next-Perm (x ∷ y ∷ rest) zero h = (y ∷ x ∷ rest, refl, Perm.swap x y rest)
swap_next-Perm (x ∷ y ∷ rest) (suc i) h =
    let (ys, done, same) = swap_next-Perm (y ∷ rest) i (omega arith) in
    (x ∷ ys, rw done refl, Perm.cons x same)

pub swap_drawn_total :
    (next : ℕ) (path : List ℕ)
    → next < length path
    → (after : List ℕ) × (swap_drawn next path ≡ some after) × Perm after path
unfolding swap_drawn
swap_drawn_total next path h = elim (Bool-cases (next == length path - 1)) [
  | inl last ↦ (path, rw last refl, Perm.refl path)
  | inr inner ↦
      (let (after, done, same) = swap_next-Perm path next (ground arith) in
        (after, rw (inner, done) refl, same))
]

module _ {Double : Type 0} ⦃real : Real Double⦄ where
  pub length-delta_pheromone :
      (size : ℕ) (distance : Double) → 0 < size → length (delta_pheromone size distance) ≡ size
  unfolding delta_pheromone
  length-delta_pheromone size distance h =
      let parts = length-append (replicate (size - 1) (whole 1 ⊘ distance)) (whole 0 ∷ []) in
      let most = length-replicate (size - 1) (whole 1 ⊘ distance) in parts ∙ omega arith

  pub deposit_total :
      (rho : Double) (pheromone delta : List Double)
      → length delta ≤ length pheromone
      → (after : List Double) × (deposit rho pheromone delta ≡ some after)
        × (length after ≡ length pheromone)
  unfolding deposit
  deposit_total rho pheromone [] h = (pheromone, refl, refl)
  deposit_total rho [] (d ∷ delta) h = absurd (omega arith)
  deposit_total rho (p ∷ pheromone) (d ∷ delta) h =
      let (rest, done, size) = deposit_total rho pheromone delta (omega arith) in
      (((whole 1 ⊖ rho) ⊗ p ⊕ d) ∷ rest, rw done refl, ap suc size)

  length-cumulate : (last : Double) (ps : List Double) → length (cumulate last ps) ≡ length ps
  unfolding cumulate
  length-cumulate last [] = refl
  length-cumulate last (p ∷ ps) = ap suc (length-cumulate (last ⊕ p) ps)

  pub length-cumulative_probability :
      (ps : List Double) → length (cumulative_probability ps) ≡ length ps
  unfolding cumulative_probability
  length-cumulative_probability [] = refl
  length-cumulative_probability (p ∷ ps) = ap suc (length-cumulate p ps)

  pub find_next_below :
      (r : Double) (cs : List Double) (j n : ℕ) → 0 < n → j + length cs ≤ n → find_next r cs j < n
  unfolding find_next
  find_next_below r [] j n h h' = h
  find_next_below r (c ∷ cs) j n h h' = elim (Bool-cases (real.less r c)) [
    | inl here ↦ rw here (omega arith)
    | inr further ↦ rw further (find_next_below r cs (j + 1) n h (omega arith))
  ]

  pub swap_first_total :
      (colony : Colony Double) (r : Double) (path : List ℕ)
      → 1 < length path
      → (after : List ℕ) × (swap_first colony r path ≡ some after) × Perm after path
  unfolding swap_first
  swap_first_total colony r path h = elim (Bool-cases (real.less (whole 0) (colony.q0))) [
    | inr off ↦ (path, rw off refl, Perm.refl path)
    | inl on ↦ elim (Bool-cases (real.less r (colony.q0))) [
      | inr kept ↦ (path, rw (on, kept) refl, Perm.refl path)
      | inl swapped ↦
          (let (after, done, same) = swap_next-Perm path 0 (omega arith) in
            (after, rw (on, swapped, done) refl, same))
    ]
  ]
