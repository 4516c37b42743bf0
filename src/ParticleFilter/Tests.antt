-- ===== src/ParticleFilter/Tests.antt =====
-- The particle filter of cjunk/practice/geoParticleFilter.cc with natural numbers for `double`.
use cpp_examples.Prelude.{
  ℕ, ◌+◌, ◌*◌, ◌≡◌, ◌≢◌, refl, Option, none, some, List, [], ◌∷◌, arith, length, get_elem?,
}
use cpp_examples.Prelude.Int.{ℤ, pos, negsuc}
use cpp_examples.Real.Naturals.{naturals}
use cpp_examples.ParticleFilter.Particle.{Model, LandmarkObs}
use cpp_examples.ParticleFilter.Filter.{
  returned, undefined, cumulate, cumulative, find_index, resample_from, resample, run_pf,
}
use cpp_examples.ParticleFilter.Resampling.{IsDrawn, resample-IsDrawn}
use cpp_examples.ParticleFilter.Futures.{run_pf-Undefined}

-- The numbers 0, 3, 6, … are past the end from the third on.
past_the_end :
    resample {Double = ℕ} {A = ℕ} (λ i. 3 * i) (10 ∷ 20 ∷ 30 ∷ []) (1 ∷ 2 ∷ 1 ∷ []) ≡ undefined
unfolding resample resample_from cumulative cumulate find_index
past_the_end = refl

drawn :
    resample {Double = ℕ} {A = ℕ} (λ i. 1 + i) (10 ∷ 20 ∷ 30 ∷ []) (1 ∷ 2 ∷ 1 ∷ [])
    ≡ returned (10 ∷ 20 ∷ 20 ∷ [])
unfolding resample resample_from cumulative cumulate find_index
drawn = refl

resample-IsDrawn_example :
    (ps : List ℕ) × (resample {Double = ℕ} (λ i. 3) (10 ∷ 20 ∷ 30 ∷ []) (1 ∷ 2 ∷ 1 ∷ [])
      ≡ returned ps)
    × (length ps ≡ 3)
    × ((j p : ℕ)
        → get_elem? ps j ≡ some p
        → IsDrawn {Double = ℕ} 3 (1 ∷ 3 ∷ 4 ∷ []) (10 ∷ 20 ∷ 30 ∷ []) p)
unfolding cumulative cumulate
resample-IsDrawn_example =
    resample-IsDrawn {Double = ℕ} (λ i. 3) (10 ∷ 20 ∷ 30 ∷ []) (1 ∷ 2 ∷ 1 ∷ []) (1 ∷ 3 ∷ 4 ∷ []) 1 3
      refl refl (omega arith) (λ j. refl)

abbrev look_up : List (ℕ × ℕ) → ℤ → Option (ℕ × ℕ)
look_up landmarks (pos i) = get_elem? landmarks i
look_up landmarks (negsuc i) = none

abbrev model : Model ℕ
model = record { dt = 1; std_pos = (1, 1); std_landmark = (1, 1) }

abbrev observations : List (LandmarkObs ℕ)
observations = record { landmark_id = pos 1; dx = 0; dy = 0 } ∷ []

run_pf-Undefined_example :
    run_pf look_up observations ((0, 0) ∷ (1, 0) ∷ []) model (λ i j. 0) 3 2 ≢ returned []
run_pf-Undefined_example =
    run_pf-Undefined look_up observations ((0, 0) ∷ (1, 0) ∷ []) model (λ i j. 0) 2 0 []
