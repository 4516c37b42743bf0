-- ===== src/Fourier.antt =====
-- The class `FFT` of middleware/src/stupid_fft.h. FFTW is a parameter: `plan n` is what the plan for
-- n numbers computes, `none` if FFTW gives none; to execute that is undefined. A vector that is read
-- behind its end is undefined too. `arg` and `abs` are the functions of <complex>.
mod Collected
pub mod Degrees
mod Shifted
mod Tests
use cpp_examples.Prelude.{
  ℕ, zero, suc, ◌+◌, Option, none, some, List, [], ◌∷◌, length, get_elem?, ◌>>=◌, if◌then◌else◌,
}
use cpp_examples.Real.{Real, ◌⊕◌, ◌⊖◌, ◌⊗◌, ◌⊘◌, whole}

-- `std::complex<double>` and `fftw_complex`: the real and the imaginary part.
abbrev pub Complex : Type 0 → Type 0
Complex Double = Double × Double

abbrev pub Plan : Type 0 → Type 0
Plan Double = ℕ → Option (List (Complex Double) → List (Complex Double))

pub record Fft (Double : Type 0) : Type 0 where
  pub fft_result : List (Complex Double)
  pub fft_size : ℕ

-- A loop of the class: `count` entries of `source` from `i` on, each under f.
unfoldable pub each : {A B : Type 0} → (A → B) → List A → ℕ → ℕ → Option (List B)
each f source i zero = some []
each f source i (suc count) = do
  z ← get_elem? source i
  rest ← each f source (i + 1) count
  some (f z ∷ rest)

module _ {Double : Type 0} ⦃real : Real Double⦄ where
  -- The constructor fills `in` in the first loop and copies `out` in the second one.
  unfoldable pub make_fft : Plan Double → List Double → Option (Fft Double)
  make_fft plan data_in = do
    input ← each (λ x. (x, whole 0)) data_in 0 (length data_in)
    execute ← plan (length data_in)
    result ← each (λ z. (z.0, z.1)) (execute input) 0 (length data_in)
    some (record { fft_result = result; fft_size = length data_in })

  unfoldable pub size : Fft Double → ℕ
  size self = self.fft_size

  unfoldable pub get_real : Fft Double → Option (List Double)
  get_real self = each (λ z. z.0) (self.fft_result) 0 (self.fft_size)

  unfoldable pub get_imag : Fft Double → Option (List Double)
  get_imag self = each (λ z. z.1) (self.fft_result) 0 (self.fft_size)

  unfoldable pub get_abs : (Complex Double → Double) → Fft Double → Option (List Double)
  get_abs abs self = each abs (self.fft_result) 0 (self.fft_size)

  unfoldable pub get_phase : (Complex Double → Double) → Fft Double → Option (List Double)
  get_phase arg self = each arg (self.fft_result) 0 (self.fft_size)

  -- `PI`
  abbrev pub half_turn : Double
  half_turn = real.literal 314159265358979323846 20

  -- `x * 180 / PI`
  abbrev pub degrees : Double → Double
  degrees x = x ⊗ whole 180 ⊘ half_turn

  -- The body of the loops that add 360.
  unfoldable pub unwrap : Double → Double
  unwrap x = if real.less (degrees x) (whole 0) then degrees x ⊕ whole 360 else degrees x

  unfoldable pub get_real_phase : (Complex Double → Double) → Fft Double → Option (List Double)
  get_real_phase arg self = each (λ z. degrees (arg z)) (self.fft_result) 0 (self.fft_size)

  unfoldable pub get_imag_phase : (Complex Double → Double) → Fft Double → Option (List Double)
  get_imag_phase arg self = each (λ z. degrees (arg z)) (self.fft_result) 0 (self.fft_size)

  unfoldable pub get_real_phase_unwrapped :
      (Complex Double → Double) → Fft Double → Option (List Double)
  get_real_phase_unwrapped arg self = each (λ z. unwrap (arg z)) (self.fft_result) 0 (self.fft_size)

  unfoldable pub get_imag_phase_unwrapped :
      (Complex Double → Double) → Fft Double → Option (List Double)
  get_imag_phase_unwrapped arg self = each (λ z. unwrap (arg z)) (self.fft_result) 0 (self.fft_size)

  unfoldable pub get_real_phase_unwrapped_deg :
      (Complex Double → Double) → Fft Double → Option (List Double)
  get_real_phase_unwrapped_deg arg self =
      each (λ z. degrees (arg z)) (self.fft_result) 0 (self.fft_size)

  unfoldable pub get_imag_phase_unwrapped_deg :
      (Complex Double → Double) → Fft Double → Option (List Double)
  get_imag_phase_unwrapped_deg arg self =
      each (λ z. degrees (arg z)) (self.fft_result) 0 (self.fft_size)

  unfoldable pub get_real_phase_unwrapped_deg_shifted :
      (Complex Double → Double) → Fft Double → Option (List Double)
  get_real_phase_unwrapped_deg_shifted arg self =
      each (λ z. unwrap (arg z) ⊖ whole 180) (self.fft_result) 0 (self.fft_size)
