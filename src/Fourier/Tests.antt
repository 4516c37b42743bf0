-- ===== src/Fourier/Tests.antt =====
-- The transform of middleware/src/stupid_fft.h on integers, with a plan that copies its input.
use cpp_examples.Prelude.{
  true, false, ◌≡◌, refl, some, none, List, [], ◌∷◌, arith, if◌then◌else◌, ◌>>=◌, ltb,
}
use cpp_examples.Prelude.Int.{ℤ, pos, negsuc, ◌+ℤ◌, ◌-ℤ◌, ◌*ℤ◌, ltb_ℤ}
use cpp_examples.Real.Integers.{integers, divide_ℤ}
use cpp_examples.Fourier.{
  Complex, Plan, Fft, each, make_fft, size, unwrap, get_real_phase_unwrapped_deg_shifted,
}
use cpp_examples.Fourier.Shifted.{Phases, make_fft-Phases}
use cpp_examples.Fourier.Degrees.{Angles}

-- An angle of -1 to the left of the imaginary axis, and of 1 elsewhere.
abbrev side : Complex ℤ → ℤ
side z = if ltb_ℤ z.0 (pos 0) then negsuc 0 else pos 1

-- FFTW has no plan for no numbers.
abbrev copying : Plan ℤ
copying n = if ltb 0 n then some (λ zs. zs) else none

abbrev samples : List ℤ
samples = pos 5 ∷ negsuc 1 ∷ []

shifted_samples :
    (make_fft copying samples >>= λ self. get_real_phase_unwrapped_deg_shifted side self)
    ≡ some (negsuc 119 ∷ pos 120 ∷ [])
unfolding make_fft get_real_phase_unwrapped_deg_shifted each unwrap divide_ℤ ◌+ℤ◌ ◌-ℤ◌ ◌*ℤ◌
shifted_samples = refl

no_samples : make_fft copying [] ≡ none
unfolding make_fft each
no_samples = refl

side_above : (z : Complex ℤ) → ltb_ℤ (side z) (pos 0 -ℤ pos 3) ≡ false
unfolding ◌-ℤ◌
side_above z = ground arith

side_below : (z : Complex ℤ) → ltb_ℤ (pos 3) (side z) ≡ false
side_below z = ground arith

less_asym : (a b : ℤ) → ltb_ℤ a b ≡ true → ltb_ℤ b a ≡ false
less_asym a b h = ground arith

plus_mono : (a b c : ℤ) → ltb_ℤ b a ≡ false → ltb_ℤ (b +ℤ c) (a +ℤ c) ≡ false
unfolding ◌+ℤ◌
plus_mono a b c h = ground arith

minus_mono : (a b c : ℤ) → ltb_ℤ b a ≡ false → ltb_ℤ (b -ℤ c) (a -ℤ c) ≡ false
unfolding ◌-ℤ◌
minus_mono a b c h = ground arith

times_mono : (a b : ℤ) → ltb_ℤ b a ≡ false → ltb_ℤ (b *ℤ pos 180) (a *ℤ pos 180) ≡ false
unfolding ◌*ℤ◌
times_mono a b h = ground arith

divide_mono :
    (a b : ℤ) → ltb_ℤ b a ≡ false → ltb_ℤ (divide_ℤ b (pos 3)) (divide_ℤ a (pos 3)) ≡ false
unfolding divide_ℤ ◌-ℤ◌
divide_mono a b h = ground arith

angles : Angles side
unfolding divide_ℤ ◌+ℤ◌ ◌-ℤ◌ ◌*ℤ◌
angles = record {
  arg_above = side_above;
  arg_below = side_below;
  less_asym = less_asym;
  plus_mono = plus_mono;
  minus_mono = minus_mono;
  times_mono = times_mono;
  divide_mono = divide_mono;
  half_degrees = refl;
  negative_degrees = refl;
  full_less_half = refl;
  zero_plus_full = refl;
  zero_less_half = refl;
  half_less_half = refl;
  full_minus_half = refl;
}

make_fft-Phases_example :
    (self : Fft ℤ) × (make_fft copying samples ≡ some self) × (size self ≡ 2) × Phases side self 1
make_fft-Phases_example =
    make_fft-Phases side angles copying (λ zs. zs) samples 1 refl (λ zs. refl) (omega arith)
