-- ===== src/Fourier/Shifted.antt =====
-- What the unwrapped phases of middleware/src/stupid_fft.h are.
use cpp_examples.Prelude.{
  ℕ, ◌<◌, ◌≡◌, refl, ◌∙◌, ◌⊎◌, inl, inr, true, false, some, List, length, get_elem?,
  get_elem?_total, map, length-map, get_elem?-map, arith, sym,
}
use cpp_examples.Fourier.{
  Fft, Complex, Plan, make_fft, size, degrees, unwrap, get_real_phase_unwrapped,
  get_real_phase_unwrapped_deg_shifted,
}
use cpp_examples.Fourier.Collected.{each-length}
use cpp_examples.Fourier.Degrees.{Angles, ◌⊑◌, unwrap-cases, shift_lower, shift_upper}
use cpp_examples.Real.{Real, ◌⊕◌, ◌⊖◌, whole}

module _ {Double : Type 0} ⦃real : Real Double⦄ where
  -- The unwrapped phase x and the shifted phase y of a phase in degrees. The bounds say which numbers
  -- x and y are not below and not above, as they may be no numbers.
  abbrev pub Unwrapped : Double → Double → Double → Type 0
  Unwrapped phase x y =
      ((real.less phase (whole 0) ≡ true)
        × (x ≡ phase ⊕ whole 360)
        × (whole 180 ⊑ x)
        × (x ⊑ whole 360)
        × (whole 0 ⊑ y)
        × (y ⊑ whole 180))
      ⊎ ((real.less phase (whole 0) ≡ false)
          × (x ≡ phase)
          × (whole 0 ⊑ x)
          × (x ⊑ whole 180)
          × (real.negate (whole 180) ⊑ y)
          × (y ⊑ whole 0))

  -- The numbers at position i of the transform, of the unwrapped and of the shifted phases.
  pub record Phases (arg : Complex Double → Double) (self : Fft Double) (i : ℕ) : Type 0 where
    pub unwrapped : List Double
    pub shifted : List Double
    pub z : Complex Double
    pub x : Double
    pub y : Double
    pub unwraps : get_real_phase_unwrapped arg self ≡ some unwrapped
    pub shifts : get_real_phase_unwrapped_deg_shifted arg self ≡ some shifted
    pub unwrapped_length : length unwrapped ≡ self.fft_size
    pub shifted_length : length shifted ≡ self.fft_size
    pub transformed : get_elem? (self.fft_result) i ≡ some z
    pub unwrapped_there : get_elem? unwrapped i ≡ some x
    pub shifted_there : get_elem? shifted i ≡ some y
    pub half_below : y ≡ x ⊖ whole 180
    pub cases : Unwrapped (degrees (arg z)) x y

  make_fft-IsFull :
      (plan : Plan Double) (execute : List (Complex Double) → List (Complex Double))
      (data_in : List Double)
      → plan (length data_in) ≡ some execute
      → ((zs : List (Complex Double)) → length (execute zs) ≡ length zs)
      → (self : Fft Double) × (make_fft plan data_in ≡ some self)
        × (self.fft_size ≡ length data_in)
        × (length (self.fft_result) ≡ length data_in)
  unfolding make_fft
  make_fft-IsFull plan execute data_in planned same =
      let filled = each-length {B = Complex Double} (λ x. (x, whole 0)) data_in _ refl in
      let zs : List (Complex Double) = map (λ x. (x, whole 0)) data_in in
      let count : length (execute zs) ≡ length data_in =
        same zs ∙ length-map (λ x. (x, whole 0)) data_in in
      let copied = each-length {B = Complex Double} (λ z. (z.0, z.1)) (execute zs) _ count in
      (
        record { fft_result = map (λ z. (z.0, z.1)) (execute zs); fft_size = length data_in },
        rw (filled, planned, copied) refl,
        refl,
        length-map (λ z. (z.0, z.1)) (execute zs) ∙ count,
      )

  module _ (arg : Complex Double → Double) (angles : Angles arg) where
    unwrap_and_shift :
        (z : Complex Double)
        → Unwrapped (degrees (arg z)) (unwrap (arg z)) (unwrap (arg z) ⊖ whole 180)
    unwrap_and_shift z = elim (unwrap-cases arg angles z) [
      | inl (below, moved, low, high) ↦
          (let (down, up) = shift_upper arg angles _ low high in
            inl (below, moved, low, high, down, up))
      | inr (above, kept, low, high) ↦
          (let (down, up) = shift_lower arg angles _ low high in
            inr (above, kept, low, high, down, up))
    ]

    phases :
        (self : Fft Double) (i : ℕ)
        → length (self.fft_result) ≡ self.fft_size
        → i < self.fft_size
        → Phases arg self i
    unfolding get_real_phase_unwrapped get_real_phase_unwrapped_deg_shifted
    phases self i full below =
        let (z, there) = get_elem?_total (self.fft_result) i (omega arith) in
        record {
          unwrapped = map (λ w. unwrap (arg w)) (self.fft_result);
          shifted = map (λ w. unwrap (arg w) ⊖ whole 180) (self.fft_result);
          z = z;
          x = unwrap (arg z);
          y = unwrap (arg z) ⊖ whole 180;
          unwraps = each-length _ (self.fft_result) _ full;
          shifts = each-length _ (self.fft_result) _ full;
          unwrapped_length = length-map _ (self.fft_result) ∙ full;
          shifted_length = length-map _ (self.fft_result) ∙ full;
          transformed = there;
          unwrapped_there = get_elem?-map _ (self.fft_result) i z there;
          shifted_there = get_elem?-map _ (self.fft_result) i z there;
          half_below = refl;
          cases = unwrap_and_shift z;
        }

    -- If FFTW gives a plan for the length of the data, whose execution keeps the length, the object is
    -- made and has the size of the data. If rounding keeps an order, the constants that meet are exact
    -- and std::arg is not below -PI and not above PI, as `Angles` says, then the unwrapped and the
    -- shifted phases are as many, and at each position the shifted one is the unwrapped one less 180.
    -- A phase below 0 is unwrapped by adding 360, and the sum is not below 180 and not above 360, the
    -- shifted one not below 0 and not above 180; any other phase, also one that is no number, is kept,
    -- and it is not below 0 and not above 180, the shifted one not below -180 and not above 0.
    pub make_fft-Phases :
        (plan : Plan Double) (execute : List (Complex Double) → List (Complex Double))
        (data_in : List Double) (i : ℕ)
        → plan (length data_in) ≡ some execute
        → ((zs : List (Complex Double)) → length (execute zs) ≡ length zs)
        → i < length data_in
        → (self : Fft Double) × (make_fft plan data_in ≡ some self)
          × (size self ≡ length data_in)
          × Phases arg self i
    unfolding size
    make_fft-Phases plan execute data_in i planned same below =
        let (self, made, sized, full) = make_fft-IsFull plan execute data_in planned same in
        (self, made, sized, phases self i (full ∙ sym sized) (omega arith))
