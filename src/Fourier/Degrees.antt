-- ===== src/Fourier/Degrees.antt =====
-- The phases of middleware/src/stupid_fft.h in degrees, on numbers that add and compare as `double`
-- does: rounding keeps an order, and the constants that meet are exact.
use cpp_examples.Prelude.{true, false, ◌≡◌, ◌⊎◌, inl, inr, refl, subst, Bool-cases}
use cpp_examples.Fourier.{Complex, degrees, half_turn, unwrap}
use cpp_examples.Real.{Real, ◌⊕◌, ◌⊖◌, ◌⊗◌, ◌⊘◌, whole}

module _ {Double : Type 0} ⦃real : Real Double⦄ where
  infix 50 ◌⊑◌
  -- b is not below a; this holds where one of them is not a number.
  abbrev pub ◌⊑◌ : Double → Double → Type 0
  a ⊑ b = real.less b a ≡ false

-- What IEEE arithmetic and `std::arg` promise.
pub record Angles {Double : Type 0} ⦃real : Real Double⦄ (arg : Complex Double → Double)
    : Type 0 where
  pub arg_above : (z : Complex Double) → real.negate half_turn ⊑ arg z
  pub arg_below : (z : Complex Double) → arg z ⊑ half_turn
  pub less_asym : (a b : Double) → real.less a b ≡ true → a ⊑ b
  pub plus_mono : (a b c : Double) → a ⊑ b → a ⊕ c ⊑ b ⊕ c
  pub minus_mono : (a b c : Double) → a ⊑ b → a ⊖ c ⊑ b ⊖ c
  pub times_mono : (a b : Double) → a ⊑ b → a ⊗ whole 180 ⊑ b ⊗ whole 180
  pub divide_mono : (a b : Double) → a ⊑ b → a ⊘ half_turn ⊑ b ⊘ half_turn
  pub half_degrees : real.divide (real.times half_turn (whole 180)) half_turn ≡ whole 180
  pub negative_degrees :
      real.divide (real.times (real.negate half_turn) (whole 180)) half_turn
      ≡ real.negate (whole 180)
  pub full_less_half : real.negate (whole 180) ⊕ whole 360 ≡ whole 180
  pub zero_plus_full : real.plus (whole 0) (whole 360) ≡ whole 360
  pub zero_less_half : real.minus (whole 0) (whole 180) ≡ real.negate (whole 180)
  pub half_less_half : real.minus (whole 180) (whole 180) ≡ whole 0
  pub full_minus_half : real.minus (whole 360) (whole 180) ≡ whole 180

module _ {Double : Type 0} ⦃real : Real Double⦄ (arg : Complex Double → Double)
    (angles : Angles arg) where
  pub degrees_above : (z : Complex Double) → real.negate (whole 180) ⊑ degrees (arg z)
  degrees_above z =
      subst (λ d. d ⊑ degrees (arg z)) (angles.negative_degrees)
        (angles.divide_mono _ _ (angles.times_mono _ _ (angles.arg_above z)))

  pub degrees_below : (z : Complex Double) → degrees (arg z) ⊑ whole 180
  degrees_below z =
      subst (λ d. degrees (arg z) ⊑ d) (angles.half_degrees)
        (angles.divide_mono _ _ (angles.times_mono _ _ (angles.arg_below z)))

  -- 360 is added to a phase below 0, which is then not below 180; any other one is kept.
  pub unwrap-cases :
      (z : Complex Double)
      → ((real.less (degrees (arg z)) (whole 0) ≡ true)
          × (unwrap (arg z) ≡ degrees (arg z) ⊕ whole 360)
          × (whole 180 ⊑ unwrap (arg z))
          × (unwrap (arg z) ⊑ whole 360))
        ⊎ ((real.less (degrees (arg z)) (whole 0) ≡ false)
            × (unwrap (arg z) ≡ degrees (arg z))
            × (whole 0 ⊑ unwrap (arg z))
            × (unwrap (arg z) ⊑ whole 180))
  unfolding unwrap
  unwrap-cases z = elim (Bool-cases (real.less (degrees (arg z)) (whole 0))) [
    | inl below ↦ inl (
      below,
      rw below refl,
      rw (below) (
          subst (λ d. d ⊑ degrees (arg z) ⊕ whole 360) (angles.full_less_half)
            (angles.plus_mono _ _ (whole 360) (degrees_above z))),
      rw (below) (
          subst (λ d. degrees (arg z) ⊕ whole 360 ⊑ d) (angles.zero_plus_full)
            (angles.plus_mono _ _ (whole 360) (angles.less_asym _ _ below))),
    )
    | inr above ↦ inr (above, rw above refl, rw (above) above, rw (above) (degrees_below z))
  ]

  pub shift_lower :
      (x : Double)
      → whole 0 ⊑ x
      → x ⊑ whole 180
      → (real.negate (whole 180) ⊑ x ⊖ whole 180) × (x ⊖ whole 180 ⊑ whole 0)
  shift_lower x low high = (
    subst (λ d. d ⊑ x ⊖ whole 180) (angles.zero_less_half) (angles.minus_mono _ _ (whole 180) low),
    subst (λ d. x ⊖ whole 180 ⊑ d) (angles.half_less_half) (angles.minus_mono _ _ (whole 180) high),
  )

  pub shift_upper :
      (x : Double)
      → whole 180 ⊑ x
      → x ⊑ whole 360
      → (whole 0 ⊑ x ⊖ whole 180) × (x ⊖ whole 180 ⊑ whole 180)
  shift_upper x low high = (
    subst (λ d. d ⊑ x ⊖ whole 180) (angles.half_less_half) (angles.minus_mono _ _ (whole 180) low),
    subst (λ d. x ⊖ whole 180 ⊑ d) (angles.full_minus_half)
        (angles.minus_mono _ _ (whole 180) high),
  )
