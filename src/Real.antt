-- ===== src/Real.antt =====
-- `double` and the functions of `<cmath>` that the numeric programs of cjunk/practice call, as an
-- interface: no law of them is assumed here.
pub mod Integers
pub mod Naturals
use cpp_examples.Prelude.{ℕ, Bool}

-- `literal m d` is the number that is written m * 10 ^ -d.
pub record Real (Double : Type 0) : Type 0 where
  pub literal : ℕ → ℕ → Double
  pub plus : Double → Double → Double
  pub minus : Double → Double → Double
  pub times : Double → Double → Double
  pub divide : Double → Double → Double
  pub negate : Double → Double
  pub less : Double → Double → Bool
  pub sqrt : Double → Double
  pub pow : Double → Double → Double
  pub exp : Double → Double
  pub cos : Double → Double
  pub sin : Double → Double
  pub atan : Double → Double
  pub atan2 : Double → Double → Double
  pub pi : Double
  pub largest : Double

module _ {Double : Type 0} ⦃real : Real Double⦄ where
  infixl 65 ◌⊕◌ ◌⊖◌
  infixl 70 ◌⊗◌ ◌⊘◌
  abbrev pub ◌⊕◌ : Double → Double → Double
  a ⊕ b = real.plus a b

  abbrev pub ◌⊖◌ : Double → Double → Double
  a ⊖ b = real.minus a b

  abbrev pub ◌⊗◌ : Double → Double → Double
  a ⊗ b = real.times a b

  abbrev pub ◌⊘◌ : Double → Double → Double
  a ⊘ b = real.divide a b

  abbrev pub whole : ℕ → Double
  whole n = real.literal n 0
