-- ===== src/Json/Outcome.antt =====
-- What a call of the parser in middleware/src/nonworking_json.cpp comes to: a value, an exception,
-- or (in the model alone) the end of its fuel.
use cpp_examples.Prelude.{ℕ, List}

-- What `std::stoll` and `std::stod` throw.
pub data ConversionError : Type 0 where
  invalid_argument out_of_range : ConversionError

-- The exceptions, with the parts of their messages that vary.
pub data Error : Type 0 where
  unexpected_end invalid_escape : Error
  expected : ℕ → ℕ → ℕ → Error
  expected_literal : List ℕ → Error
  expected_array_delimiter expected_object_delimiter : Error
  unexpected_character : ℕ → ℕ → Error
  extra_characters : ℕ → Error
  conversion : ConversionError → Error

pub data Outcome {ℓ} (A : Type ℓ) : Type ℓ where
  ok : A → Outcome A
  throw : Error → Outcome A
  out_of_fuel : Outcome A

abbrev pub bind {ℓ κ} : {A : Type ℓ} {B : Type κ} → Outcome A → (A → Outcome B) → Outcome B
bind (ok a) f = f a
bind (throw e) f = throw e
bind out_of_fuel f = out_of_fuel

-- `json_str` from `pos` on: the position, and the bytes that are left.
abbrev pub Cursor : Type 0
Cursor = ℕ × List ℕ

-- A member function of `JsonParser`: it moves `pos` and returns a value.
abbrev pub Parser : Type 0 → Type 0
Parser A = Cursor → Outcome (A × Cursor)

abbrev pub pure : {A : Type 0} → A → Parser A
pure a cursor = ok (a, cursor)

abbrev pub raise : {A : Type 0} → Error → Parser A
raise e cursor = throw e

infixl 1 ◌>>=◌ ◌>>◌
abbrev pub ◌>>=◌ : {A B : Type 0} → Parser A → (A → Parser B) → Parser B
◌>>=◌ p f cursor = bind (p cursor) (λ (a, rest). f a rest)

abbrev pub ◌>>◌ : {A B : Type 0} → Parser A → Parser B → Parser B
p >> q = p >>= λ _. q
