-- ===== src/Json/Number.antt =====
-- The conversions between numbers and text that the program takes from the standard library:
-- `std::stoll` and `std::to_string` on `long long` as functions, and those on `double` as an
-- interface.
pub mod RoundTrip
use cpp_examples.Prelude.{
  ℕ, zero, suc, ◌+◌, ◌-◌, ◌*◌, ◌/◌, ◌%◌, ◌^◌, ◌≤◌, ◌<◌, Bool, true, false, List, [], ◌∷◌, ◌++◌, ◌⊎◌,
  inl, inr, ltb, ◌==◌, if◌then◌else◌,
}
use cpp_examples.Prelude.Int.{ℤ, pos, negsuc}
use cpp_examples.Json.Outcome.{ConversionError, invalid_argument, out_of_range}
use cpp_examples.Json.Scan.{is_digit, is_space}

-- `std::stod` and `std::to_string(double)`; `double` itself stays abstract.
pub record DoubleOps : Type 1 where
  pub Double : Type 0
  pub stod : List ℕ → ConversionError ⊎ Double
  pub to_string : Double → List ℕ

-- The range of `long long`.
abbrev pub InRange : ℤ → Type 0
InRange (pos n) = n < 2 ^ 63
InRange (negsuc n) = n < 2 ^ 63

-- The number that the leading digits spell, behind `acc`.
unfoldable pub read_digits : ℕ → List ℕ → ℕ
read_digits acc [] = acc
read_digits acc (c ∷ rest) = elim (is_digit c) [
  | true ↦ read_digits (acc * 10 + (c - 48)) rest
  | false ↦ acc
]

unfoldable pub starts_digit : List ℕ → Bool
starts_digit [] = false
starts_digit (c ∷ rest) = is_digit c

unfoldable pub unsigned : List ℕ → ConversionError ⊎ ℤ
unsigned text =
    if starts_digit text
    then (let n = read_digits 0 text in if ltb n (2 ^ 63) then inr (pos n) else inl out_of_range)
    else inl invalid_argument

unfoldable pub negated : List ℕ → ConversionError ⊎ ℤ
negated text =
    if starts_digit text
    then (let n = read_digits 0 text in
        if n == 0
        then inr (pos 0)
        else if ltb (n - 1) (2 ^ 63)
        then inr (negsuc (n - 1))
        else inl out_of_range)
    else inl invalid_argument

unfoldable pub signed : List ℕ → ConversionError ⊎ ℤ
signed [] = inl invalid_argument
signed (c ∷ rest) =
    if c == b'-' then negated rest else if c == b'+' then unsigned rest else unsigned (c ∷ rest)

-- `std::stoll(text)` in base ten: white space, a sign, and as many digits as there are.
unfoldable pub stoll : List ℕ → ConversionError ⊎ ℤ
stoll [] = inl invalid_argument
stoll (c ∷ rest) = elim (is_space c) [ true ↦ stoll rest | false ↦ signed (c ∷ rest) ]

-- The decimal digits of a number below `10 ^ places`.
unfoldable pub digits : ℕ → ℕ → List ℕ
digits zero n = []
digits (suc places) n = elim (ltb n 10) [
  | true ↦ (n + 48) ∷ []
  | false ↦ digits places (n / 10) ++ (n % 10 + 48) ∷ []
]

-- `std::to_string(long long)`; twenty places hold every value.
unfoldable pub long_text : ℤ → List ℕ
long_text (pos n) = digits 20 n
long_text (negsuc n) = b'-' ∷ digits 20 (n + 1)
