-- ===== src/Json/Scan.antt =====
-- The members of `JsonParser` (middleware/src/nonworking_json.cpp) that read bytes: white space,
-- single characters, strings, literals, and the extent of a number. The C locale is in force, where
-- `isspace` and `isdigit` accept ASCII only.
pub mod Progress
use cpp_examples.Prelude.{
  ℕ, ◌+◌, Bool, true, false, ◌&&◌, ◌||◌, List, [], ◌∷◌, ◌++◌, Option, none, some, leb, ◌==◌,
  if◌then◌else◌,
}
use cpp_examples.Json.Outcome.{
  Cursor, Parser, Outcome, ok, throw, unexpected_end, invalid_escape, expected, expected_literal,
  pure, ◌>>=◌, ◌>>◌,
}

unfoldable pub is_space : ℕ → Bool
is_space c = c == 32 || (leb 9 c && leb c 13)

unfoldable pub is_digit : ℕ → Bool
is_digit c = leb b'0' c && leb c b'9'

-- Both loops of the parser that only advance `pos`.
unfoldable pub skip_while : (ℕ → Bool) → ℕ → List ℕ → Cursor
skip_while test pos [] = (pos, [])
skip_while test pos (c ∷ rest) = elim (test c) [
  | true ↦ skip_while test (pos + 1) rest
  | false ↦ (pos, c ∷ rest)
]

unfoldable pub skip_whitespace : Parser (Unit {0})
skip_whitespace (pos, rest) = ok (tt, skip_while is_space pos rest)

unfoldable pub skip_digits : Parser (Unit {0})
skip_digits (pos, rest) = ok (tt, skip_while is_digit pos rest)

unfoldable pub peek : Parser ℕ
peek (pos, []) = throw unexpected_end
peek (pos, c ∷ rest) = ok (c, (pos, c ∷ rest))

unfoldable pub consume : Parser ℕ
consume (pos, []) = throw unexpected_end
consume (pos, c ∷ rest) = ok (c, (pos + 1, rest))

unfoldable pub expect_here : ℕ → Parser ℕ
expect_here c = do b ← peek; if b == c then consume else (λ (pos, rest). throw (expected c b pos))

unfoldable pub expect : ℕ → Parser ℕ
expect c = skip_whitespace >> expect_here c

-- The `switch` on the byte behind a backslash.
unfoldable pub unescape : ℕ → Option ℕ
unescape c =
    if c == b'"' || c == 92 || c == b'/'
    then some c
    else if c == b'b'
    then some 8
    else if c == b'f'
    then some 12
    else if c == b'n'
    then some 10
    else if c == b'r'
    then some 13
    else if c == b't'
    then some 9
    else none

-- The loop of `parse_string`; the flag is set between a backslash and the byte behind it.
unfoldable pub string_loop : Bool → List ℕ → ℕ → List ℕ → Outcome (List ℕ × Cursor)
string_loop escaped s pos [] = throw unexpected_end
string_loop true s pos (c ∷ rest) = elim (unescape c) [
  | some b ↦ string_loop false (s ++ b ∷ []) (pos + 1) rest
  | none ↦ throw invalid_escape
]
string_loop false s pos (c ∷ rest) = elim (c == b'"') [
  | true ↦ ok (s, (pos, c ∷ rest))
  | false ↦ elim (c == 92) [
    | true ↦ string_loop true s (pos + 1) rest
    | false ↦ string_loop false (s ++ c ∷ []) (pos + 1) rest
  ]
]

unfoldable pub parse_string : Parser (List ℕ)
parse_string = do expect b'"'; s ← λ (pos, rest). string_loop false [] pos rest; expect b'"'; pure s

unfoldable pub literal_loop : List ℕ → List ℕ → Parser (Unit {0})
literal_loop literal [] cursor = ok (tt, cursor)
literal_loop literal (c ∷ more) (pos, []) = throw (expected_literal literal)
literal_loop literal (c ∷ more) (pos, b ∷ rest) = elim (b == c) [
  | true ↦ literal_loop literal more (pos + 1, rest)
  | false ↦ throw (expected_literal literal)
]

unfoldable pub parse_literal : {A : Type 0} → List ℕ → A → Parser A
parse_literal literal value = do literal_loop literal literal; pure value

-- `parse_number` up to the substring: whether the number has a fraction or an exponent.
unfoldable pub fraction : Parser Bool
fraction = do c ← peek; if c == b'.' then (do consume; skip_digits; pure true) else pure false

unfoldable pub skip_sign : ℕ → Parser (Unit {0})
skip_sign d = if d == b'+' || d == b'-' then consume >> pure tt else pure tt

unfoldable pub exponent : Bool → Parser Bool
exponent is_double = do
  c ← peek
  if c == b'e' || c == b'E'
      then (do consume; d ← peek; skip_sign d; skip_digits; pure true)
      else pure is_double

unfoldable pub skip_minus : ℕ → Parser (Unit {0})
skip_minus c = if c == b'-' then consume >> pure tt else pure tt

unfoldable pub integer_part : ℕ → Parser (Unit {0})
integer_part c = skip_minus c >> skip_digits

unfoldable pub scan_number : Parser Bool
scan_number = do c ← peek; integer_part c; is_double ← fraction; exponent is_double
