-- ===== src/Json/Tests.antt =====
-- Runs of the parser and the printer on inputs like those of `main` in
-- middleware/src/nonworking_json.cpp.
use Prim.Native.Char.{code}
use Prim.Native.String.{String}
use cpp_examples.Prelude.{ℕ, ◌≡◌, refl, true, List, [], ◌∷◌, ◌++◌, inr, arith}
use cpp_examples.Prelude.Int.{pos, negsuc}
use cpp_examples.Json.Outcome.{ok, throw, unexpected_end, unexpected_character, expected}
use cpp_examples.Json.Located.{Proper}
use cpp_examples.Json.Value.{
  JsonValue, JsonObject, null, boolean, long, double, string, array, object, nil, cons, end, entry,
  compare_key,
}
use cpp_examples.Json.Scan.{
  is_space, is_digit, skip_while, skip_whitespace, skip_digits, peek, consume, expect_here, expect,
  fraction, exponent, skip_minus, integer_part, scan_number,
}
use cpp_examples.Json.Number.{
  DoubleOps, read_digits, starts_digit, unsigned, negated, signed, stoll, digits, long_text,
}
use cpp_examples.Json.Parser.{
  number_value, parse_number, parse_array, parse_object, dispatch, parse_value, finish, parse,
}
use cpp_examples.Json.Parser.Total.{parse-Proper}
use cpp_examples.Json.Print.{has_dot, drop_zeros, drop_dot, trim_zeros, serialize_json}
use cpp_examples.Json.Print.Printable.{
  Printable, of_boolean, of_long, of_double, of_string, of_object, last_entry, next_entry,
}
use cpp_examples.Json.Print.RoundTrip.{parse-serialize_json}
use cpp_examples.Json.Print.Failures.{parse-throw}

abbrev codes : String → List ℕ
codes String.[] = []
codes (String.◌∷◌ c s) = code c ∷ codes s

-- A `double` kept as its text.
abbrev text_doubles : DoubleOps
text_doubles = record { Double = List ℕ; stod = λ t. inr t; to_string = λ t. t }

abbrev numbers : JsonValue (List ℕ)
numbers = array (cons (long (pos 1)) (cons (long (negsuc 11)) nil))

reads_numbers : parse text_doubles (codes "[1, -12]") ≡ ok numbers
unfolding parse parse_value finish dispatch parse_array parse_object parse_number number_value stoll
    signed unsigned negated starts_digit read_digits scan_number integer_part skip_minus fraction
    exponent skip_digits skip_whitespace skip_while peek consume expect expect_here is_space
    is_digit
reads_numbers = refl

-- `invalid_json1` of `main`: a trailing comma.
refuses_trailing_comma : parse text_doubles (codes "[1, 2,]") ≡ throw (unexpected_character b']' 6)
unfolding parse parse_value finish dispatch parse_array parse_object parse_number number_value stoll
    signed unsigned negated starts_digit read_digits scan_number integer_part skip_minus fraction
    exponent skip_digits skip_whitespace skip_while peek consume expect expect_here is_space
    is_digit
refuses_trailing_comma = refl

prints_numbers : serialize_json text_doubles numbers 0 ≡ codes "[\n  1,\n  -12\n]"
unfolding serialize_json long_text digits
prints_numbers = refl

keeps_half : trim_zeros (codes "85.500000") ≡ codes "85.5"
unfolding trim_zeros has_dot drop_zeros drop_dot
keeps_half = refl

abbrev record_text : JsonObject (List ℕ)
record_text = entry (codes "age") (long (pos 30)) (
    entry (codes "mean") (double (codes "-8.5"))
      (entry (codes "name") (string (codes "A\"b\\")) (entry (codes "ok") (boolean true) end)))

record_text-Printable : Printable text_doubles (object record_text)
unfolding compare_key trim_zeros has_dot drop_zeros drop_dot is_digit
record_text-Printable = of_object (
    next_entry (refl, refl, (refl, refl, (refl, refl, tt))) (of_long (pos 30) (omega arith)) refl
      (next_entry (refl, refl, (refl, refl, (refl, refl, (refl, refl, tt))))
        (of_double (codes "-8.5") true b'8' [] (b'5' ∷ []) refl (refl, tt) (refl, tt) refl) refl
        (next_entry (refl, refl, (refl, refl, (refl, refl, (refl, refl, tt)))) (of_string _) refl
          (last_entry (refl, refl, (refl, refl, tt)) (of_boolean true)))))

parse-Proper_example : Proper (codes "[1, 2,]") (parse text_doubles (codes "[1, 2,]"))
parse-Proper_example = parse-Proper text_doubles (codes "[1, 2,]")

parse-serialize_json_example :
    parse text_doubles (32 ∷ (serialize_json text_doubles (object record_text) 0 ++ 10 ∷ []))
    ≡ ok (object record_text)
unfolding is_space
parse-serialize_json_example =
    parse-serialize_json text_doubles (object record_text) 0 (32 ∷ []) (10 ∷ [])
      record_text-Printable (refl, tt) (refl, tt) (λ e. absurd e)

-- `json5` of `main`, a number like `json6`, and a key that starts with a quote.
parse-throw_example :
    ((parse text_doubles (long_text (pos 12345)) ≡ throw unexpected_end)
      × (parse text_doubles (codes "-0.25") ≡ throw unexpected_end))
    × (parse text_doubles (serialize_json text_doubles (object (entry (codes "\"a") null end)) 0)
        ≡ throw (expected b':' b'a' 6))
unfolding is_digit is_space
parse-throw_example =
    parse-throw text_doubles (pos 12345) true b'0' [] (b'2' ∷ b'5' ∷ []) [] b'a' [] null end
      (refl, tt) (refl, (refl, tt)) tt refl refl
