-- ===== src/Json/Parser.antt =====
-- `JsonParser` of middleware/src/nonworking_json.cpp: recursive descent. What a call leaves of the
-- text is no structural part of it, so each call of `parse_value` and each round of the two loops
-- costs a unit of fuel.
pub mod Total
use cpp_examples.Prelude.{
  ℕ, zero, suc, ◌+◌, ◌-◌, ◌*◌, Bool, true, false, ◌||◌, List, [], ◌∷◌, ◌⊎◌, inl, inr, length, take,
  ◌==◌, if◌then◌else◌,
}
use cpp_examples.Prelude.Int.{ℤ}
use cpp_examples.Json.Outcome.{
  Cursor, Parser, Outcome, ok, throw, out_of_fuel, ConversionError, conversion,
  expected_array_delimiter, expected_object_delimiter, unexpected_character, extra_characters, bind,
  pure, raise, ◌>>=◌, ◌>>◌,
}
use cpp_examples.Json.Value.{
  JsonValue, JsonArray, JsonObject, null, boolean, long, double, string, array, object, nil, cons,
  end, insert,
}
use cpp_examples.Json.Scan.{
  is_digit, skip_whitespace, peek, consume, expect, parse_string, parse_literal, scan_number,
}
use cpp_examples.Json.Number.{DoubleOps, stoll}

abbrev pub true_text : List ℕ
true_text = b't' ∷ b'r' ∷ b'u' ∷ b'e' ∷ []

abbrev pub false_text : List ℕ
false_text = b'f' ∷ b'a' ∷ b'l' ∷ b's' ∷ b'e' ∷ []

abbrev pub null_text : List ℕ
null_text = b'n' ∷ b'u' ∷ b'l' ∷ b'l' ∷ []

-- A conversion throws, or its result becomes a value.
abbrev pub converted : {A B : Type 0} → (A → B) → ConversionError ⊎ A → Parser B
converted f (inl e) = raise (conversion e)
converted f (inr a) = pure (f a)

module _ (ops : DoubleOps) where
  open ops use {Double, stod}

  -- `std::stod(num_str)` or `std::stoll(num_str)`
  unfoldable pub number_value : Bool → List ℕ → Parser (JsonValue Double)
  number_value true num_str = converted double (stod num_str)
  number_value false num_str = converted long (stoll num_str)

  -- The substring is from the position at entry to the one behind the number.
  unfoldable pub parse_number : Parser (JsonValue Double)
  parse_number (start_pos, text) =
      bind (scan_number (start_pos, text))
        λ (is_double, (pos, rest)). number_value is_double (take (pos - start_pos) text) (pos, rest)

  -- `parse_array` and `parse_object` around their loops.
  unfoldable pub parse_array : Parser (JsonArray Double) → Parser (JsonValue Double)
  parse_array loop = do
    expect b'['
    skip_whitespace
    c ← peek
    arr ← if c == b']' then pure nil else loop
    expect b']'
    pure (array arr)

  unfoldable pub parse_object : Parser (JsonObject Double) → Parser (JsonValue Double)
  parse_object loop = do
    expect b'{'
    skip_whitespace
    c ← peek
    obj ← if c == b'}' then pure end else loop
    expect b'}'
    pure (object obj)

  -- The ladder of `parse_value` on `current_char`.
  unfoldable pub dispatch :
      Parser (JsonValue Double) → Parser (JsonValue Double) → ℕ → Parser (JsonValue Double)
  dispatch arrays objects c =
      if c == b'"'
      then (parse_string >>= λ s. pure (string s))
      else if c == b'-' || is_digit c
      then parse_number
      else if c == b'['
      then arrays
      else if c == b'{'
      then objects
      else if c == b't'
      then parse_literal true_text (boolean true)
      else if c == b'f'
      then parse_literal false_text (boolean false)
      else if c == b'n'
      then parse_literal null_text null
      else (λ (pos, rest). throw (unexpected_character c pos))

  unfoldable mutual
    pub parse_value : ℕ → Parser (JsonValue Double)
    parse_value zero cursor = out_of_fuel
    parse_value (suc fuel) cursor =
        (do
          skip_whitespace
          c ← peek
          dispatch (parse_array (array_loop fuel)) (parse_object (object_loop fuel end)) c)
          cursor

    -- The loop of `parse_array`: the items from here on.
    pub array_loop : ℕ → Parser (JsonArray Double)
    array_loop zero cursor = out_of_fuel
    array_loop (suc fuel) cursor =
        (do
          value ← parse_value fuel
          skip_whitespace
          c ← peek
          if c == b','
              then (do consume; more ← array_loop fuel; pure (cons value more))
              else if c == b']'
              then pure (cons value nil)
              else raise expected_array_delimiter)
          cursor

    -- The loop of `parse_object`, with the entries so far.
    pub object_loop : ℕ → JsonObject Double → Parser (JsonObject Double)
    object_loop zero obj cursor = out_of_fuel
    object_loop (suc fuel) obj cursor =
        (do
          key ← parse_string
          expect b':'
          value ← parse_value fuel
          skip_whitespace
          c ← peek
          if c == b','
              then (do consume; object_loop fuel (insert key value obj))
              else if c == b'}'
              then pure (insert key value obj)
              else raise expected_object_delimiter)
          cursor

  -- `parse` after `parse_value`: nothing but white space may follow.
  unfoldable pub finish : JsonValue Double → Cursor → Outcome (JsonValue Double)
  finish result (pos, []) = ok result
  finish result (pos, c ∷ rest) = throw (extra_characters pos)

  -- `JsonParser(json).parse()`, with the fuel that the nesting of a text of this length can need.
  unfoldable pub parse : List ℕ → Outcome (JsonValue Double)
  parse json =
      bind (parse_value (2 * length json + 2) (0, json))
        λ (result, cursor). bind (skip_whitespace cursor) λ (_, after). finish result after
