-- ===== src/Json/Print/Steps.antt =====
-- `parse_value` on each kind of printed value, given what its loops read.
use cpp_examples.Prelude.{ℕ, suc, ◌*◌, ◌≡◌, refl, Bool, true, false, List, [], ◌∷◌, ◌++◌, inr}
use cpp_examples.Prelude.Int.{ℤ}
use cpp_examples.Json.Outcome.{Parser}
use cpp_examples.Json.Value.{
  JsonValue, JsonArray, JsonObject, null, boolean, long, double, string, array, object, nil, end,
}
use cpp_examples.Json.Scan.{is_space, is_digit, peek}
use cpp_examples.Json.Number.{DoubleOps, InRange}
use cpp_examples.Json.Parser.{
  parse_array, parse_object, dispatch, parse_value, array_loop, object_loop, true_text, false_text,
  null_text,
}
use cpp_examples.Json.Print.{indent, serialize_json, trim_zeros}
use cpp_examples.Json.Print.Printable.{decimal}
use cpp_examples.Json.Number.RoundTrip.{AllDigits}
use cpp_examples.Json.Print.Reads.{
  Reads, reads, Reads-bind, AllSpaces, replicate-AllSpaces, skip_whitespace-Reads, expect-Reads,
  parse_string-Reads, parse_literal-Reads,
}
use cpp_examples.Json.Print.Scanned.{EndsNumber}
use cpp_examples.Json.Print.Numbers.{
  long_text-StartsNumber, decimal-StartsNumber, parse_number-Reads, parse_number-Reads_decimal,
}
use cpp_examples.Json.Print.Layout.{
  parse_value-Reads, Starts, string_text, empty_array_text, empty_object_text,
}

newline-AllSpaces : (level : ℕ) → AllSpaces (10 ∷ 10 ∷ indent level)
unfolding is_space
newline-AllSpaces level = (refl, (refl, replicate-AllSpaces (level * 2)))

module _ (ops : DoubleOps) where
  open ops use {Double}

  pub parse_array-Reads :
      (loop : Parser (JsonArray Double)) (p : ℕ) (ws text rest : List ℕ) {arr : JsonArray Double}
      → AllSpaces ws
      → Starts text
      → ((q : ℕ) → Reads arr (b']' ∷ rest) (loop (q, text)))
      → Reads (array arr) rest (parse_array ops loop (p, b'[' ∷ (ws ++ text)))
  unfolding parse_array peek is_space
  parse_array-Reads loop p ws text rest h (c, t, shape, space, bracket) k =
      Reads-bind _ (expect-Reads [] p b'[' (ws ++ text) tt refl) λ p₁. rw shape (
        Reads-bind _ (skip_whitespace-Reads ws p₁ c t h space) λ p₂. rw bracket (
          Reads-bind _ (rw shape at (k p₂))
            λ p₃. Reads-bind _ (expect-Reads [] p₃ b']' rest tt refl) λ p₄. reads))

  parse_array-Reads_nil :
      (loop : Parser (JsonArray Double)) (p : ℕ) (ws rest : List ℕ)
      → AllSpaces ws
      → Reads (array nil) rest (parse_array ops loop (p, b'[' ∷ (ws ++ b']' ∷ rest)))
  unfolding parse_array peek is_space
  parse_array-Reads_nil loop p ws rest h =
      Reads-bind _ (expect-Reads [] p b'[' (ws ++ b']' ∷ rest) tt refl) λ p₁.
        Reads-bind _ (skip_whitespace-Reads ws p₁ b']' rest h refl)
          λ p₂. Reads-bind _ (expect-Reads [] p₂ b']' rest tt refl) λ p₃. reads

  pub parse_object-Reads :
      (loop : Parser (JsonObject Double)) (p : ℕ) (ws text rest : List ℕ) {obj : JsonObject Double}
      → AllSpaces ws
      → ((q : ℕ) → Reads obj (b'}' ∷ rest) (loop (q, b'"' ∷ text)))
      → Reads (object obj) rest (parse_object ops loop (p, b'{' ∷ (ws ++ b'"' ∷ text)))
  unfolding parse_object peek is_space
  parse_object-Reads loop p ws text rest h k =
      Reads-bind _ (expect-Reads [] p b'{' (ws ++ b'"' ∷ text) tt refl) λ p₁.
        Reads-bind _ (skip_whitespace-Reads ws p₁ b'"' text h refl) λ p₂.
          Reads-bind _ (k p₂) λ p₃. Reads-bind _ (expect-Reads [] p₃ b'}' rest tt refl) λ p₄. reads

  parse_object-Reads_end :
      (loop : Parser (JsonObject Double)) (p : ℕ) (ws rest : List ℕ)
      → AllSpaces ws
      → Reads (object end) rest (parse_object ops loop (p, b'{' ∷ (ws ++ b'}' ∷ rest)))
  unfolding parse_object peek is_space
  parse_object-Reads_end loop p ws rest h =
      Reads-bind _ (expect-Reads [] p b'{' (ws ++ b'}' ∷ rest) tt refl) λ p₁.
        Reads-bind _ (skip_whitespace-Reads ws p₁ b'}' rest h refl)
          λ p₂. Reads-bind _ (expect-Reads [] p₂ b'}' rest tt refl) λ p₃. reads

  module _ (level fuel p : ℕ) (ws rest : List ℕ) (hs : AllSpaces ws) where
    abbrev pub ReadsBack : JsonValue Double → Type 0
    ReadsBack v =
        Reads v rest (parse_value ops (suc fuel) (p, ws ++ (serialize_json ops v level ++ rest)))

    pub null-Reads : ReadsBack null
    unfolding serialize_json dispatch is_digit is_space
    null-Reads =
        parse_value-Reads ops fuel p b'n' ws _ rest hs refl
          λ q. parse_literal-Reads null_text null q rest

    pub boolean-Reads : (b : Bool) → ReadsBack (boolean b)
    unfolding serialize_json dispatch is_digit is_space
    boolean-Reads true =
        parse_value-Reads ops fuel p b't' ws _ rest hs refl
          λ q. parse_literal-Reads true_text (boolean true) q rest
    boolean-Reads false =
        parse_value-Reads ops fuel p b'f' ws _ rest hs refl
          λ q. parse_literal-Reads false_text (boolean false) q rest

    pub string-Reads : (s : List ℕ) → ReadsBack (string s)
    unfolding dispatch is_space
    string-Reads s = rw (string_text ops s level rest) (
        parse_value-Reads ops fuel p b'"' ws _ rest hs refl
          λ q. Reads-bind _ (parse_string-Reads s [] q rest tt) λ q'. reads)

    pub long-Reads :
        (i : ℤ) (c : ℕ) (r : List ℕ) → InRange i → rest ≡ c ∷ r → EndsNumber c → ReadsBack (long i)
    unfolding dispatch serialize_json
    long-Reads i c r range e ends =
        let (d, ds, shape, space, bracket, quote, number) = long_text-StartsNumber i in
        rw shape (
          parse_value-Reads ops fuel p d ws _ rest hs space
            λ q. rw (quote, number, e) (rw shape at (parse_number-Reads ops i q c r range ends)))

    pub double-Reads :
        (d : Double) (minus : Bool) (first : ℕ) (ds fs : List ℕ) (c : ℕ) (r : List ℕ)
        → trim_zeros (ops.to_string d) ≡ decimal minus first ds fs
        → AllDigits (first ∷ ds)
        → AllDigits fs
        → ops.stod (decimal minus first ds fs) ≡ inr d
        → rest ≡ c ∷ r
        → EndsNumber c
        → ReadsBack (double d)
    unfolding dispatch serialize_json
    double-Reads d minus first ds fs c r printed h h' back e ends =
        let (b, bs, shape, space, bracket, quote, number) =
          decimal-StartsNumber minus first ds fs (h.0) in
        rw (printed, shape)
          (parse_value-Reads ops fuel p b ws _ rest hs space λ q.
            rw (quote, number, e)
              (rw shape at
                (parse_number-Reads_decimal ops d minus first ds fs q c r h h' back ends)))

    pub empty_array-Reads : ReadsBack (array nil)
    unfolding dispatch is_digit is_space
    empty_array-Reads = rw (empty_array_text ops level rest) (
        parse_value-Reads ops fuel p b'[' ws _ rest hs refl λ q.
          parse_array-Reads_nil (array_loop ops fuel) q (10 ∷ 10 ∷ indent level) rest
            (newline-AllSpaces level))

    pub empty_object-Reads : ReadsBack (object end)
    unfolding dispatch is_digit is_space
    empty_object-Reads = rw (empty_object_text ops level rest) (
        parse_value-Reads ops fuel p b'{' ws _ rest hs refl λ q.
          parse_object-Reads_end (object_loop ops fuel end) q (10 ∷ 10 ∷ indent level) rest
            (newline-AllSpaces level))
