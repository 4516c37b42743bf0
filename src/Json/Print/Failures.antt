-- ===== src/Json/Print/Failures.antt =====
-- Texts of the printer that the parser does not read back.
use cpp_examples.Prelude.{
  ℕ, suc, ◌+◌, ◌*◌, ◌≡◌, refl, Bool, true, false, List, [], ◌∷◌, ◌++◌, length, ◌==◌, arith,
}
use cpp_examples.Prelude.Int.{ℤ, pos, negsuc}
use cpp_examples.Json.Outcome.{Outcome, ok, throw, unexpected_end, expected, bind, Cursor}
use cpp_examples.Json.Value.{JsonValue, JsonObject, object, entry}
use cpp_examples.Json.Scan.{
  is_space, is_digit, skip_while, skip_digits, skip_whitespace, peek, consume, expect, expect_here,
  parse_string, string_loop, skip_minus, integer_part, fraction, exponent, scan_number,
}
use cpp_examples.Json.Number.{DoubleOps, digits, long_text}
use cpp_examples.Json.Number.RoundTrip.{AllDigits, digits-AllDigits, digits-cons}
use cpp_examples.Json.Parser.{parse_number, parse_object, dispatch, parse_value, parse}
use cpp_examples.Json.Print.{serialize_json}
use cpp_examples.Json.Print.Reads.{AllSpaces, Reads, reads, skip_whitespace-Reads}
use cpp_examples.Json.Print.Numbers.{long_text-StartsNumber, decimal-StartsNumber, StartsNumber}
use cpp_examples.Json.Print.Printable.{decimal}
use cpp_examples.Json.Print.Scanned.{integer_digits, integer_minus, point_is_no_digit}

skip_digits-end :
    (ds : List ℕ) (p : ℕ) → AllDigits ds → (q : ℕ) × (skip_digits (p, ds) ≡ ok (tt, (q, [])))
unfolding skip_digits skip_while
skip_digits-end [] p h = (p, refl)
skip_digits-end (d ∷ ds) p h =
    let (q, e) = skip_digits-end ds (p + 1) h.1 in (q, rw (h.0, skip_while) e)

digit-ne-minus : (d : ℕ) → is_digit d ≡ true → (d == b'-') ≡ false
unfolding is_digit
digit-ne-minus d h = ground arith

-- The scan of a number looks one byte too far.
scan_number-end : (i : ℤ) (p : ℕ) → scan_number (p, long_text i) ≡ throw unexpected_end
unfolding long_text scan_number peek integer_part skip_minus consume fraction
scan_number-end (pos n) p =
    let (d, ds, shape) = digits-cons 19 n in
    let all : AllDigits (d ∷ ds) = rw shape at (digits-AllDigits 20 n) in
    let (q, e) = skip_digits-end (d ∷ ds) p all in rw shape (rw (digit-ne-minus d all.0, e))
scan_number-end (negsuc n) p =
    let (q, e) = skip_digits-end (digits 20 (n + 1)) (p + 1) (digits-AllDigits 20 (n + 1)) in rw e

-- With a fraction the scan looks for an exponent.
fraction-end :
    (fs : List ℕ) (p : ℕ)
    → AllDigits fs
    → bind (fraction (p, b'.' ∷ fs)) (λ (is_double, cursor). exponent is_double cursor)
      ≡ throw unexpected_end
unfolding fraction exponent peek consume
fraction-end fs p h = let (q, e) = skip_digits-end fs (p + 1) h in rw e refl

scan_number-end_decimal :
    (minus : Bool) (d : ℕ) (ds fs : List ℕ) (p : ℕ)
    → AllDigits (d ∷ ds)
    → AllDigits fs
    → scan_number (p, decimal minus d ds fs) ≡ throw unexpected_end
unfolding scan_number peek
scan_number-end_decimal true d ds fs p h h' =
    rw (integer_minus (d ∷ ds) p b'.' fs h point_is_no_digit) (fraction-end fs _ h')
scan_number-end_decimal false d ds fs p h h' =
    rw (integer_digits d ds p b'.' fs h point_is_no_digit) (fraction-end fs _ h')

throw-Reads :
    {A B : Type 0} {a : A} {rest : List ℕ} {r : Outcome (A × Cursor)}
    (f : A × Cursor → Outcome (B × Cursor))
    → Reads a rest r
    → ((p : ℕ) → f (a, (p, rest)) ≡ throw unexpected_end)
    → bind r f ≡ throw unexpected_end
throw-Reads f (reads {pos = p}) k = k p

-- The steps of the parser on `{`, a margin of two, and an empty key.
at_brace : (t : List ℕ) → skip_whitespace (0, b'{' ∷ t) ≡ ok (tt, (0, b'{' ∷ t))
unfolding skip_whitespace skip_while is_space
at_brace t = refl

open_brace : (t : List ℕ) → expect b'{' (0, b'{' ∷ t) ≡ ok (b'{', (1, t))
unfolding expect expect_here peek consume skip_whitespace skip_while is_space
open_brace t = refl

at_quote : (t : List ℕ) → skip_whitespace (1, 10 ∷ 32 ∷ 32 ∷ b'"' ∷ t) ≡ ok (tt, (4, b'"' ∷ t))
unfolding skip_whitespace skip_while is_space
at_quote t = refl

empty_key : (t : List ℕ) → parse_string (4, b'"' ∷ b'"' ∷ t) ≡ ok ([], (6, t))
unfolding parse_string string_loop expect expect_here peek consume skip_whitespace skip_while
    is_space
empty_key t = refl

colon_throws :
    (c : ℕ) (t : List ℕ)
    → is_space c ≡ false
    → (c == b':') ≡ false
    → expect b':' (6, c ∷ t) ≡ throw (expected b':' c 6)
unfolding expect expect_here peek skip_whitespace skip_while
colon_throws c t space colon = rw (space, skip_while) (rw colon)

module _ (ops : DoubleOps) where
  number_throws :
      (text : List ℕ) (fuel p : ℕ) (before : List ℕ)
      → StartsNumber text
      → ((q : ℕ) → scan_number (q, text) ≡ throw unexpected_end)
      → AllSpaces before
      → parse_value ops (suc fuel) (p, before ++ text) ≡ throw unexpected_end
  unfolding parse_value peek dispatch parse_number
  number_throws text fuel p before (d, ds, shape, space, bracket, quote, number) ends h = rw shape (
      throw-Reads _ (skip_whitespace-Reads before p d ds h space) λ q.
        let scan : scan_number (q, d ∷ ds) ≡ throw unexpected_end = rw shape at (ends q) in
        rw (quote, number) (rw scan))

  parse-number_text :
      (text before : List ℕ)
      → StartsNumber text
      → ((q : ℕ) → scan_number (q, text) ≡ throw unexpected_end)
      → AllSpaces before
      → parse ops (before ++ text) ≡ throw unexpected_end
  unfolding parse
  parse-number_text text before starts ends h =
      let fuel : 2 * length (before ++ text) + 2 ≡ suc (2 * length (before ++ text) + 1) =
        omega arith in
      rw fuel (rw (number_throws text (2 * length (before ++ text) + 1) 0 before starts ends h))

  parse-long_text :
      (i : ℤ) (minus : Bool) (d : ℕ) (ds fs before : List ℕ)
      → AllDigits (d ∷ ds)
      → AllDigits fs
      → AllSpaces before
      → (parse ops (before ++ long_text i) ≡ throw unexpected_end)
        × (parse ops (before ++ decimal minus d ds fs) ≡ throw unexpected_end)
  parse-long_text i minus d ds fs before h h' spaces = (
    parse-number_text (long_text i) before (long_text-StartsNumber i) (scan_number-end i) spaces,
    parse-number_text (decimal minus d ds fs) before (decimal-StartsNumber minus d ds fs (h.0))
        (λ q. scan_number-end_decimal minus d ds fs q h h') spaces,
  )

  quoted_throws :
      (fuel c : ℕ) (text : List ℕ)
      → is_space c ≡ false
      → (c == b':') ≡ false
      → parse_value ops (suc (suc fuel)) (0, b'{' ∷ 10 ∷ 32 ∷ 32 ∷ b'"' ∷ b'"' ∷ c ∷ text)
        ≡ throw (expected b':' c 6)
  unfolding parse_value peek dispatch parse_object is_digit
  quoted_throws fuel c text space colon =
      rw (at_brace _, open_brace _, at_quote _, empty_key _, colon_throws c text space colon)

  parse-quoted_key :
      (c : ℕ) (key : List ℕ) (v : JsonValue ops.Double) (more : JsonObject ops.Double)
      → is_space c ≡ false
      → (c == b':') ≡ false
      → parse ops (serialize_json ops (object (entry (b'"' ∷ c ∷ key) v more)) 0)
        ≡ throw (expected b':' c 6)
  unfolding parse serialize_json
  parse-quoted_key c key v more space colon =
      let fuel : 2 * length text + 2 ≡ suc (suc (2 * length text)) = omega arith in
      rw fuel (rw (quoted_throws (2 * length text) c _ space colon))
    where
      text : List ℕ
      text = serialize_json ops (object (entry (b'"' ∷ c ∷ key) v more)) 0

  -- A number without an exponent at the end of the text, behind white space or nothing, is never read:
  -- behind the print of any `long long` the parser looks for a fraction, and behind digits, a point and
  -- digits, with a sign or without, for an exponent, and it throws at the end of the input. The print
  -- of an object whose first key is a quote, a byte that is no space and no colon, and more bytes is
  -- not read either: keys are printed without escapes, and behind the quote the parser expects a colon.
  pub parse-throw :
      (i : ℤ) (minus : Bool) (d : ℕ) (ds fs before : List ℕ) (c : ℕ) (key : List ℕ)
      (v : JsonValue ops.Double) (more : JsonObject ops.Double)
      → AllDigits (d ∷ ds)
      → AllDigits fs
      → AllSpaces before
      → is_space c ≡ false
      → (c == b':') ≡ false
      → ((parse ops (before ++ long_text i) ≡ throw unexpected_end)
          × (parse ops (before ++ decimal minus d ds fs) ≡ throw unexpected_end))
        × (parse ops (serialize_json ops (object (entry (b'"' ∷ c ∷ key) v more)) 0)
            ≡ throw (expected b':' c 6))
  parse-throw i minus d ds fs before c key v more h h' spaces space colon = (
    parse-long_text i minus d ds fs before h h' spaces,
    parse-quoted_key c key v more space colon,
  )
