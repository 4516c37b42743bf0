-- ===== src/Json/Print/Scanned.antt =====
-- `parse_number` of middleware/src/nonworking_json.cpp up to its substring, on printed numbers.
use cpp_examples.Prelude.{
  ℕ, suc, ◌+◌, ◌≡◌, refl, ap, ◌∙◌, true, false, ◌||◌, List, [], ◌∷◌, ◌++◌, length, arith, ◌==◌,
}
use cpp_examples.Json.Outcome.{ok, bind}
use cpp_examples.Json.Scan.{
  is_digit, skip_digits, peek, consume, fraction, exponent, skip_minus, integer_part, scan_number,
}
use cpp_examples.Json.Number.RoundTrip.{AllDigits}
use cpp_examples.Json.Print.Reads.{skip_while-stop, skip_while-go}

-- A byte that ends a number: no digit, no point, no exponent.
abbrev pub EndsNumber : ℕ → Type 0
EndsNumber c = (is_digit c ≡ false) × ((c == b'.') ≡ false) × ((c == b'e' || c == b'E') ≡ false)

skip_digits-run :
    (ds : List ℕ) (pos c : ℕ) (rest : List ℕ)
    → AllDigits ds
    → is_digit c ≡ false
    → skip_digits (pos, ds ++ c ∷ rest) ≡ ok (tt, (pos + length ds, c ∷ rest))
unfolding skip_digits
skip_digits-run [] pos c rest h e =
    rw (skip_while-stop is_digit pos c rest e) (ap (λ p. ok (tt, (p, c ∷ rest))) (omega arith))
skip_digits-run (d ∷ ds) pos c rest h e =
    rw (skip_while-go is_digit pos d (ds ++ c ∷ rest) h.0)
      (skip_digits-run ds (pos + 1) c rest h.1 e ∙ ap (λ p. ok (tt, (p, c ∷ rest))) (omega arith))

digit-ne-minus : (d : ℕ) → is_digit d ≡ true → (d == b'-') ≡ false
unfolding is_digit
digit-ne-minus d h = ground arith

tail_run :
    (pos c : ℕ) (rest : List ℕ)
    → EndsNumber c
    → bind (fraction (pos, c ∷ rest)) (λ (is_double, cursor). exponent is_double cursor)
      ≡ ok (false, (pos, c ∷ rest))
unfolding fraction exponent peek
tail_run pos c rest (digit, dot, exp) = rw (dot, exp)

pub integer_digits :
    (d : ℕ) (ds : List ℕ) (pos c : ℕ) (rest : List ℕ)
    → AllDigits (d ∷ ds)
    → is_digit c ≡ false
    → integer_part d (pos, d ∷ ds ++ c ∷ rest) ≡ ok (tt, (pos + length (d ∷ ds), c ∷ rest))
unfolding integer_part skip_minus
integer_digits d ds pos c rest h e =
    rw (digit-ne-minus d h.0) (skip_digits-run (d ∷ ds) pos c rest h e)

pub integer_minus :
    (ds : List ℕ) (pos c : ℕ) (rest : List ℕ)
    → AllDigits ds
    → is_digit c ≡ false
    → integer_part b'-' (pos, b'-' ∷ (ds ++ c ∷ rest)) ≡ ok (tt, (pos + suc (length ds), c ∷ rest))
unfolding integer_part skip_minus consume
integer_minus ds pos c rest h e =
    skip_digits-run ds (pos + 1) c rest h e ∙ ap (λ p. ok (tt, (p, c ∷ rest))) (omega arith)

-- An integer is scanned up to the byte behind it.
pub scan_number-digits :
    (d : ℕ) (ds : List ℕ) (pos c : ℕ) (rest : List ℕ)
    → AllDigits (d ∷ ds)
    → EndsNumber c
    → scan_number (pos, d ∷ ds ++ c ∷ rest) ≡ ok (false, (pos + length (d ∷ ds), c ∷ rest))
unfolding scan_number peek integer_part skip_minus is_digit
scan_number-digits d ds pos c rest h e =
    rw (integer_digits d ds pos c rest h e.0) (tail_run (pos + length (d ∷ ds)) c rest e)

pub scan_number-minus :
    (ds : List ℕ) (pos c : ℕ) (rest : List ℕ)
    → AllDigits ds
    → EndsNumber c
    → scan_number (pos, b'-' ∷ (ds ++ c ∷ rest)) ≡ ok (false, (pos + suc (length ds), c ∷ rest))
unfolding scan_number peek integer_part skip_minus consume
scan_number-minus ds pos c rest h e =
    rw (integer_minus ds pos c rest h e.0) (tail_run (pos + suc (length ds)) c rest e)

-- The fraction of a number.
fraction_run :
    (fs : List ℕ) (pos c : ℕ) (rest : List ℕ)
    → AllDigits fs
    → EndsNumber c
    → bind
        (fraction (pos, b'.' ∷ (fs ++ c ∷ rest)))
        (λ (is_double, cursor). exponent is_double cursor)
      ≡ ok (true, (pos + 1 + length fs, c ∷ rest))
unfolding fraction exponent peek consume
fraction_run fs pos c rest h (digit, dot, exp) =
    rw (skip_digits-run fs (pos + 1) c rest h digit, exp) refl

pub point_is_no_digit : is_digit b'.' ≡ false
unfolding is_digit
point_is_no_digit = refl

pub scan_number-fraction :
    (d : ℕ) (ds fs : List ℕ) (pos c : ℕ) (rest : List ℕ)
    → AllDigits (d ∷ ds)
    → AllDigits fs
    → EndsNumber c
    → scan_number (pos, d ∷ ds ++ b'.' ∷ (fs ++ c ∷ rest))
      ≡ ok (true, (pos + length (d ∷ ds) + 1 + length fs, c ∷ rest))
unfolding scan_number peek integer_part skip_minus is_digit
scan_number-fraction d ds fs pos c rest h h' e =
    rw (integer_digits d ds pos b'.' (fs ++ c ∷ rest) h point_is_no_digit)
      (fraction_run fs (pos + length (d ∷ ds)) c rest h' e)

pub scan_number-minus_fraction :
    (ds fs : List ℕ) (pos c : ℕ) (rest : List ℕ)
    → AllDigits ds
    → AllDigits fs
    → EndsNumber c
    → scan_number (pos, b'-' ∷ (ds ++ b'.' ∷ (fs ++ c ∷ rest)))
      ≡ ok (true, (pos + suc (length ds) + 1 + length fs, c ∷ rest))
unfolding scan_number peek integer_part skip_minus consume
scan_number-minus_fraction ds fs pos c rest h h' e =
    rw (integer_minus ds pos b'.' (fs ++ c ∷ rest) h point_is_no_digit)
      (fraction_run fs (pos + suc (length ds)) c rest h' e)
