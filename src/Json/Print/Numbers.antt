-- ===== src/Json/Print/Numbers.antt =====
-- How the parser reads printed numbers, and how they start.
use cpp_examples.Prelude.{
  ℕ, ◌+◌, ◌-◌, ◌≡◌, refl, ap, true, false, ◌||◌, List, [], ◌∷◌, ◌++◌, length, take, append_assoc,
  arith, ◌==◌, ◌∙◌, inr, Bool, length-append,
}
use cpp_examples.Prelude.Int.{ℤ, pos, negsuc}
use cpp_examples.Json.Outcome.{ok}
use cpp_examples.Json.Value.{long, double}
use cpp_examples.Json.Scan.{is_space, is_digit, scan_number}
use cpp_examples.Json.Number.{DoubleOps, InRange, digits, long_text}
use cpp_examples.Json.Number.RoundTrip.{AllDigits, digits-AllDigits, digits-cons, stoll-long_text}
use cpp_examples.Json.Parser.{number_value, parse_number}
use cpp_examples.Json.Print.Reads.{Reads, reads}
use cpp_examples.Json.Print.Scanned.{
  EndsNumber, scan_number-digits, scan_number-minus, scan_number-fraction,
  scan_number-minus_fraction,
}
use cpp_examples.Json.Print.Printable.{decimal}

take-printed : (text rest : List ℕ) (p : ℕ) → take (p + length text - p) (text ++ rest) ≡ text
take-printed text rest p = rw (same p (length text)) (go text)
  where
    same : (a b : ℕ) → a + b - a ≡ b
    same a b = omega arith

    go : (t : List ℕ) → take (length t) (t ++ rest) ≡ t
    go [] = refl
    go (c ∷ t) = ap (◌∷◌ c) (go t)

-- How the text of a number starts.
abbrev pub StartsNumber : List ℕ → Type 0
StartsNumber text =
    (c : ℕ) × (rest : List ℕ) × (text ≡ c ∷ rest)
    × (is_space c ≡ false)
    × ((c == b']') ≡ false)
    × ((c == b'"') ≡ false)
    × ((c == b'-' || is_digit c) ≡ true)

digit_start :
    (c : ℕ)
    → is_digit c ≡ true
    → (is_space c ≡ false)
      × ((c == b']') ≡ false)
      × ((c == b'"') ≡ false)
      × ((c == b'-' || is_digit c) ≡ true)
unfolding is_digit is_space
digit_start c h = (ground arith, ground arith, ground arith, ground arith)

pub long_text-StartsNumber : (i : ℤ) → StartsNumber (long_text i)
unfolding long_text is_space
long_text-StartsNumber (pos n) =
    let (c, rest, shape) = digits-cons 19 n in
    let all : AllDigits (c ∷ rest) = rw shape at (digits-AllDigits 20 n) in
    let (a, b, d, e) = digit_start c all.0 in (c, rest, shape, a, b, d, e)
long_text-StartsNumber (negsuc n) = (b'-', digits 20 (n + 1), refl, refl, refl, refl, refl)

pub decimal-StartsNumber :
    (minus : Bool) (d : ℕ) (ds fs : List ℕ)
    → is_digit d ≡ true
    → StartsNumber (decimal minus d ds fs)
unfolding is_space
decimal-StartsNumber true d ds fs h = (b'-', _, refl, refl, refl, refl, refl)
decimal-StartsNumber false d ds fs h =
    let (a, b, c, e) = digit_start d h in (d, _, refl, a, b, c, e)

module _ (ops : DoubleOps) where
  open ops use {Double}

  scan_number-long_text :
      (i : ℤ) (p c : ℕ) (rest : List ℕ)
      → EndsNumber c
      → scan_number (p, long_text i ++ c ∷ rest) ≡ ok (false, (p + length (long_text i), c ∷ rest))
  unfolding long_text
  scan_number-long_text (pos n) p c rest h =
      let (d, ds, shape) = digits-cons 19 n in
      let all : AllDigits (d ∷ ds) = rw shape at (digits-AllDigits 20 n) in
      rw shape (scan_number-digits d ds p c rest all h)
  scan_number-long_text (negsuc n) p c rest h =
      scan_number-minus (digits 20 (n + 1)) p c rest (digits-AllDigits 20 (n + 1)) h

  pub parse_number-Reads :
      (i : ℤ) (p c : ℕ) (rest : List ℕ)
      → InRange i
      → EndsNumber c
      → Reads (long i) (c ∷ rest) (parse_number ops (p, long_text i ++ c ∷ rest))
  unfolding parse_number number_value
  parse_number-Reads i p c rest range h =
      rw
        (
          scan_number-long_text i p c rest h,
          take-printed (long_text i) (c ∷ rest) p,
          stoll-long_text i range,
        )
        reads

  scan_number-decimal :
      (minus : Bool) (d : ℕ) (ds fs : List ℕ) (p c : ℕ) (rest : List ℕ)
      → AllDigits (d ∷ ds)
      → AllDigits fs
      → EndsNumber c
      → scan_number (p, decimal minus d ds fs ++ c ∷ rest)
        ≡ ok (true, (p + length (decimal minus d ds fs), c ∷ rest))
  scan_number-decimal true d ds fs p c rest h h' e =
      let size = length-append (d ∷ ds) (b'.' ∷ fs) in
      ap (λ t. scan_number (p, t)) (simp append_assoc)
      ∙ scan_number-minus_fraction (d ∷ ds) fs p c rest h h' e
      ∙ ap (λ q. ok (true, (q, c ∷ rest))) (omega (arith, size))
  scan_number-decimal false d ds fs p c rest h h' e =
      let size = length-append (d ∷ ds) (b'.' ∷ fs) in
      ap (λ t. scan_number (p, t)) (simp append_assoc)
      ∙ scan_number-fraction d ds fs p c rest h h' e
      ∙ ap (λ q. ok (true, (q, c ∷ rest))) (omega (arith, size))

  pub parse_number-Reads_decimal :
      (v : Double) (minus : Bool) (d : ℕ) (ds fs : List ℕ) (p c : ℕ) (rest : List ℕ)
      → AllDigits (d ∷ ds)
      → AllDigits fs
      → ops.stod (decimal minus d ds fs) ≡ inr v
      → EndsNumber c
      → Reads (double v) (c ∷ rest) (parse_number ops (p, decimal minus d ds fs ++ c ∷ rest))
  unfolding parse_number number_value
  parse_number-Reads_decimal v minus d ds fs p c rest h h' back e =
      rw
        (
          scan_number-decimal minus d ds fs p c rest h h' e,
          take-printed (decimal minus d ds fs) (c ∷ rest) p,
          back,
        )
        reads
