-- ===== src/Json/Number/RoundTrip.antt =====
-- `std::stoll` reads back what `std::to_string(long long)` writes.
use native.Mathlib.Nat.{pow-suc}
use cpp_examples.Prelude.{
  ℕ, zero, suc, ◌+◌, ◌-◌, ◌*◌, ◌/◌, ◌%◌, ◌^◌, ◌<◌, ◌≡◌, ◌∙◌, refl, true, false, List, [], ◌∷◌, ◌++◌,
  inl, inr, arith, ltb, lt→ltb, ◌==◌, Bool-cases,
}
use cpp_examples.Prelude.Int.{ℤ, pos, negsuc}
use cpp_examples.Json.Scan.{is_digit, is_space}
use cpp_examples.Json.Number.{
  InRange, read_digits, starts_digit, unsigned, negated, signed, stoll, digits, long_text,
}

abbrev pub AllDigits : List ℕ → Type 0
AllDigits [] = Unit {0}
AllDigits (c ∷ rest) = (is_digit c ≡ true) × AllDigits rest

AllDigits-append : (xs ys : List ℕ) → AllDigits xs → AllDigits ys → AllDigits (xs ++ ys)
AllDigits-append [] ys hx hy = hy
AllDigits-append (c ∷ xs) ys hx hy = (hx.0, AllDigits-append xs ys hx.1 hy)

is_digit-digit : (n : ℕ) → n < 10 → is_digit (n + 48) ≡ true
unfolding is_digit
is_digit-digit n h = ground arith

pub digits-AllDigits : (places n : ℕ) → AllDigits (digits places n)
unfolding digits
digits-AllDigits zero n = tt
digits-AllDigits (suc places) n = elim (Bool-cases (ltb n 10)) [
  | inl e ↦ rw (e, digits) (is_digit-digit n (ground arith), tt)
  | inr e ↦
      rw (e, digits)
        (AllDigits-append (digits places (n / 10)) _ (digits-AllDigits places (n / 10))
          (is_digit-digit (n % 10) (omega arith), tt))
]

read_digits-append :
    (acc : ℕ) (xs ys : List ℕ)
    → AllDigits xs
    → read_digits acc (xs ++ ys) ≡ read_digits (read_digits acc xs) ys
unfolding read_digits
read_digits-append acc [] ys h = refl
read_digits-append acc (c ∷ xs) ys h =
    rw (h.0, read_digits) (read_digits-append (acc * 10 + (c - 48)) xs ys h.1)

read_digits-digit : (acc n : ℕ) → n < 10 → read_digits acc ((n + 48) ∷ []) ≡ acc * 10 + n
unfolding read_digits
read_digits-digit acc n h = rw (is_digit-digit n h, read_digits) (omega arith)

tenth : (places n : ℕ) → n < 10 ^ suc places → n / 10 < 10 ^ places
tenth places n h =
    let scaled : n < 10 ^ places * 10 = rw (pow-suc 10 places) at h in omega (arith, scaled)

read_digits-digits : (places n : ℕ) → n < 10 ^ places → read_digits 0 (digits places n) ≡ n
unfolding digits read_digits
read_digits-digits zero n h = omega arith
read_digits-digits (suc places) n h = elim (Bool-cases (ltb n 10)) [
  | inl e ↦ rw (e, digits) (read_digits-digit 0 n (ground arith) ∙ omega arith)
  | inr e ↦
      rw
        (
          e,
          digits,
          read_digits-append 0 (digits places (n / 10)) _ (digits-AllDigits places (n / 10)),
        )
        (rw (read_digits-digits places (n / 10) (tenth places n h))
          (read_digits-digit (n / 10) (n % 10) (omega arith) ∙ omega arith))
]

-- A number is written with at least one digit.
pub digits-cons : (places n : ℕ) → (c : ℕ) × (rest : List ℕ) × (digits (suc places) n ≡ c ∷ rest)
unfolding digits
digits-cons zero n = elim (Bool-cases (ltb n 10)) [
  | inl e ↦ (n + 48, [], rw (e, digits))
  | inr e ↦ (n % 10 + 48, [], rw (e, digits))
]
digits-cons (suc places) n = elim (Bool-cases (ltb n 10)) [
  | inl e ↦ (n + 48, [], rw (e, digits))
  | inr e ↦
      let (c, rest, shape) = digits-cons places (n / 10) in
      (c, rest ++ (n % 10 + 48) ∷ [], rw (e, digits, shape) refl)
]

-- A digit is no white space and no sign.
digit_facts :
    (c : ℕ)
    → is_digit c ≡ true
    → (is_space c ≡ false) × ((c == b'-') ≡ false) × ((c == b'+') ≡ false)
unfolding is_digit is_space
digit_facts c h = (ground arith, ground arith, ground arith)

signed_digits :
    (n c : ℕ) (rest : List ℕ)
    → AllDigits (c ∷ rest)
    → read_digits 0 (c ∷ rest) ≡ n
    → n < 2 ^ 63
    → stoll (c ∷ rest) ≡ inr (pos n)
unfolding stoll signed unsigned starts_digit
signed_digits n c rest all value h =
    let facts = digit_facts c all.0 in
    rw (facts.0, stoll, facts.1, facts.2, all.0, value, lt→ltb n (2 ^ 63) h)

negated_digits :
    (n c : ℕ) (rest : List ℕ)
    → AllDigits (c ∷ rest)
    → read_digits 0 (c ∷ rest) ≡ n + 1
    → n < 2 ^ 63
    → stoll (b'-' ∷ c ∷ rest) ≡ inr (negsuc n)
unfolding stoll signed is_space negated starts_digit
negated_digits n c rest all value h = rw (all.0, value) (ground (arith, lt→ltb n (2 ^ 63) h))

-- Every `long long` is read back from its text.
pub stoll-long_text : (i : ℤ) → InRange i → stoll (long_text i) ≡ inr i
unfolding long_text
stoll-long_text (pos n) h =
    let (c, rest, shape) = digits-cons 19 n in
    rw shape (
      signed_digits n c rest (rw shape at (digits-AllDigits 20 n))
        (rw shape at (read_digits-digits 20 n (omega arith))) h)
stoll-long_text (negsuc n) h =
    let (c, rest, shape) = digits-cons 19 (n + 1) in
    rw shape (
      negated_digits n c rest (rw shape at (digits-AllDigits 20 (n + 1)))
        (rw shape at (read_digits-digits 20 (n + 1) (omega arith))) h)
