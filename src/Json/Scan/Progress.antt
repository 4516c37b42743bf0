-- ===== src/Json/Scan/Progress.antt =====
-- The reading members of `JsonParser` stay inside the text and never go back.
use cpp_examples.Prelude.{
  ℕ, suc, ◌+◌, ◌<◌, ◌≡◌, Bool, true, false, ◌||◌, List, [], ◌∷◌, ◌++◌, inl, inr, length, drop,
  arith, ◌==◌, Bool-cases, Option-cases,
}
use cpp_examples.Json.Located.{Within, stops, fails, Within-bind, Within-mono, drop-next}
use cpp_examples.Json.Scan.{
  is_space, is_digit, skip_while, skip_whitespace, skip_digits, peek, consume, expect_here, expect,
  unescape, string_loop, parse_string, literal_loop, parse_literal, fraction, exponent, skip_minus,
  skip_sign, integer_part, scan_number,
}

module _ (json : List ℕ) where
  skip_while-at :
      (test : ℕ → Bool) (pos : ℕ) (rest : List ℕ)
      → drop pos json ≡ rest
      → let (p, r) = skip_while test pos rest in (drop p json ≡ r) × (length r < suc (length rest))
  unfolding skip_while
  skip_while-at test pos [] at = (at, omega arith)
  skip_while-at test pos (c ∷ rest) at = elim (Bool-cases (test c)) [
    | inl e ↦
        let (a, b) = skip_while-at test (pos + 1) rest (drop-next pos json at).0 in
        rw (e, skip_while) (a, omega arith)
    | inr e ↦ rw (e, skip_while) (at, omega arith)
  ]

  pub skip_whitespace-Within :
      (pos : ℕ) (rest : List ℕ)
      → drop pos json ≡ rest
      → Within json (suc (length rest)) (skip_whitespace (pos, rest))
  unfolding skip_whitespace
  skip_whitespace-Within pos rest at = let (a, b) = skip_while-at is_space pos rest at in stops a b

  pub skip_digits-Within :
      (pos : ℕ) (rest : List ℕ)
      → drop pos json ≡ rest
      → Within json (suc (length rest)) (skip_digits (pos, rest))
  unfolding skip_digits
  skip_digits-Within pos rest at = let (a, b) = skip_while-at is_digit pos rest at in stops a b

  pub peek-Within :
      (pos : ℕ) (rest : List ℕ)
      → drop pos json ≡ rest
      → Within json (suc (length rest)) (peek (pos, rest))
  unfolding peek
  peek-Within pos [] at = fails tt
  peek-Within pos (c ∷ rest) at = stops at (omega arith)

  pub consume-Within :
      (pos : ℕ) (rest : List ℕ)
      → drop pos json ≡ rest
      → Within json (length rest) (consume (pos, rest))
  unfolding consume
  consume-Within pos [] at = fails tt
  consume-Within pos (c ∷ rest) at = stops (drop-next pos json at).0 (omega arith)

  expect_here-Within :
      (c pos : ℕ) (rest : List ℕ)
      → drop pos json ≡ rest
      → Within json (length rest) (expect_here c (pos, rest))
  unfolding expect_here peek
  expect_here-Within c pos [] at = fails tt
  expect_here-Within c pos (b ∷ rest) at = elim (Bool-cases (b == c)) [
    | inl e ↦ rw (e) (consume-Within pos (b ∷ rest) at)
    | inr e ↦ rw (e) (fails ((drop-next pos json at).1, ground arith))
  ]

  pub expect-Within :
      (c pos : ℕ) (rest : List ℕ)
      → drop pos json ≡ rest
      → Within json (length rest) (expect c (pos, rest))
  unfolding expect
  expect-Within c pos rest at =
      Within-bind json _ (skip_whitespace-Within pos rest at)
        λ _ p r at' less. Within-mono json (omega arith) (expect_here-Within c p r at')

  string_loop-Within :
      (escaped : Bool) (s : List ℕ) (pos : ℕ) (rest : List ℕ)
      → drop pos json ≡ rest
      → Within json (suc (length rest)) (string_loop escaped s pos rest)
  unfolding string_loop
  string_loop-Within true s pos [] at = fails tt
  string_loop-Within false s pos [] at = fails tt
  string_loop-Within true s pos (c ∷ rest) at =
      let next = (drop-next pos json at).0 in
      elim (Option-cases (unescape c)) [
        | inl e ↦ rw (e, string_loop) (fails tt)
        | inr (b, e) ↦
            rw (e, string_loop)
              (Within-mono json (omega arith)
                (string_loop-Within false (s ++ b ∷ []) (pos + 1) rest next))
      ]
  string_loop-Within false s pos (c ∷ rest) at =
      let next = (drop-next pos json at).0 in
      elim (Bool-cases (c == b'"')) [
        | inl quote ↦ rw (quote, string_loop) (stops at (omega arith))
        | inr other ↦ elim (Bool-cases (c == 92)) [
          | inl backslash ↦
              rw (other, backslash, string_loop)
                (Within-mono json (omega arith) (string_loop-Within true s (pos + 1) rest next))
          | inr plain ↦
              rw (other, plain, string_loop)
                (Within-mono json (omega arith)
                  (string_loop-Within false (s ++ c ∷ []) (pos + 1) rest next))
        ]
      ]

  pub parse_string-Within :
      (pos : ℕ) (rest : List ℕ)
      → drop pos json ≡ rest
      → Within json (length rest) (parse_string (pos, rest))
  unfolding parse_string
  parse_string-Within pos rest at =
      Within-bind json _ (expect-Within b'"' pos rest at) λ _ p r at' less.
        Within-bind json _ (string_loop-Within false [] p r at') λ s p' r' at'' less'.
          Within-bind json _ (expect-Within b'"' p' r' at'')
            λ _ p'' r'' at3 less''. stops at3 (omega arith)

  literal_loop-Within :
      (literal more : List ℕ) (pos : ℕ) (rest : List ℕ)
      → drop pos json ≡ rest
      → Within json (suc (length rest)) (literal_loop literal more (pos, rest))
  unfolding literal_loop
  literal_loop-Within literal [] pos rest at = stops at (omega arith)
  literal_loop-Within literal (c ∷ more) pos [] at = fails tt
  literal_loop-Within literal (c ∷ more) pos (b ∷ rest) at = elim (Bool-cases (b == c)) [
    | inl e ↦
        rw (e, literal_loop)
          (Within-mono json (omega arith)
            (literal_loop-Within literal more (pos + 1) rest (drop-next pos json at).0))
    | inr e ↦ rw (e, literal_loop) (fails tt)
  ]

  -- A literal that is read is not empty, so the position moves on.
  pub parse_literal-Within :
      {A : Type 0} (c : ℕ) (more : List ℕ) (value : A) (pos : ℕ) (rest : List ℕ)
      → drop pos json ≡ rest
      → Within json (length rest) (parse_literal (c ∷ more) value (pos, rest))
  unfolding parse_literal literal_loop
  parse_literal-Within c more value pos [] at = fails tt
  parse_literal-Within c more value pos (b ∷ rest) at = elim (Bool-cases (b == c)) [
    | inl e ↦
        rw (e, literal_loop)
          (Within-bind json _
            (literal_loop-Within (c ∷ more) more (pos + 1) rest (drop-next pos json at).0)
            λ _ p r at' less. stops at' less)
    | inr e ↦ rw (e, literal_loop) (fails tt)
  ]

  skip_minus-Within :
      (c pos : ℕ) (rest : List ℕ)
      → drop pos json ≡ rest
      → Within json (suc (length rest)) (skip_minus c (pos, rest))
  unfolding skip_minus
  skip_minus-Within c pos rest at = elim (Bool-cases (c == b'-')) [
    | inl e ↦
        rw e (
          Within-bind json _ (consume-Within pos rest at) λ _ p r at' less. stops at' (omega arith))
    | inr e ↦ rw e (stops at (omega arith))
  ]

  fraction-Within :
      (pos : ℕ) (rest : List ℕ)
      → drop pos json ≡ rest
      → Within json (suc (length rest)) (fraction (pos, rest))
  unfolding fraction
  fraction-Within pos rest at = Within-bind json _ (peek-Within pos rest at) λ c p r at' less.
      elim (Bool-cases (c == b'.')) [
        | inl e ↦ rw e (
            Within-bind json _ (consume-Within p r at') λ _ p' r' at'' less'.
              Within-bind json _ (skip_digits-Within p' r' at'')
                λ _ p'' r'' at3 less''. stops at3 (omega arith))
        | inr e ↦ rw e (stops at' less)
      ]

  skip_sign-Within :
      (d pos : ℕ) (rest : List ℕ)
      → drop pos json ≡ rest
      → Within json (suc (length rest)) (skip_sign d (pos, rest))
  unfolding skip_sign
  skip_sign-Within d pos rest at = elim (Bool-cases (d == b'+' || d == b'-')) [
    | inl e ↦
        rw e (
          Within-bind json _ (consume-Within pos rest at) λ _ p r at' less. stops at' (omega arith))
    | inr e ↦ rw e (stops at (omega arith))
  ]

  -- The sign and the digits of the integer part.
  sign-Within :
      (c pos : ℕ) (rest : List ℕ)
      → drop pos json ≡ c ∷ rest
      → ((c == b'-') || is_digit c) ≡ true
      → Within json (suc (length rest)) (integer_part c (pos, c ∷ rest))
  unfolding integer_part skip_minus consume skip_digits skip_while
  sign-Within c pos rest at h = elim (Bool-cases (c == b'-')) [
    | inl e ↦ rw e (skip_digits-Within (pos + 1) rest (drop-next pos json at).0)
    | inr e ↦
        let digit : is_digit c ≡ true = ground arith in
        rw e (
          rw (digit, skip_digits, skip_while)
            (skip_digits-Within (pos + 1) rest (drop-next pos json at).0))
  ]

  exponent-Within :
      (is_double : Bool) (pos : ℕ) (rest : List ℕ)
      → drop pos json ≡ rest
      → Within json (suc (length rest)) (exponent is_double (pos, rest))
  unfolding exponent
  exponent-Within is_double pos rest at =
      Within-bind json _ (peek-Within pos rest at) λ c p r at' less.
        elim (Bool-cases (c == b'e' || c == b'E')) [
          | inl e ↦ rw e (
              Within-bind json _ (consume-Within p r at') λ _ p' r' at'' less'.
                Within-bind json _ (peek-Within p' r' at'') λ d p'' r'' at3 less''.
                  Within-bind json _ (skip_sign-Within d p'' r'' at3) λ _ p3 r3 at4 less3.
                    Within-bind json _ (skip_digits-Within p3 r3 at4)
                      λ _ p4 r4 at5 less4. stops at5 (omega arith))
          | inr e ↦ rw e (stops at' less)
        ]

  -- Behind a `-` or at a digit, the number is not empty.
  pub scan_number-Within :
      (c pos : ℕ) (rest : List ℕ)
      → drop pos json ≡ c ∷ rest
      → ((c == b'-') || is_digit c) ≡ true
      → Within json (suc (length rest)) (scan_number (pos, c ∷ rest))
  unfolding scan_number peek
  scan_number-Within c pos rest at h =
      Within-bind json _ (sign-Within c pos rest at h) λ _ p r at' less.
        Within-bind json _ (fraction-Within p r at') λ is_double p' r' at'' less'.
          Within-mono json (omega arith) (exponent-Within is_double p' r' at'')
