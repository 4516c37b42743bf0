-- ===== src/Json/Print/Reads.antt =====
-- What the reading members of the parser make of printed pieces of text, whatever follows.
use cpp_examples.Prelude.{
  ℕ, zero, suc, ◌+◌, ◌≡◌, refl, Bool, true, false, List, [], ◌∷◌, ◌++◌, replicate, append_assoc,
  append-nil, arith, ◌==◌, Bool-cases, inl, inr,
}
use cpp_examples.Json.Outcome.{Outcome, ok, Cursor, bind}
use cpp_examples.Json.Scan.{
  is_space, skip_while, skip_whitespace, peek, consume, expect_here, expect, unescape, string_loop,
  parse_string, literal_loop, parse_literal,
}
use cpp_examples.Json.Print.{escape}

-- The call returns `a` and leaves `rest`.
pub data Reads {A : Type 0} (a : A) (rest : List ℕ) : Outcome (A × Cursor) → Type 0 where
  reads : {pos : ℕ} → Reads a rest (ok (a, (pos, rest)))

pub Reads-bind :
    {A B : Type 0} {a : A} {b : B} {rest rest' : List ℕ} {r : Outcome (A × Cursor)}
    (f : A × Cursor → Outcome (B × Cursor))
    → Reads a rest r
    → ((pos : ℕ) → Reads b rest' (f (a, (pos, rest))))
    → Reads b rest' (bind r f)
Reads-bind f (reads {pos}) k = k pos

-- A text of white space.
abbrev pub AllSpaces : List ℕ → Type 0
AllSpaces [] = Unit {0}
AllSpaces (c ∷ rest) = (is_space c ≡ true) × AllSpaces rest

pub AllSpaces-append : (xs ys : List ℕ) → AllSpaces xs → AllSpaces ys → AllSpaces (xs ++ ys)
AllSpaces-append [] ys hx hy = hy
AllSpaces-append (c ∷ xs) ys hx hy = (hx.0, AllSpaces-append xs ys hx.1 hy)

pub replicate-AllSpaces : (n : ℕ) → AllSpaces (replicate n 32)
unfolding is_space
replicate-AllSpaces zero = tt
replicate-AllSpaces (suc n) = (refl, replicate-AllSpaces n)

pub skip_while-stop :
    (test : ℕ → Bool) (pos c : ℕ) (rest : List ℕ)
    → test c ≡ false
    → skip_while test pos (c ∷ rest) ≡ (pos, c ∷ rest)
unfolding skip_while
skip_while-stop test pos c rest h = rw (h, skip_while)

pub skip_while-go :
    (test : ℕ → Bool) (pos c : ℕ) (rest : List ℕ)
    → test c ≡ true
    → skip_while test pos (c ∷ rest) ≡ skip_while test (pos + 1) rest
unfolding skip_while
skip_while-go test pos c rest h = rw (h, skip_while)

pub skip_whitespace-Reads :
    (ws : List ℕ) (pos c : ℕ) (rest : List ℕ)
    → AllSpaces ws
    → is_space c ≡ false
    → Reads tt (c ∷ rest) (skip_whitespace (pos, ws ++ c ∷ rest))
unfolding skip_whitespace
skip_whitespace-Reads [] pos c rest h e = rw (skip_while-stop is_space pos c rest e) reads
skip_whitespace-Reads (w ∷ ws) pos c rest h e =
    rw (skip_while-go is_space pos w (ws ++ c ∷ rest) h.0)
      (skip_whitespace-Reads ws (pos + 1) c rest h.1 e)

pub skip_all-Reads :
    (ws : List ℕ) (pos : ℕ) → AllSpaces ws → Reads tt [] (skip_whitespace (pos, ws))
unfolding skip_whitespace skip_while
skip_all-Reads [] pos h = reads
skip_all-Reads (w ∷ ws) pos h =
    rw (skip_while-go is_space pos w ws h.0) (skip_all-Reads ws (pos + 1) h.1)

pub expect-Reads :
    (ws : List ℕ) (pos c : ℕ) (rest : List ℕ)
    → AllSpaces ws
    → is_space c ≡ false
    → Reads c rest (expect c (pos, ws ++ c ∷ rest))
unfolding expect expect_here peek consume
expect-Reads ws pos c rest h e =
    Reads-bind _ (skip_whitespace-Reads ws pos c rest h e) λ p. rw (same c) reads
  where
    same : (n : ℕ) → (n == n) ≡ true
    same n = ground arith

push_back :
    {rest : List ℕ} {r : Outcome (List ℕ × Cursor)} (s : List ℕ) (b : ℕ) (t : List ℕ)
    → Reads ((s ++ b ∷ []) ++ t) rest r
    → Reads (s ++ b ∷ t) rest r
push_back s b t h = rw (append_assoc s (b ∷ []) t) at h

-- The escapes of the printer are undone.
string_loop-Reads :
    (s t : List ℕ) (pos : ℕ) (rest : List ℕ)
    → Reads (s ++ t) (b'"' ∷ rest) (string_loop false s pos (escape t ++ b'"' ∷ rest))
unfolding string_loop escape unescape
string_loop-Reads s [] pos rest = rw append-nil reads
string_loop-Reads s (c ∷ t) pos rest = elim (Bool-cases (c == b'"')) [
  | inl quote ↦
      let same : c ≡ b'"' = ground arith in
      rw same (push_back s b'"' t (string_loop-Reads (s ++ b'"' ∷ []) t (pos + 1 + 1) rest))
  | inr other ↦ elim (Bool-cases (c == 92)) [
    | inl backslash ↦
        let same : c ≡ 92 = ground arith in
        rw same (push_back s 92 t (string_loop-Reads (s ++ 92 ∷ []) t (pos + 1 + 1) rest))
    | inr plain ↦
        rw (other, plain)
          (rw (other, plain, string_loop)
            (push_back s c t (string_loop-Reads (s ++ c ∷ []) t (pos + 1) rest)))
  ]
]

pub parse_string-Reads :
    (s : List ℕ) (ws : List ℕ) (pos : ℕ) (rest : List ℕ)
    → AllSpaces ws
    → Reads s rest (parse_string (pos, ws ++ b'"' ∷ (escape s ++ b'"' ∷ rest)))
unfolding parse_string is_space
parse_string-Reads s ws pos rest h =
    Reads-bind _ (expect-Reads ws pos b'"' (escape s ++ b'"' ∷ rest) h refl) λ p.
      Reads-bind _ (string_loop-Reads [] s p rest)
        λ p'. Reads-bind _ (expect-Reads [] p' b'"' rest tt refl) λ p''. reads

literal_loop-Reads :
    (literal text : List ℕ) (pos : ℕ) (rest : List ℕ)
    → Reads tt rest (literal_loop literal text (pos, text ++ rest))
unfolding literal_loop
literal_loop-Reads literal [] pos rest = reads
literal_loop-Reads literal (c ∷ more) pos rest =
    let same : (c == c) ≡ true = ground arith in
    rw (same, literal_loop) (literal_loop-Reads literal more (pos + 1) rest)

pub parse_literal-Reads :
    {A : Type 0} (literal : List ℕ) (value : A) (pos : ℕ) (rest : List ℕ)
    → Reads value rest (parse_literal literal value (pos, literal ++ rest))
unfolding parse_literal
parse_literal-Reads literal value pos rest =
    Reads-bind _ (literal_loop-Reads literal literal pos rest) λ p. reads
