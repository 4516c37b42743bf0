-- ===== src/Json/Located.antt =====
-- A run inside a text: the cursor stays at its position in the text, the text left shrinks, an
-- exception that names a position names what stands there, and the fuel does not run out.
use cpp_examples.Prelude.{
  ℕ, zero, suc, ◌+◌, ◌<◌, ◌≡◌, ◌≢◌, refl, Bool, true, false, if◌then◌else◌, List, [], ◌∷◌, some,
  get_elem?, length, drop, arith,
}
use cpp_examples.Json.Outcome.{
  Error, unexpected_end, invalid_escape, expected, expected_literal, expected_array_delimiter,
  expected_object_delimiter, unexpected_character, extra_characters, conversion, Outcome, ok, throw,
  bind, Cursor, Parser,
}

-- The position in a message is that of the byte in the message.
abbrev pub Located : List ℕ → Error → Type 0
Located json (expected c b pos) = (get_elem? json pos ≡ some b) × (b ≢ c)
Located json (unexpected_character c pos) = get_elem? json pos ≡ some c
Located json (extra_characters pos) = pos < length json
Located json unexpected_end = Unit
Located json invalid_escape = Unit
Located json (expected_literal literal) = Unit
Located json expected_array_delimiter = Unit
Located json expected_object_delimiter = Unit
Located json (conversion e) = Unit

-- A call that returns stands at its position with less than `limit` bytes left.
pub data Within (json : List ℕ) (limit : ℕ) {A : Type 0} : Outcome (A × Cursor) → Type 0 where
  stops :
      {a : A} {pos : ℕ} {rest : List ℕ}
      → drop pos json ≡ rest
      → length rest < limit
      → Within json limit (ok (a, (pos, rest)))
  fails : {e : Error} → Located json e → Within json limit (throw e)

-- A whole run returns, or throws what fits the text; it does not run out of fuel.
pub data Proper (json : List ℕ) {A : Type 0} : Outcome A → Type 0 where
  returns : {a : A} → Proper json (ok a)
  throws : {e : Error} → Located json e → Proper json (throw e)

module _ (json : List ℕ) {A : Type 0} where
  pub Within-bind :
      {B : Type 0} {n m : ℕ} {r : Outcome (A × Cursor)} (f : A × Cursor → Outcome (B × Cursor))
      → Within json n r
      → ((a : A) (pos : ℕ) (rest : List ℕ)
          → drop pos json ≡ rest
          → length rest < n
          → Within json m (f (a, (pos, rest))))
      → Within json m (bind r f)
  Within-bind f (stops {a} {pos} {rest} at less) k = k a pos rest at less
  Within-bind f (fails e) k = fails e

  pub Within-mono :
      {n m : ℕ} {r : Outcome (A × Cursor)} → n < suc m → Within json n r → Within json m r
  Within-mono h (stops at less) = stops at (omega arith)
  Within-mono h (fails e) = fails e

  -- A test between two parsers.
  pub Within-if :
      {n : ℕ} (b : Bool) (p q : Parser A) (cursor : Cursor)
      → (b ≡ true → Within json n (p cursor))
      → (b ≡ false → Within json n (q cursor))
      → Within json n ((if b then p else q) cursor)
  Within-if true p q cursor hp hq = hp refl
  Within-if false p q cursor hp hq = hq refl

pub drop-next :
    {c : ℕ} (pos : ℕ) (json : List ℕ) {rest : List ℕ}
    → drop pos json ≡ c ∷ rest
    → (drop (pos + 1) json ≡ rest) × (get_elem? json pos ≡ some c)
drop-next zero [] h = cc
drop-next zero (x ∷ json) h = (ground arith, ground arith)
drop-next (suc pos) [] h = cc
drop-next (suc pos) (x ∷ json) {rest} h =
    let (next, found) = drop-next pos json h in (rw (unary pos) next, found)
  where
    unary : (n : ℕ) → suc n + 1 ≡ suc (n + 1)
    unary n = omega arith

pub lt-of-get_elem? :
    {c : ℕ} (pos : ℕ) (json : List ℕ) → get_elem? json pos ≡ some c → pos < length json
lt-of-get_elem? pos [] h = cc
lt-of-get_elem? zero (x ∷ json) h = omega arith
lt-of-get_elem? (suc pos) (x ∷ json) h = omega (arith, lt-of-get_elem? pos json h)
