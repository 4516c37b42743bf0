-- ===== src/Json/Parser/Total.antt =====
-- The parser of middleware/src/nonworking_json.cpp ends on every text: the fuel of `parse` is
-- enough, and every position in a message is right.
use cpp_examples.Prelude.{
  ℕ, zero, suc, ◌+◌, ◌-◌, ◌*◌, ◌<◌, ◌≡◌, refl, Bool, true, false, ◌||◌, List, [], ◌∷◌, ◌⊎◌, inl,
  inr, length, drop, take, arith, ◌==◌,
}
use cpp_examples.Json.Outcome.{Outcome, ConversionError, Cursor, Parser, bind}
use cpp_examples.Json.Located.{
  Within, stops, fails, Within-bind, Within-mono, Within-if, drop-next, Proper, returns, throws,
  lt-of-get_elem?,
}
use cpp_examples.Json.Value.{JsonValue, JsonArray, JsonObject, insert, end}
use cpp_examples.Json.Scan.{is_digit, peek, parse_literal, skip_whitespace}
use cpp_examples.Json.Scan.Progress.{
  skip_whitespace-Within, peek-Within, consume-Within, expect-Within, parse_string-Within,
  parse_literal-Within, scan_number-Within,
}
use cpp_examples.Json.Number.{DoubleOps, stoll}
use cpp_examples.Json.Parser.{
  number_value, parse_number, parse_array, parse_object, dispatch, parse_value, array_loop,
  object_loop, finish, parse, converted,
}

module _ (ops : DoubleOps) (json : List ℕ) where
  open ops use {Double, stod}

  -- A parser that stays in the text from any cursor with less than `limit` bytes left.
  abbrev Safe : {A : Type 0} → ℕ → Parser A → Type 0
  Safe limit p =
      (pos : ℕ) (rest : List ℕ)
      → drop pos json ≡ rest
      → length rest < limit
      → Within json (suc (length rest)) (p (pos, rest))

  converted-Within :
      {A B : Type 0} (f : A → B) (r : ConversionError ⊎ A) (pos : ℕ) (rest : List ℕ)
      → drop pos json ≡ rest
      → Within json (suc (length rest)) (converted f r (pos, rest))
  converted-Within f (inl e) pos rest at = fails tt
  converted-Within f (inr a) pos rest at = stops at (omega arith)

  number_value-Within :
      (is_double : Bool) (text : List ℕ) (pos : ℕ) (rest : List ℕ)
      → drop pos json ≡ rest
      → Within json (suc (length rest)) (number_value ops is_double text (pos, rest))
  unfolding number_value
  number_value-Within true text = converted-Within _ (stod text)
  number_value-Within false text = converted-Within _ (stoll text)

  parse_number-Within :
      (c pos : ℕ) (rest : List ℕ)
      → drop pos json ≡ c ∷ rest
      → ((c == b'-') || is_digit c) ≡ true
      → Within json (suc (length rest)) (parse_number ops (pos, c ∷ rest))
  unfolding parse_number
  parse_number-Within c pos rest at h =
      Within-bind json _ (scan_number-Within json c pos rest at h) λ is_double p r at' less.
        Within-mono json (omega arith)
          (number_value-Within is_double (take (p - pos) (c ∷ rest)) p r at')

  -- The two composite values, given that their loops are safe on what is left behind the bracket.
  parse_array-Within :
      (loop : Parser (JsonArray Double)) (pos : ℕ) (rest : List ℕ)
      → drop pos json ≡ rest
      → Safe (length rest) loop
      → Within json (length rest) (parse_array ops loop (pos, rest))
  unfolding parse_array
  parse_array-Within loop pos rest at safe =
      Within-bind json _ (expect-Within json b'[' pos rest at) λ _ p₁ r₁ at₁ less₁.
        Within-bind json _ (skip_whitespace-Within json p₁ r₁ at₁) λ _ p₂ r₂ at₂ less₂.
          Within-bind json _ (peek-Within json p₂ r₂ at₂) λ c p₃ r₃ at₃ less₃.
            Within-bind json _
              (Within-if json (c == b']') _ loop (p₃, r₃) (λ _. stops at₃ (omega arith))
                (λ _. safe p₃ r₃ at₃ (omega arith)))
              λ _ p₄ r₄ at₄ less₄.
                Within-bind json _ (expect-Within json b']' p₄ r₄ at₄)
                  λ _ p₅ r₅ at₅ less₅. stops at₅ (omega arith)

  parse_object-Within :
      (loop : Parser (JsonObject Double)) (pos : ℕ) (rest : List ℕ)
      → drop pos json ≡ rest
      → Safe (length rest) loop
      → Within json (length rest) (parse_object ops loop (pos, rest))
  unfolding parse_object
  parse_object-Within loop pos rest at safe =
      Within-bind json _ (expect-Within json b'{' pos rest at) λ _ p₁ r₁ at₁ less₁.
        Within-bind json _ (skip_whitespace-Within json p₁ r₁ at₁) λ _ p₂ r₂ at₂ less₂.
          Within-bind json _ (peek-Within json p₂ r₂ at₂) λ c p₃ r₃ at₃ less₃.
            Within-bind json _
              (Within-if json (c == b'}') _ loop (p₃, r₃) (λ _. stops at₃ (omega arith))
                (λ _. safe p₃ r₃ at₃ (omega arith)))
              λ _ p₄ r₄ at₄ less₄.
                Within-bind json _ (expect-Within json b'}' p₄ r₄ at₄)
                  λ _ p₅ r₅ at₅ less₅. stops at₅ (omega arith)

  dispatch-Within :
      (arrays objects : Parser (JsonValue Double)) (c pos : ℕ) (rest : List ℕ)
      → drop pos json ≡ c ∷ rest
      → Within json (suc (length rest)) (arrays (pos, c ∷ rest))
      → Within json (suc (length rest)) (objects (pos, c ∷ rest))
      → Within json (suc (length rest)) (dispatch ops arrays objects c (pos, c ∷ rest))
  unfolding dispatch
  dispatch-Within arrays objects c pos rest at ha ho =
      Within-if json (c == b'"') _ _ cursor
        (λ _.
          Within-bind json _ (parse_string-Within json pos (c ∷ rest) at)
            λ _ p r at' less. stops at' less)
        λ _.
          Within-if json (c == b'-' || is_digit c) _ _ cursor
            (λ e. parse_number-Within c pos rest at e)
            λ _.
              Within-if json (c == b'[') arrays _ cursor (λ _. ha)
                λ _.
                  Within-if json (c == b'{') objects _ cursor (λ _. ho)
                    λ _.
                      Within-if json (c == b't') _ _ cursor (λ _. literal b't' _ _)
                        λ _.
                          Within-if json (c == b'f') _ _ cursor (λ _. literal b'f' _ _)
                            λ _.
                              Within-if json (c == b'n') _ _ cursor (λ _. literal b'n' _ _)
                                λ _. fails (drop-next pos json at).1
    where
      cursor : Cursor
      cursor = (pos, c ∷ rest)

      literal :
          (first : ℕ) (more : List ℕ) (value : JsonValue Double)
          → Within json (suc (length rest)) (parse_literal (first ∷ more) value (pos, c ∷ rest))
      literal first more value = parse_literal-Within json first more value pos (c ∷ rest) at

  peek-dispatch-Within :
      (arrays objects : Parser (JsonValue Double)) (pos : ℕ) (rest : List ℕ)
      → drop pos json ≡ rest
      → Within json (length rest) (arrays (pos, rest))
      → Within json (length rest) (objects (pos, rest))
      → Within json
          (length rest)
          (bind (peek (pos, rest)) λ (c, cursor). dispatch ops arrays objects c cursor)
  unfolding peek
  peek-dispatch-Within arrays objects pos [] at ha ho = fails tt
  peek-dispatch-Within arrays objects pos (c ∷ rest) at ha ho =
      dispatch-Within arrays objects c pos rest at ha ho

  mutual
    unfolding parse_value

    parse_value-Within :
        (fuel pos : ℕ) (rest : List ℕ)
        → drop pos json ≡ rest
        → 2 * length rest < fuel
        → Within json (length rest) (parse_value ops fuel (pos, rest))
    parse_value-Within zero pos rest at h = absurd (omega arith)
    parse_value-Within (suc fuel) pos rest at h =
        Within-bind json _ (skip_whitespace-Within json pos rest at) λ _ p r at' less.
          Within-mono json (omega arith) (
            peek-dispatch-Within _ _ p r at'
              (parse_array-Within (array_loop ops fuel) p r at'
                λ p' r' at'' less'. array_loop-Within fuel p' r' at'' (omega arith))
              (parse_object-Within (object_loop ops fuel end) p r at'
                λ p' r' at'' less'. object_loop-Within fuel end p' r' at'' (omega arith)))

    array_loop-Within :
        (fuel pos : ℕ) (rest : List ℕ)
        → drop pos json ≡ rest
        → 2 * length rest + 1 < fuel
        → Within json (suc (length rest)) (array_loop ops fuel (pos, rest))
    array_loop-Within zero pos rest at h = absurd (omega arith)
    array_loop-Within (suc fuel) pos rest at h =
        Within-bind json _ (parse_value-Within fuel pos rest at (omega arith))
          λ value p₁ r₁ at₁ less₁.
            Within-bind json _ (skip_whitespace-Within json p₁ r₁ at₁) λ _ p₂ r₂ at₂ less₂.
              Within-bind json _ (peek-Within json p₂ r₂ at₂) λ c p₃ r₃ at₃ less₃.
                Within-if json (c == b',') _ _ (p₃, r₃)
                  (λ _. Within-bind json _ (consume-Within json p₃ r₃ at₃) λ _ p₄ r₄ at₄ less₄.
                    Within-bind json _ (array_loop-Within fuel p₄ r₄ at₄ (omega arith))
                      λ _ p₅ r₅ at₅ less₅. stops at₅ (omega arith))
                  λ _.
                    Within-if json (c == b']') _ _ (p₃, r₃) (λ _. stops at₃ (omega arith))
                      λ _. fails tt

    object_loop-Within :
        (fuel : ℕ) (obj : JsonObject Double) (pos : ℕ) (rest : List ℕ)
        → drop pos json ≡ rest
        → 2 * length rest + 1 < fuel
        → Within json (suc (length rest)) (object_loop ops fuel obj (pos, rest))
    object_loop-Within zero obj pos rest at h = absurd (omega arith)
    object_loop-Within (suc fuel) obj pos rest at h =
        Within-bind json _ (parse_string-Within json pos rest at) λ key p₀ r₀ at₀ less₀.
          Within-bind json _ (expect-Within json b':' p₀ r₀ at₀) λ _ p r at' less.
            Within-bind json _ (parse_value-Within fuel p r at' (omega arith))
              λ value p₁ r₁ at₁ less₁.
                Within-bind json _ (skip_whitespace-Within json p₁ r₁ at₁) λ _ p₂ r₂ at₂ less₂.
                  Within-bind json _ (peek-Within json p₂ r₂ at₂) λ c p₃ r₃ at₃ less₃.
                    Within-if json (c == b',') _ _ (p₃, r₃)
                      (λ _. Within-bind json _ (consume-Within json p₃ r₃ at₃) λ _ p₄ r₄ at₄ less₄.
                        Within-mono json (omega arith)
                          (object_loop-Within fuel (insert key value obj) p₄ r₄ at₄ (omega arith)))
                      λ _.
                        Within-if json (c == b'}') _ _ (p₃, r₃) (λ _. stops at₃ (omega arith))
                          λ _. fails tt

  finish-Proper :
      (v : JsonValue Double) (pos : ℕ) (rest : List ℕ)
      → drop pos json ≡ rest
      → Proper json (finish ops v (pos, rest))
  unfolding finish
  finish-Proper v pos [] at = returns
  finish-Proper v pos (c ∷ rest) at = throws (lt-of-get_elem? pos json (drop-next pos json at).1)

  trailing-Proper :
      {n : ℕ} (v : JsonValue Double) {r : Outcome (Unit {0} × Cursor)}
      → Within json n r
      → Proper json (bind r λ (_, after). finish ops v after)
  trailing-Proper v (stops {pos = p} {rest = rest} at less) = finish-Proper v p rest at
  trailing-Proper v (fails e) = throws e

  outcome-Proper :
      {n : ℕ} {r : Outcome (JsonValue Double × Cursor)}
      → Within json n r
      → Proper json (
          bind r
            λ (result, cursor). bind (skip_whitespace cursor) λ (_, after). finish ops result after)
  outcome-Proper (stops {a} {pos} {rest} at less) =
      trailing-Proper a (skip_whitespace-Within json pos rest at)
  outcome-Proper (fails e) = throws e

  -- Whatever the text, `parse` returns a value or throws: its fuel is enough. What it throws, if it
  -- names a position in the message, names the byte that stands there, and that byte is not the
  -- expected one; the position of an extra character is inside the text.
  pub parse-Proper : Proper json (parse ops json)
  unfolding parse
  parse-Proper = outcome-Proper (parse_value-Within (2 * length json + 2) 0 json refl (omega arith))
