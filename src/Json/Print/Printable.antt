-- ===== src/Json/Print/Printable.antt =====
-- The values whose print the parser reads back: every `long long` in range, a `double` whose print
-- has a fraction and is converted back, objects with rising keys that need no escape.
use cpp_examples.Prelude.{
  ℕ, ◌≡◌, refl, Bool, true, false, ◌++◌, inr, List, [], ◌∷◌, Ordering, ◌==◌, ap,
}
use cpp_examples.Prelude.Int.{ℤ}
use cpp_examples.Json.Value.{
  JsonValue, JsonArray, JsonObject, null, boolean, long, double, string, array, object, nil, cons,
  end, entry, compare_key, insert,
}
use cpp_examples.Json.Value.Keys.{compare_key_trans, Below}
use cpp_examples.Json.Number.{DoubleOps, InRange}
use cpp_examples.Json.Number.RoundTrip.{AllDigits}
use cpp_examples.Json.Print.{escape, trim_zeros}

-- No quote and no backslash: the printer writes keys as they are.
abbrev pub IsPlain : List ℕ → Type 0
IsPlain [] = Unit {0}
IsPlain (c ∷ rest) = ((c == b'"') ≡ false) × ((c == 92) ≡ false) × IsPlain rest

-- A sign, digits, a point and digits.
abbrev pub decimal : Bool → ℕ → List ℕ → List ℕ → List ℕ
decimal true c whole fraction = b'-' ∷ c ∷ whole ++ b'.' ∷ fraction
decimal false c whole fraction = c ∷ whole ++ b'.' ∷ fraction

mutual
  pub data Printable (ops : DoubleOps) : JsonValue ops.Double → Type 0 where
    of_null : Printable ops null
    of_boolean : (b : Bool) → Printable ops (boolean b)
    of_long : (i : ℤ) → InRange i → Printable ops (long i)
    of_double :
        (d : ops.Double) (minus : Bool) (c : ℕ) (whole fraction : List ℕ)
        → trim_zeros (ops.to_string d) ≡ decimal minus c whole fraction
        → AllDigits (c ∷ whole)
        → AllDigits fraction
        → ops.stod (decimal minus c whole fraction) ≡ inr d
        → Printable ops (double d)
    of_string : (s : List ℕ) → Printable ops (string s)
    of_empty_array : Printable ops (array nil)
    of_array :
        {item : JsonValue ops.Double} {more : JsonArray ops.Double}
        → PrintableItems ops item more
        → Printable ops (array (cons item more))
    of_empty_object : Printable ops (object end)
    of_object :
        {key : List ℕ} {v : JsonValue ops.Double} {more : JsonObject ops.Double}
        → PrintableEntries ops key v more
        → Printable ops (object (entry key v more))

  -- A first item and those behind it.
  pub data PrintableItems (ops : DoubleOps)
      : JsonValue ops.Double → JsonArray ops.Double → Type 0 where
    last_item : {item : JsonValue ops.Double} → Printable ops item → PrintableItems ops item nil
    next_item :
        {item item' : JsonValue ops.Double} {more : JsonArray ops.Double}
        → Printable ops item
        → PrintableItems ops item' more
        → PrintableItems ops item (cons item' more)

  -- A first entry and those behind it, whose keys are greater.
  pub data PrintableEntries (ops : DoubleOps)
      : List ℕ → JsonValue ops.Double → JsonObject ops.Double → Type 0 where
    last_entry :
        {key : List ℕ} {v : JsonValue ops.Double}
        → IsPlain key
        → Printable ops v
        → PrintableEntries ops key v end
    next_entry :
        {key key' : List ℕ} {v v' : JsonValue ops.Double} {more : JsonObject ops.Double}
        → IsPlain key
        → Printable ops v
        → compare_key key' key ≡ Ordering.gt
        → PrintableEntries ops key' v' more
        → PrintableEntries ops key v (entry key' v' more)

pub escape-IsPlain : (k : List ℕ) → IsPlain k → escape k ≡ k
unfolding escape
escape-IsPlain [] h = refl
escape-IsPlain (c ∷ k) h = rw (h.0, h.1, escape-IsPlain k h.2)

module _ {Double : Type 0} where
  pub append_object : JsonObject Double → JsonObject Double → JsonObject Double
  append_object end more = more
  append_object (entry k v obj) more = entry k v (append_object obj more)

  -- An entry above all others goes to the end.
  pub insert-Below :
      (key : List ℕ) (v : JsonValue Double) (obj : JsonObject Double)
      → Below key obj
      → insert key v obj ≡ append_object obj (entry key v end)
  unfolding insert append_object
  insert-Below key v end h = refl
  insert-Below key v (entry k w obj) h =
      rw (h.0, insert) (ap (entry k w) (insert-Below key v obj h.1))

  pub append_object_assoc :
      (obj : JsonObject Double) (key : List ℕ) (v : JsonValue Double) (more : JsonObject Double)
      → append_object (append_object obj (entry key v end)) more
        ≡ append_object obj (entry key v more)
  unfolding append_object
  append_object_assoc end key v more = refl
  append_object_assoc (entry k w obj) key v more =
      ap (entry k w) (append_object_assoc obj key v more)

  pub Below-append :
      (key' key : List ℕ) (v : JsonValue Double) (obj : JsonObject Double)
      → compare_key key' key ≡ Ordering.gt
      → Below key obj
      → Below key' (append_object obj (entry key v end))
  unfolding append_object
  Below-append key' key v end h b = (h, tt)
  Below-append key' key v (entry k w obj) h b =
      (compare_key_trans key' key k h b.0, Below-append key' key v obj h b.1)

  pub append_object-end : (obj : JsonObject Double) → append_object end obj ≡ obj
  unfolding append_object
  append_object-end obj = refl
