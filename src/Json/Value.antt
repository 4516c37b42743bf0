-- ===== src/Json/Value.antt =====
-- `JsonValue` of middleware/src/nonworking_json.cpp. Bytes are numbers; `double` is a type that the
-- caller gives. A `std::map` is the list of its entries in the order of their keys.
pub mod Keys
use cpp_examples.Prelude.{ℕ, Bool, List, [], ◌∷◌, Option, none, some, compare, Ordering}
use cpp_examples.Prelude.Int.{ℤ}

mutual
  pub data JsonValue (Double : Type 0) : Type 0 where
    null : JsonValue Double
    boolean : Bool → JsonValue Double
    long : ℤ → JsonValue Double
    double : Double → JsonValue Double
    string : List ℕ → JsonValue Double
    array : JsonArray Double → JsonValue Double
    object : JsonObject Double → JsonValue Double

  pub data JsonArray (Double : Type 0) : Type 0 where
    nil : JsonArray Double
    cons : JsonValue Double → JsonArray Double → JsonArray Double

  pub data JsonObject (Double : Type 0) : Type 0 where
    end : JsonObject Double
    entry : List ℕ → JsonValue Double → JsonObject Double → JsonObject Double

-- The order of `std::string`: lexicographic, by bytes.
unfoldable pub compare_key : List ℕ → List ℕ → Ordering
compare_key [] [] = Ordering.eq
compare_key [] (_ ∷ _) = Ordering.lt
compare_key (_ ∷ _) [] = Ordering.gt
compare_key (a ∷ k) (b ∷ j) = elim (compare a b) [
  | Ordering.lt ↦ Ordering.lt
  | Ordering.gt ↦ Ordering.gt
  | Ordering.eq ↦ compare_key k j
]

module _ {Double : Type 0} where
  -- `obj[key] = value`
  unfoldable pub insert : List ℕ → JsonValue Double → JsonObject Double → JsonObject Double
  insert key value end = entry key value end
  insert key value (entry k v rest) = elim (compare_key key k) [
    | Ordering.lt ↦ entry key value (entry k v rest)
    | Ordering.gt ↦ entry k v (insert key value rest)
    | Ordering.eq ↦ entry k value rest
  ]

  -- `obj.find(key)`
  unfoldable pub lookup : List ℕ → JsonObject Double → Option (JsonValue Double)
  lookup key end = none
  lookup key (entry k v rest) = elim (compare_key key k) [
    | Ordering.eq ↦ some v
    | _ ↦ lookup key rest
  ]
