-- ===== src/Json/Value/Keys.antt =====
-- The order of the keys of a `std::map`.
use cpp_examples.Prelude.{ℕ, ◌≡◌, refl, List, [], ◌∷◌, Ordering, arith}
use cpp_examples.Json.Value.{JsonObject, end, entry, compare_key}

pub compare_key_trans :
    (k j i : List ℕ)
    → compare_key k j ≡ Ordering.gt
    → compare_key j i ≡ Ordering.gt
    → compare_key k i ≡ Ordering.gt
unfolding compare_key
compare_key_trans [] [] i p q = cc
compare_key_trans [] (b ∷ j) i p q = cc
compare_key_trans (a ∷ k) [] [] p q = cc
compare_key_trans (a ∷ k) [] (c ∷ i) p q = cc
compare_key_trans (a ∷ k) (b ∷ j) [] p q = refl
compare_key_trans (a ∷ k) (b ∷ j) (c ∷ i) p q = ground (arith, compare_key_trans k j i)

module _ {Double : Type 0} where
  -- Every key of the map is below `key`.
  abbrev pub Below : List ℕ → JsonObject Double → Type 0
  Below key end = Unit {0}
  Below key (entry k v rest) = (compare_key key k ≡ Ordering.gt) × Below key rest
