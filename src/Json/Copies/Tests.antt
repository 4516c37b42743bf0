-- ===== src/Json/Copies/Tests.antt =====
-- Assignments of values of middleware/src/nonworking_json.cpp.
use cpp_examples.Prelude.{ℕ, ◌≡◌, refl, none, some, [], ◌∷◌}
use cpp_examples.Prelude.Int.{pos}
use cpp_examples.Json.Copies.{
  JsonData, long, string, array, nil, cons, outside, inside, move_construct, read_other,
  same_scalar, assign_scalar, assign_visited, assign,
}
use cpp_examples.Json.Copies.Assignment.{is_whole, assign-is_whole}

abbrev pair : JsonData ℕ
pair = array (cons (long (pos 3)) (cons (string (b'x' ∷ [])) nil))

abbrev nested : JsonData ℕ
nested = array (cons pair nil)

-- `v = v.get_array()[1]` for a string keeps the string.
assigned_string : assign pair (inside (1 ∷ [])) ≡ some (string (b'x' ∷ []))
unfolding assign read_other assign_visited
assigned_string = refl

assigned_integer : assign pair (inside (0 ∷ [])) ≡ none
unfolding assign read_other assign_visited assign_scalar same_scalar
assigned_integer = refl

assign-is_whole_example :
    (assign nested (outside pair) ≡ some pair)
    × (assign nested (outside ((move_construct {Double = ℕ} (λ s. []) pair).1)) ≡ none)
    × (assign nested (inside (0 ∷ 0 ∷ [])) ≡ none)
unfolding is_whole
assign-is_whole_example = assign-is_whole (λ s. []) nested pair (long (pos 3)) 0 (0 ∷ []) refl
