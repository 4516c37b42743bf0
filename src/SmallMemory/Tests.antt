-- ===== src/SmallMemory/Tests.antt =====
-- Nodes of cjunk/trivialJson/SmallMemoryModel.cpp.
use cpp_examples.Prelude.{ℕ, ◌≡◌, refl, true, [], ◌∷◌, replicate}
use cpp_examples.Prelude.Int.{pos}
use cpp_examples.SmallMemory.{
  JsonNode, boolean, long, small, string, list, nil, node, bad_access, make_text, get_long,
}

-- `node5` of `test_json_types`
hello :
    make_text {Double = ℕ} (b'h' ∷ b'e' ∷ b'l' ∷ b'l' ∷ b'o' ∷ [])
    ≡ small (b'h' ∷ b'e' ∷ b'l' ∷ b'l' ∷ b'o' ∷ 0 ∷ 0 ∷ 0 ∷ [])
unfolding make_text
hello = refl

nine_bytes : make_text {Double = ℕ} (replicate 9 b'x') ≡ string (replicate 9 b'x')
unfolding make_text
nine_bytes = refl

no_long : get_long {Double = ℕ} (boolean true) ≡ bad_access
unfolding get_long
no_long = refl

abbrev pair : JsonNode ℕ
pair = list (node (long (pos 3)) (node (string (replicate 9 b'x')) nil))

abbrev nested : JsonNode ℕ
nested = list (node pair nil)
