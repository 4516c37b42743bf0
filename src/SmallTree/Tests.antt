-- ===== src/SmallTree/Tests.antt =====
-- Nodes of cjunk/trivialJson/json.hpp.
use cpp_examples.Prelude.{ℕ, ◌≡◌, refl, List, [], ◌∷◌, ◌++◌}
use cpp_examples.Prelude.Int.{negsuc}
use cpp_examples.Json.Number.{long_text, digits}
use cpp_examples.SmallTree.{
  integer, null_list, list, none, node, c_length, small_string, make_node, c_str, quoted, null_text,
  serialize, serialize_list,
}
use cpp_examples.SmallTree.Texts.{nodes_of, serialize-nodes_of}

abbrev text : ℕ → List ℕ
text d = []

mixed :
    serialize text (list (node (integer (negsuc 6)) (node null_list (node (list none) none))))
    ≡ b'[' ∷ b'-' ∷ b'7' ∷ b',' ∷ (null_text ++ b',' ∷ b'[' ∷ b']' ∷ b']' ∷ [])
unfolding serialize serialize_list long_text digits
mixed = refl

nine_bytes :
    serialize text (make_node (b'a' ∷ b'b' ∷ b'c' ∷ b'd' ∷ b'e' ∷ b'f' ∷ b'g' ∷ b'h' ∷ b'i' ∷ []))
    ≡ quoted (b'a' ∷ b'b' ∷ b'c' ∷ b'd' ∷ b'e' ∷ b'f' ∷ b'g' ∷ b'h' ∷ [])
unfolding serialize make_node small_string c_length c_str
nine_bytes = refl

serialize-nodes_of_example :
    serialize text (list (nodes_of text ((b'a' ∷ []) ∷ (b'b' ∷ b'c' ∷ []) ∷ [])))
    ≡ b'[' ∷ b'"' ∷ b'a' ∷ b'"' ∷ b',' ∷ b'"' ∷ b'b' ∷ b'c' ∷ b'"' ∷ b']' ∷ []
unfolding quoted
serialize-nodes_of_example =
    serialize-nodes_of text ((b'a' ∷ []) ∷ (b'b' ∷ b'c' ∷ []) ∷ [])
      (((λ e. absurd cc), tt), (((λ e. absurd cc), ((λ e. absurd cc), tt)), tt))
