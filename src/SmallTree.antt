-- ===== src/SmallTree.antt =====
-- `Node` of cjunk/trivialJson/json.hpp and its text, from cjunk/trivialJson/json.cpp. A C string is the
-- list of its bytes without the zero at its end; `std::to_string` on `double` is a parameter.
pub mod Texts
mod Tests
use cpp_examples.Prelude.{
  ℕ, zero, suc, ◌+◌, ◌-◌, min, Bool, true, false, List, [], ◌∷◌, ◌++◌, take, replicate, ◌==◌,
  if◌then◌else◌,
}
use cpp_examples.Prelude.Int.{ℤ}
use cpp_examples.Json.Number.{long_text}

-- `sizeof(SmallString)`
abbrev pub small_size : ℕ
small_size = 8

-- The alternatives of `Storage`; a `ListPtr` may be null.
mutual
  pub data Node (Double : Type 0) : Type 0 where
    small : List ℕ → Node Double
    integer : ℤ → Node Double
    double : Double → Node Double
    null_list : Node Double
    list : Nodes Double → Node Double

  pub data Nodes (Double : Type 0) : Type 0 where
    none : Nodes Double
    node : Node Double → Nodes Double → Nodes Double

-- `length`, which counts the zero at the end.
unfoldable pub c_length : List ℕ → ℕ
c_length [] = 1
c_length (c ∷ s) = c_length s + 1

-- The constructor from a C string.
unfoldable pub small_string : List ℕ → List ℕ
small_string s =
    let count = min (c_length s) small_size in
    take count (s ++ 0 ∷ []) ++ replicate (small_size - count) 0

unfoldable pub make_node : {Double : Type 0} → List ℕ → Node Double
make_node s = small (small_string s)

-- The text of a byte array up to its first zero.
unfoldable pub c_str : List ℕ → List ℕ
c_str [] = []
c_str (c ∷ s) = if c == 0 then [] else c ∷ c_str s

unfoldable pub quoted : List ℕ → List ℕ
quoted s = b'"' ∷ (s ++ b'"' ∷ [])

-- "nullptr!!!"
abbrev pub null_text : List ℕ
null_text = b'n' ∷ b'u' ∷ b'l' ∷ b'l' ∷ b'p' ∷ b't' ∷ b'r' ∷ b'!' ∷ b'!' ∷ b'!' ∷ []

module _ {Double : Type 0} (to_string : Double → List ℕ) where
  unfoldable mutual
    pub serialize : Node Double → List ℕ
    serialize (small s) = quoted (c_str s)
    serialize (integer i) = long_text i
    serialize (double d) = to_string d
    serialize null_list = null_text
    serialize (list nodes) = b'[' ∷ (serialize_list nodes true ++ b']' ∷ [])

    -- The loop over a list; the flag is `first`.
    pub serialize_list : Nodes Double → Bool → List ℕ
    serialize_list none first = []
    serialize_list (node n rest) first =
        (if first then [] else b',' ∷ []) ++ (serialize n ++ serialize_list rest false)
