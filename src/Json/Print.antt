-- ===== src/Json/Print.antt =====
-- `serialize_json` of middleware/src/nonworking_json.cpp.
pub mod Reads
pub mod Scanned
pub mod Printable
pub mod Layout
pub mod Numbers
pub mod Steps
pub mod RoundTrip
pub mod Failures
use cpp_examples.Prelude.{
  ℕ, zero, suc, ◌+◌, ◌*◌, Bool, true, false, List, [], ◌∷◌, ◌++◌, replicate, ◌==◌, if◌then◌else◌,
}
use mathlib.Core.List.{reverse}
use cpp_examples.Json.Value.{
  JsonValue, JsonArray, JsonObject, null, boolean, long, double, string, array, object, nil, cons,
  end, entry,
}
use cpp_examples.Json.Number.{DoubleOps, long_text}
use cpp_examples.Json.Parser.{true_text, false_text, null_text}

-- `result.find('.') != npos`
unfoldable pub has_dot : List ℕ → Bool
has_dot [] = false
has_dot (c ∷ rest) = elim (c == b'.') [ true ↦ true | false ↦ has_dot rest ]

-- `erase(find_last_not_of('0') + 1)` on a text read backwards.
unfoldable pub drop_zeros : List ℕ → List ℕ
drop_zeros [] = []
drop_zeros (c ∷ rest) = elim (c == b'0') [ true ↦ drop_zeros rest | false ↦ c ∷ rest ]

-- `if (result.back() == '.') result.pop_back()`, backwards too.
unfoldable pub drop_dot : List ℕ → List ℕ
drop_dot [] = []
drop_dot (c ∷ rest) = if c == b'.' then rest else c ∷ rest

-- What is kept of the text of a `double`.
unfoldable pub trim_zeros : List ℕ → List ℕ
trim_zeros text = if has_dot text then reverse (drop_dot (drop_zeros (reverse text))) else text

-- The loop over the bytes of a string.
unfoldable pub escape : List ℕ → List ℕ
escape [] = []
escape (c ∷ rest) =
    if c == b'"'
    then 92 ∷ b'"' ∷ escape rest
    else if c == 92
    then 92 ∷ 92 ∷ escape rest
    else c ∷ escape rest

-- `indent_str`
abbrev pub indent : ℕ → List ℕ
indent level = replicate (level * 2) 32

module _ (ops : DoubleOps) where
  open ops use {Double, to_string}

  unfoldable mutual
    pub serialize_json : JsonValue Double → ℕ → List ℕ
    serialize_json null level = null_text
    serialize_json (boolean true) level = true_text
    serialize_json (boolean false) level = false_text
    serialize_json (long i) level = long_text i
    serialize_json (double d) level = trim_zeros (to_string d)
    serialize_json (string s) level = b'"' ∷ (escape s ++ b'"' ∷ [])
    serialize_json (array arr) level =
        b'[' ∷ 10 ∷ (serialize_items arr true level ++ 10 ∷ (indent level ++ b']' ∷ []))
    serialize_json (object obj) level =
        b'{' ∷ 10 ∷ (serialize_entries obj true level ++ 10 ∷ (indent level ++ b'}' ∷ []))

    -- The loop over an array; the flag is `first`.
    pub serialize_items : JsonArray Double → Bool → ℕ → List ℕ
    serialize_items nil first level = []
    serialize_items (cons item rest) first level =
        (if first then [] else b',' ∷ 10 ∷ [])
        ++ (indent level
            ++ 32 ∷ 32 ∷ (serialize_json item (level + 1) ++ serialize_items rest false level))

    -- The loop over an object.
    pub serialize_entries : JsonObject Double → Bool → ℕ → List ℕ
    serialize_entries end first level = []
    serialize_entries (entry key value rest) first level =
        (if first then [] else b',' ∷ 10 ∷ [])
        ++ (indent level
            ++ 32
              ∷ 32
              ∷ b'"'
              ∷ (key
                  ++ b'"'
                    ∷ b':'
                    ∷ 32
                    ∷ (serialize_json value (level + 1) ++ serialize_entries rest false level)))
