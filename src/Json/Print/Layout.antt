-- ===== src/Json/Print/Layout.antt =====
-- How printed values start, where they end, and what stands between the parts of a printed array
-- or object.
use cpp_examples.Prelude.{
  ℕ, suc, ◌+◌, ◌*◌, ◌≡◌, refl, true, false, List, [], ◌∷◌, ◌++◌, append_assoc, ◌==◌, ◌∙◌,
}
use cpp_examples.Json.Value.{
  JsonValue, JsonArray, JsonObject, null, boolean, long, double, string, array, object, nil, cons,
  end, entry,
}
use cpp_examples.Json.Scan.{is_space, peek}
use cpp_examples.Json.Number.{DoubleOps}
use cpp_examples.Json.Parser.{
  parse_array, parse_object, dispatch, parse_value, array_loop, object_loop,
}
use cpp_examples.Json.Print.{escape, indent, serialize_json, serialize_items, serialize_entries}
use cpp_examples.Json.Print.Reads.{
  Reads, Reads-bind, AllSpaces, AllSpaces-append, replicate-AllSpaces, skip_whitespace-Reads,
}
use cpp_examples.Json.Print.Scanned.{EndsNumber}
use cpp_examples.Json.Print.Printable.{Printable, of_double}
use cpp_examples.Json.Print.Numbers.{decimal-StartsNumber, long_text-StartsNumber}

-- How a text starts: the byte is no white space and no closing bracket.
abbrev pub Starts : List ℕ → Type 0
Starts text =
    (c : ℕ) × (rest : List ℕ) × (text ≡ c ∷ rest) × (is_space c ≡ false) × ((c == b']') ≡ false)

module _ (ops : DoubleOps) where
  open ops use {Double}

  -- `parse_value` behind white space.
  pub parse_value-Reads :
      (fuel p c : ℕ) (ws rest rest' : List ℕ) {v : JsonValue Double}
      → AllSpaces ws
      → is_space c ≡ false
      → ((q : ℕ)
          → Reads v rest' (
              dispatch ops
                (parse_array ops (array_loop ops fuel))
                (parse_object ops (object_loop ops fuel end))
                c
                (q, c ∷ rest)))
      → Reads v rest' (parse_value ops (suc fuel) (p, ws ++ c ∷ rest))
  unfolding parse_value peek
  parse_value-Reads fuel p c ws rest rest' h e k =
      Reads-bind _ (skip_whitespace-Reads ws p c rest h e) k

  -- What may stand behind a value: behind a number, a byte that ends it.
  abbrev pub Follows : JsonValue Double → List ℕ → Type 0
  Follows (long i) rest = (c : ℕ) × (r : List ℕ) × (rest ≡ c ∷ r) × EndsNumber c
  Follows (double d) rest = (c : ℕ) × (r : List ℕ) × (rest ≡ c ∷ r) × EndsNumber c
  Follows _ rest = Unit {0}

  pub Follows-cons : (v : JsonValue Double) (c : ℕ) (r : List ℕ) → EndsNumber c → Follows v (c ∷ r)
  Follows-cons (long i) c r h = (c, r, refl, h)
  Follows-cons (double d) c r h = (c, r, refl, h)
  Follows-cons null c r h = tt
  Follows-cons _ c r h = tt

  pub serialize-Starts :
      (v : JsonValue Double) → Printable ops v → (level : ℕ) → Starts (serialize_json ops v level)
  unfolding serialize_json is_space
  serialize-Starts null h level = (b'n', _, refl, refl, refl)
  serialize-Starts (boolean true) h level = (b't', _, refl, refl, refl)
  serialize-Starts (boolean false) h level = (b'f', _, refl, refl, refl)
  serialize-Starts (long i) h level =
      let (c, rest, shape, a, b, d, e) = long_text-StartsNumber i in (c, rest, shape, a, b)
  serialize-Starts (double d) (of_double _ minus c ds fs printed h h' back) level =
      let (b, rest, shape, a, bracket, quote, number) = decimal-StartsNumber minus c ds fs (h.0) in
      (b, rest, printed ∙ shape, a, bracket)
  serialize-Starts (string s) h level = (b'"', _, refl, refl, refl)
  serialize-Starts (array arr) h level = (b'[', _, refl, refl, refl)
  serialize-Starts (object obj) h level = (b'{', _, refl, refl, refl)

  -- The text behind an item, and the text behind an entry.
  pub items_tail : JsonArray Double → ℕ → List ℕ → List ℕ
  items_tail more level rest =
      serialize_items ops more false level ++ 10 ∷ (indent level ++ b']' ∷ rest)

  pub entries_tail : JsonObject Double → ℕ → List ℕ → List ℕ
  entries_tail more level rest =
      serialize_entries ops more false level ++ 10 ∷ (indent level ++ b'}' ∷ rest)

  abbrev pub margin : ℕ → List ℕ
  margin level = 10 ∷ (indent level ++ 32 ∷ 32 ∷ [])

  pub margin-AllSpaces : (level : ℕ) → AllSpaces (margin level)
  unfolding is_space
  margin-AllSpaces level =
      (refl, AllSpaces-append (indent level) _ (replicate-AllSpaces (level * 2)) (refl, (refl, tt)))

  abbrev pub item_text : JsonValue Double → JsonArray Double → ℕ → List ℕ → List ℕ
  item_text item more level rest = serialize_json ops item (level + 1) ++ items_tail more level rest

  abbrev pub entry_text : List ℕ → JsonValue Double → JsonObject Double → ℕ → List ℕ → List ℕ
  entry_text key v more level rest =
      b'"'
      ∷ (key
          ++ b'"' ∷ b':' ∷ 32 ∷ (serialize_json ops v (level + 1) ++ entries_tail more level rest))

  pub items_tail-nil :
      (level : ℕ) (rest : List ℕ) → items_tail nil level rest ≡ 10 ∷ (indent level ++ b']' ∷ rest)
  unfolding items_tail serialize_json
  items_tail-nil level rest = refl

  pub items_tail-cons :
      (item : JsonValue Double) (more : JsonArray Double) (level : ℕ) (rest : List ℕ)
      → items_tail (cons item more) level rest
        ≡ b',' ∷ (margin level ++ item_text item more level rest)
  unfolding items_tail serialize_json
  items_tail-cons item more level rest = simp append_assoc

  pub entries_tail-end :
      (level : ℕ) (rest : List ℕ) → entries_tail end level rest ≡ 10 ∷ (indent level ++ b'}' ∷ rest)
  unfolding entries_tail serialize_json
  entries_tail-end level rest = refl

  pub entries_tail-entry :
      (key : List ℕ) (v : JsonValue Double) (more : JsonObject Double) (level : ℕ) (rest : List ℕ)
      → entries_tail (entry key v more) level rest
        ≡ b',' ∷ (margin level ++ entry_text key v more level rest)
  unfolding entries_tail serialize_json
  entries_tail-entry key v more level rest = simp append_assoc

  pub array_text :
      (item : JsonValue Double) (more : JsonArray Double) (level : ℕ) (rest : List ℕ)
      → serialize_json ops (array (cons item more)) level ++ rest
        ≡ b'[' ∷ (margin level ++ item_text item more level rest)
  unfolding items_tail serialize_json
  array_text item more level rest = simp append_assoc

  pub object_text :
      (key : List ℕ) (v : JsonValue Double) (more : JsonObject Double) (level : ℕ) (rest : List ℕ)
      → serialize_json ops (object (entry key v more)) level ++ rest
        ≡ b'{' ∷ (margin level ++ entry_text key v more level rest)
  unfolding entries_tail serialize_json
  object_text key v more level rest = simp append_assoc

  pub string_text :
      (s : List ℕ) (level : ℕ) (rest : List ℕ)
      → serialize_json ops (string s) level ++ rest ≡ b'"' ∷ (escape s ++ b'"' ∷ rest)
  unfolding serialize_json
  string_text s level rest = simp append_assoc

  pub empty_array_text :
      (level : ℕ) (rest : List ℕ)
      → serialize_json ops (array nil) level ++ rest
        ≡ b'[' ∷ ((10 ∷ 10 ∷ indent level) ++ b']' ∷ rest)
  unfolding serialize_json
  empty_array_text level rest = simp append_assoc

  pub empty_object_text :
      (level : ℕ) (rest : List ℕ)
      → serialize_json ops (object end) level ++ rest
        ≡ b'{' ∷ ((10 ∷ 10 ∷ indent level) ++ b'}' ∷ rest)
  unfolding serialize_json
  empty_object_text level rest = simp append_assoc

  pub Starts-append : (xs ys : List ℕ) → Starts xs → Starts (xs ++ ys)
  Starts-append xs ys (c, rest, shape, a, b) = (c, rest ++ ys, rw shape, a, b)
