-- ===== src/Json/Print/RoundTrip.antt =====
-- Parsing what `serialize_json` printed gives the value back.
use cpp_examples.Prelude.{
  ℕ, zero, suc, ◌+◌, ◌*◌, ◌<◌, ◌≡◌, ◌≢◌, refl, ap, List, [], ◌∷◌, ◌++◌, length, length-append,
  arith,
}
use cpp_examples.Json.Outcome.{Outcome, ok, bind, Cursor}
use cpp_examples.Json.Value.{JsonValue, JsonArray, JsonObject, null, long, double, cons, end, entry}
use cpp_examples.Json.Value.Keys.{Below}
use cpp_examples.Json.Scan.{is_space, is_digit, peek, consume, parse_string, skip_whitespace}
use cpp_examples.Json.Number.{DoubleOps}
use cpp_examples.Json.Parser.{dispatch, parse_value, array_loop, object_loop, finish, parse}
use cpp_examples.Json.Print.{indent, serialize_json}
use cpp_examples.Json.Print.Reads.{
  Reads, reads, Reads-bind, AllSpaces, replicate-AllSpaces, skip_whitespace-Reads, skip_all-Reads,
  expect-Reads, parse_string-Reads,
}
use cpp_examples.Json.Print.Scanned.{EndsNumber}
use cpp_examples.Json.Print.Printable.{
  Printable, PrintableItems, PrintableEntries, of_null, of_boolean, of_long, of_double, of_string,
  of_empty_array, of_array, of_empty_object, of_object, last_item, next_item, last_entry,
  next_entry, IsPlain, escape-IsPlain, append_object, insert-Below, append_object_assoc,
  Below-append, append_object-end,
}
use cpp_examples.Json.Print.Layout.{
  parse_value-Reads, Follows, Follows-cons, serialize-Starts, margin, margin-AllSpaces, item_text,
  entry_text, Starts, Starts-append, items_tail-nil, items_tail-cons, entries_tail-end,
  entries_tail-entry, array_text, object_text,
}
use cpp_examples.Json.Print.Steps.{
  null-Reads, boolean-Reads, long-Reads, double-Reads, string-Reads, empty_array-Reads,
  empty_object-Reads, parse_array-Reads, parse_object-Reads,
}

bytes-append : (xs ys : List ℕ) → length (xs ++ ys) ≡ length xs + length ys
bytes-append = length-append

-- For `omega`, on texts.
ruleset lengths = (arith, bytes-append)

-- What follows a byte and some white space is shorter.
shorter : (text ws rest : List ℕ) {c : ℕ} → text ≡ c ∷ (ws ++ rest) → length rest < length text
shorter text ws rest h = omega (arith, ap length h, bytes-append ws rest)

newline-AllSpaces : (level : ℕ) → AllSpaces (10 ∷ indent level)
unfolding is_space
newline-AllSpaces level = (refl, replicate-AllSpaces (level * 2))

newline_ends : EndsNumber 10
unfolding is_digit
newline_ends = (refl, refl, refl)

comma_ends : EndsNumber b','
unfolding is_digit
comma_ends = (refl, refl, refl)

key-Reads :
    (key ws : List ℕ) (p : ℕ) (rest : List ℕ)
    → IsPlain key
    → AllSpaces ws
    → Reads key rest (parse_string (p, ws ++ b'"' ∷ (key ++ b'"' ∷ rest)))
key-Reads key ws p rest plain h =
    rw (escape-IsPlain key plain) at (parse_string-Reads key ws p rest h)

module _ (ops : DoubleOps) where
  open ops use {Double}

  mutual
    unfolding parse_value peek consume dispatch is_digit is_space

    value-Reads :
        {v : JsonValue Double}
        → Printable ops v
        → (level fuel p : ℕ) (ws rest : List ℕ) → AllSpaces ws
        → Follows ops v rest
        → 2 * length (ws ++ (serialize_json ops v level ++ rest)) < fuel
        → Reads v rest (parse_value ops fuel (p, ws ++ (serialize_json ops v level ++ rest)))
    value-Reads h level zero p ws rest hs hf less = absurd (omega arith)
    value-Reads of_null level (suc fuel) p ws rest hs hf less =
        null-Reads ops level fuel p ws rest hs
    value-Reads (of_boolean b) level (suc fuel) p ws rest hs hf less =
        boolean-Reads ops level fuel p ws rest hs b
    value-Reads (of_long i range) level (suc fuel) p ws rest hs (c, r, e, ends) less =
        long-Reads ops level fuel p ws rest hs i c r range e ends
    value-Reads (of_double d minus first ds fs printed h h' back) level (suc fuel) p ws rest hs
          (c, r, e, ends) less =
        double-Reads ops level fuel p ws rest hs d minus first ds fs c r printed h h' back e ends
    value-Reads (of_string s) level (suc fuel) p ws rest hs hf less =
        string-Reads ops level fuel p ws rest hs s
    value-Reads of_empty_array level (suc fuel) p ws rest hs hf less =
        empty_array-Reads ops level fuel p ws rest hs
    value-Reads (of_array {item} {more} items) level (suc fuel) p ws rest hs hf less =
        rw (array_text ops item more level rest) (
          parse_value-Reads ops fuel p b'[' ws _ rest hs refl λ q.
            parse_array-Reads ops (array_loop ops fuel) q (margin ops level)
              (item_text ops item more level rest) rest (margin-AllSpaces ops level)
              (item-Starts items level rest)
              λ q'. items-Reads items level fuel q' [] rest tt (
                omega
                  (lengths, shorter _ (margin ops level) _ (array_text ops item more level rest))))
    value-Reads of_empty_object level (suc fuel) p ws rest hs hf less =
        empty_object-Reads ops level fuel p ws rest hs
    value-Reads (of_object {key} {v} {more} entries) level (suc fuel) p ws rest hs hf less =
        rw (object_text ops key v more level rest) (
          parse_value-Reads ops fuel p b'{' ws _ rest hs refl λ q.
            parse_object-Reads ops (object_loop ops fuel end) q (margin ops level) _ rest
              (margin-AllSpaces ops level)
              λ q'. rw append_object-end at (
                entries-Reads entries end tt level fuel q' [] rest tt (
                  omega (
                    lengths,
                    shorter _ (margin ops level) _ (object_text ops key v more level rest),
                  ))))

    item-Starts :
        {item : JsonValue Double} {more : JsonArray Double}
        → PrintableItems ops item more
        → (level : ℕ) (rest : List ℕ) → Starts (item_text ops item more level rest)
    item-Starts (last_item {item} h) level rest =
        Starts-append ops (serialize_json ops item (level + 1)) _
          (serialize-Starts ops item h (level + 1))
    item-Starts (next_item {item} h hs) level rest =
        Starts-append ops (serialize_json ops item (level + 1)) _
          (serialize-Starts ops item h (level + 1))

    items-Reads :
        {item : JsonValue Double} {more : JsonArray Double}
        → PrintableItems ops item more
        → (level fuel p : ℕ) (ws rest : List ℕ) → AllSpaces ws
        → 2 * length (ws ++ item_text ops item more level rest) + 1 < fuel
        → Reads
            (cons item more)
            (b']' ∷ rest)
            (array_loop ops fuel (p, ws ++ item_text ops item more level rest))
    items-Reads h level zero p ws rest hs less = absurd (omega arith)
    items-Reads (last_item {item} h) level (suc fuel) p ws rest hs less =
        rw (items_tail-nil ops level rest) (
          Reads-bind _
            (value-Reads h (level + 1) fuel p ws (10 ∷ (indent level ++ b']' ∷ rest)) hs
              (Follows-cons ops item 10 _ newline_ends)
              (omega (lengths, ap length (items_tail-nil ops level rest))))
            λ p₁.
              Reads-bind _
                (skip_whitespace-Reads (10 ∷ indent level) p₁ b']' rest (newline-AllSpaces level)
                  refl)
                λ p₂. reads)
    items-Reads (next_item {item} {item'} {more} h hs') level (suc fuel) p ws rest hs less =
        rw (items_tail-cons ops item' more level rest) (
          Reads-bind _
            (value-Reads h (level + 1) fuel p ws
              (b',' ∷ (margin ops level ++ item_text ops item' more level rest)) hs
              (Follows-cons ops item b',' _ comma_ends)
              (omega (lengths, ap length (items_tail-cons ops item' more level rest))))
            λ p₁. Reads-bind _ (skip_whitespace-Reads [] p₁ b',' _ tt refl) λ p₂.
              Reads-bind _
                (items-Reads hs' level fuel (p₂ + 1) (margin ops level) rest
                  (margin-AllSpaces ops level)
                  (omega (lengths, ap length (items_tail-cons ops item' more level rest))))
                λ p₃. reads)

    entries-Reads :
        {key : List ℕ} {v : JsonValue Double} {more : JsonObject Double}
        → PrintableEntries ops key v more
        → (obj : JsonObject Double) → Below key obj
        → (level fuel p : ℕ) (ws rest : List ℕ) → AllSpaces ws
        → 2 * length (ws ++ entry_text ops key v more level rest) + 1 < fuel
        → Reads
            (append_object obj (entry key v more))
            (b'}' ∷ rest)
            (object_loop ops fuel obj (p, ws ++ entry_text ops key v more level rest))
    entries-Reads h obj below level zero p ws rest hs less = absurd (omega arith)
    entries-Reads (last_entry {key} {v} plain h) obj below level (suc fuel) p ws rest hs less =
        rw (entries_tail-end ops level rest) (
          Reads-bind _ (key-Reads key ws p _ plain hs) λ p₁.
            Reads-bind _ (expect-Reads [] p₁ b':' _ tt refl) λ p₂.
              Reads-bind _
                (value-Reads h (level + 1) fuel p₂ (32 ∷ []) (10 ∷ (indent level ++ b'}' ∷ rest))
                  (refl, tt) (Follows-cons ops v 10 _ newline_ends)
                  (omega (lengths, ap length (entries_tail-end ops level rest))))
                λ p₃.
                  Reads-bind _
                    (skip_whitespace-Reads (10 ∷ indent level) p₃ b'}' rest
                      (newline-AllSpaces level) refl)
                    λ p₄. rw (insert-Below key v obj below) reads)
    entries-Reads (next_entry {key} {key'} {v} {v'} {more} plain h above hs') obj below level
          (suc fuel) p ws rest hs less =
        rw (entries_tail-entry ops key' v' more level rest) (
          Reads-bind _ (key-Reads key ws p _ plain hs) λ p₁.
            Reads-bind _ (expect-Reads [] p₁ b':' _ tt refl) λ p₂.
              Reads-bind _
                (value-Reads h (level + 1) fuel p₂ (32 ∷ [])
                  (b',' ∷ (margin ops level ++ entry_text ops key' v' more level rest)) (refl, tt)
                  (Follows-cons ops v b',' _ comma_ends)
                  (omega (lengths, ap length (entries_tail-entry ops key' v' more level rest))))
                λ p₃. Reads-bind _ (skip_whitespace-Reads [] p₃ b',' _ tt refl) λ p₄.
                  rw (insert-Below key v obj below) (
                    rw (append_object_assoc obj key v (entry key' v' more)) at (
                      entries-Reads hs' (append_object obj (entry key v end))
                        (Below-append key' key v obj above below) level fuel (p₄ + 1)
                        (margin ops level) rest (margin-AllSpaces ops level)
                        (omega
                          (lengths, ap length (entries_tail-entry ops key' v' more level rest))))))

  finish-Reads :
      {r : Outcome (Unit {0} × Cursor)} (v : JsonValue Double)
      → Reads tt [] r
      → bind r (λ (_, rest). finish ops v rest) ≡ ok v
  unfolding finish
  finish-Reads v reads = refl

  outcome-Reads :
      {r : Outcome (JsonValue Double × Cursor)} (v : JsonValue Double) (after : List ℕ)
      → AllSpaces after
      → Reads v after r
      → bind r
          (λ (result, cursor). bind (skip_whitespace cursor) λ (_, rest). finish ops result rest)
        ≡ ok v
  outcome-Reads v after h (reads {pos = p}) = finish-Reads v (skip_all-Reads after p h)

  abbrev pub IsNumber : JsonValue Double → Type 0
  IsNumber (long i) = Unit {0}
  IsNumber (double d) = Unit {0}
  IsNumber _ = ⊥

  Follows-spaces :
      (v : JsonValue Double) (after : List ℕ)
      → AllSpaces after
      → (IsNumber v → after ≢ [])
      → Follows ops v after
  unfolding is_digit is_space
  Follows-spaces (long i) [] h k = absurd (k tt refl)
  Follows-spaces (long i) (c ∷ after) h k =
      (c, after, refl, (ground arith, ground arith, ground arith))
  Follows-spaces (double d) [] h k = absurd (k tt refl)
  Follows-spaces (double d) (c ∷ after) h k =
      (c, after, refl, (ground arith, ground arith, ground arith))
  Follows-spaces null after h k = tt
  Follows-spaces _ after h k = tt

  -- A printed value, at any indentation and with any white space around it, is parsed to the same
  -- value, when its integers are in the range of `long long`, the print of each of its `double`s has
  -- digits on both sides of a point and `std::stod` gives the `double` back, the keys of its objects
  -- rise and hold no quote and no backslash, and white space follows if the whole value is a bare
  -- number.
  pub parse-serialize_json :
      (v : JsonValue Double) (level : ℕ) (before after : List ℕ)
      → Printable ops v
      → AllSpaces before
      → AllSpaces after
      → (IsNumber v → after ≢ [])
      → parse ops (before ++ (serialize_json ops v level ++ after)) ≡ ok v
  unfolding parse
  parse-serialize_json v level before after h hb ha k =
      outcome-Reads v after ha
        (value-Reads h level _ 0 before after hb (Follows-spaces v after ha k) (omega arith))
