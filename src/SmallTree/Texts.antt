-- ===== src/SmallTree/Texts.antt =====
-- The texts of the nodes of cjunk/trivialJson/json.hpp that hold strings.
use cpp_examples.Prelude.{
  ℕ, zero, suc, ◌+◌, ◌-◌, ◌≤◌, ◌≡◌, ◌≢◌, ◌∙◌, refl, ap, sym, min, false, List, [], ◌∷◌, ◌++◌, map,
  append-nil, take, replicate, arith, length, ◌==◌, dec_le,
}
use cpp_examples.SmallTree.{
  Nodes, list, none, node, small_size, c_length, small_string, make_node, c_str, quoted, serialize,
  serialize_list,
}

-- No zero byte, as in what a C string holds.
abbrev pub IsText : List ℕ → Type 0
IsText [] = Unit {0}
IsText (c ∷ s) = (c ≢ 0) × IsText s

c_length-length : (s : List ℕ) → c_length s ≡ length s + 1
unfolding c_length
c_length-length [] = refl
c_length-length (c ∷ s) = omega (arith, c_length-length s)

-- A copy of so many bytes, with zeros up to the size, reads as so many bytes of the text.
c_str-padded :
    (s : List ℕ) (count room : ℕ)
    → IsText s
    → count ≤ length s + 1
    → c_str (take count (s ++ 0 ∷ []) ++ replicate room 0) ≡ take count s
unfolding c_str
c_str-padded s zero zero t h = refl
c_str-padded s zero (suc room) t h = refl
c_str-padded [] (suc count) room t h = refl
c_str-padded (c ∷ s) (suc count) room (n, t) h =
    let other : (c == 0) ≡ false = ground (arith, n) in
    rw other (ap (λ rest. c ∷ rest) (c_str-padded s count room t (omega arith)))

take-length : (s : List ℕ) (n : ℕ) → length s ≤ n → take n s ≡ s
take-length [] zero h = refl
take-length [] (suc n) h = refl
take-length (c ∷ s) zero h = absurd (omega arith)
take-length (c ∷ s) (suc n) h = ap (λ rest. c ∷ rest) (take-length s n (omega arith))

take-min : (s : List ℕ) (n : ℕ) → take (min (length s + 1) n) s ≡ take n s
take-min s n = elim (dec_le (length s + 1) n) [
  | yes l ↦
      (let least : min (length s + 1) n ≡ length s + 1 = omega (arith, l) in
        rw least
          (take-length s (length s + 1) (omega arith) ∙ sym (take-length s n (omega (arith, l)))))
  | no l ↦ ap (λ k. take k s) (omega (arith, l))
]

c_str-small_string : (s : List ℕ) → IsText s → c_str (small_string s) ≡ take small_size s
unfolding small_string
c_str-small_string s t =
    let count = c_length-length s in
    rw count (
      c_str-padded s (min (length s + 1) 8) (8 - min (length s + 1) 8) t (omega arith)
      ∙ take-min s 8)

-- The texts with a comma between each two.
abbrev pub join : List (List ℕ) → List ℕ
join [] = []
join (s ∷ []) = s
join (s ∷ t ∷ rest) = s ++ b',' ∷ join (t ∷ rest)

module _ {Double : Type 0} (to_string : Double → List ℕ) where
  -- The list of the nodes that are made from these texts.
  abbrev pub nodes_of : List (List ℕ) → Nodes Double
  nodes_of [] = none
  nodes_of (s ∷ rest) = node (make_node s) (nodes_of rest)

  abbrev pub AreTexts : List (List ℕ) → Type 0
  AreTexts [] = Unit {0}
  AreTexts (s ∷ rest) = IsText s × AreTexts rest

  -- The text of a node keeps eight bytes.
  abbrev pub short : List ℕ → List ℕ
  short s = quoted (take 8 s)

  serialize-make_node : (s : List ℕ) → IsText s → serialize to_string (make_node s) ≡ short s
  unfolding serialize make_node
  serialize-make_node s t = ap quoted (c_str-small_string s t)

  serialize_list-join :
      (s : List ℕ) (rest : List (List ℕ))
      → AreTexts (s ∷ rest)
      → serialize to_string (make_node s) ++ serialize_list to_string (nodes_of rest) false
        ≡ join (map short (s ∷ rest))
  unfolding serialize_list
  serialize_list-join s [] (t, ts) = rw (serialize-make_node s t) (append-nil (short s))
  serialize_list-join s (s' ∷ rest) (t, ts) =
      ap (λ more. serialize to_string (make_node s) ++ b',' ∷ more) (serialize_list-join s' rest ts)
      ∙ ap (λ text. text ++ b',' ∷ join (map short (s' ∷ rest))) (serialize-make_node s t)

  -- The text of a list of nodes made from C strings is, between brackets and with a comma between each
  -- two, the first eight bytes of each string in quotes.
  pub serialize-nodes_of :
      (texts : List (List ℕ))
      → AreTexts texts
      → serialize to_string (list (nodes_of texts)) ≡ b'[' ∷ (join (map short texts) ++ b']' ∷ [])
  unfolding serialize serialize_list
  serialize-nodes_of [] t = refl
  serialize-nodes_of (s ∷ rest) t =
      ap (λ text. b'[' ∷ (text ++ b']' ∷ [])) (serialize_list-join s rest t)
