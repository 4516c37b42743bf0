-- ===== src/ContainerSource/Pieces.antt =====
-- What a `container_source` of cjunk/tests.cpp gives piece by piece.
use cpp_examples.Prelude.{
  ℕ, zero, suc, ◌+◌, ◌-◌, ◌≤◌, ◌≡◌, ◌∙◌, refl, ap, ap₂, sym, min, List, [], ◌∷◌, ◌++◌, arith,
  length, take, drop, ◌==◌, inl, inr, Bool-cases, dec_le,
}
use cpp_examples.ContainerSource.{Source, make_source, read, characters, read_pieces}

abbrev pub total : List ℕ → ℕ
total [] = 0
total (n ∷ ns) = n + total ns

module _ {T : Type 0} where
  take-nil : (n : ℕ) → take {A = T} n [] ≡ []
  take-nil zero = refl
  take-nil (suc n) = refl

  drop-nil : (n : ℕ) → drop {A = T} n [] ≡ []
  drop-nil zero = refl
  drop-nil (suc n) = refl

  take-drop : (xs : List T) (a b : ℕ) → take a xs ++ take b (drop a xs) ≡ take (a + b) xs
  take-drop xs zero b = ap (λ n. take n xs) (omega arith)
  take-drop [] (suc a) b = take-nil b ∙ sym (take-nil (suc a + b))
  take-drop (x ∷ xs) (suc a) b =
      let next : suc (a + b) ≡ suc a + b = omega arith in
      ap (λ rest. x ∷ rest) (take-drop xs a b) ∙ ap (λ n. take n (x ∷ xs)) next

  drop-drop : (xs : List T) (a b : ℕ) → drop b (drop a xs) ≡ drop (a + b) xs
  drop-drop xs zero b = ap (λ n. drop n xs) (omega arith)
  drop-drop [] (suc a) b = drop-nil b ∙ sym (drop-nil (suc a + b))
  drop-drop (x ∷ xs) (suc a) b =
      let next : suc (a + b) ≡ suc a + b = omega arith in
      drop-drop xs a b ∙ ap (λ n. drop n (x ∷ xs)) next

  length-drop : (xs : List T) (a : ℕ) → length (drop a xs) ≡ length xs - a
  length-drop xs zero = omega arith
  length-drop [] (suc a) = omega arith
  length-drop (x ∷ xs) (suc a) = length-drop xs a ∙ omega arith

  take-length : (xs : List T) (n : ℕ) → length xs ≤ n → take n xs ≡ xs
  take-length [] zero h = refl
  take-length [] (suc n) h = refl
  take-length (x ∷ xs) zero h = absurd (omega arith)
  take-length (x ∷ xs) (suc n) h = ap (λ rest. x ∷ rest) (take-length xs n (omega arith))

  take-min : (xs : List T) (n more : ℕ) → take (min n (length xs) + more) xs ≡ take (n + more) xs
  take-min xs n more = elim (dec_le n (length xs)) [
    | yes l ↦ ap (λ k. take (k + more) xs) (omega (arith, l))
    | no l ↦
        take-length xs (min n (length xs) + more) (omega (arith, l))
        ∙ sym (take-length xs (n + more) (omega (arith, l)))
  ]

  read_either :
      (self : Source T) (n : ℕ)
      → (characters ((read self n).0)
          ≡ take (min n (length (self.container) - self.pos)) (drop (self.pos) (self.container)))
        × ((read self n).1
            ≡ record self { pos = self.pos + min n (length (self.container) - self.pos) })
  unfolding read
  read_either self n = elim (Bool-cases (min n (length (self.container) - self.pos) == 0)) [
    | inl end ↦
        (let nothing : min n (length (self.container) - self.pos) ≡ 0 = ground (arith, end) in
          let still : self.pos ≡ self.pos + min n (length (self.container) - self.pos) =
            omega arith in
          (rw (end, nothing) refl, rw end (ap (λ p. record self { pos = p }) still)))
    | inr more ↦ (rw more refl, rw more refl)
  ]

  -- The pieces from a place in the container.
  read_pieces-from :
      (c : List T) (pos : ℕ) (ns : List ℕ)
      → pos ≤ length c
      → ((read_pieces (record { container = c; pos = pos }) ns).0 ≡ take (total ns) (drop pos c))
        × ((read_pieces (record { container = c; pos = pos }) ns).1
            ≡ record { container = c; pos = min (pos + total ns) (length c) })
  unfolding read_pieces
  read_pieces-from c pos [] h =
      let here : pos ≡ min (pos + 0) (length c) = omega arith in
      (refl, ap (λ p. record { container = c; pos = p }) here)
  read_pieces-from c pos (n ∷ ns) h =
      let k = min n (length c - pos) in
      let left = drop pos c in
      let (piece, moved) = read_either (record { container = c; pos = pos }) n in
      let (rest, last) = read_pieces-from c (pos + k) ns (omega arith) in
      let whole : take k left ++ take (total ns) (drop (pos + k) c) ≡ take (n + total ns) left =
        ap (λ d. take k left ++ take (total ns) d) (sym (drop-drop c pos k))
        ∙ take-drop left k (total ns)
        ∙ ap (λ m. take (min n m + total ns) left) (sym (length-drop c pos))
        ∙ take-min left n (total ns) in
      let place : min (pos + k + total ns) (length c) ≡ min (pos + (n + total ns)) (length c) =
        omega arith in
      (
        rw (piece, moved, rest) whole,
        rw (moved, last) (ap (λ p. record { container = c; pos = p }) place),
      )

  -- Calls of `read` give together as many characters of the container as they ask for, from its start
  -- on and as far as there are any, and leave the place behind them.
  pub read_pieces-take :
      (c : List T) (ns : List ℕ)
      → read_pieces (make_source c) ns
        ≡ (take (total ns) c, record { container = c; pos = min (total ns) (length c) })
  unfolding make_source
  read_pieces-take c ns =
      let (pieces, last) = read_pieces-from c 0 ns (omega arith) in
      let place : min (0 + total ns) (length c) ≡ min (total ns) (length c) = omega arith in
      ap₂ (λ piece after. (piece, after)) pieces
        (last ∙ ap (λ p. record { container = c; pos = p }) place)
