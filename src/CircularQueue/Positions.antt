-- ===== src/CircularQueue/Positions.antt =====
-- Positions that count on without wrapping, and the cells of a ring that have their remainders.
use native.Mathlib.Nat.{mod-lt, mod-eq_of_lt, mod-mod, mod-le, mod-add-mod, add-mod_right}
use cpp_examples.Prelude.{
  ℕ, ◌+◌, ◌-◌, ◌%◌, ◌<◌, ◌≤◌, ◌≡◌, ◌≢◌, ◌∙◌, refl, ap, sym, subst, some, List, [], ◌∷◌, ◌++◌, ◌⊎◌,
  inl, inr, Bool-cases, arith, length, get_elem?, set, get_elem?-set_self, get_elem?-set_ne, ◌==◌,
  dec_lt,
}
use cpp_examples.CircularQueue.Threads.{exchange}

-- A remainder and less than n more.
mod-moved :
    (n r d : ℕ) → r < n → d < n → ((r + d) % n ≡ r + d) ⊎ (((r + d) % n ≡ r + d - n) × (n ≤ r + d))
mod-moved n r d h i = elim (dec_lt (r + d) n) [
  | yes l ↦ inl (mod-eq_of_lt l)
  | no l ↦
      (let back : r + d ≡ r + d - n + n = omega (arith, l) in
        inr (
          ap (λ m. m % n) back ∙ add-mod_right (r + d - n) n ∙ mod-eq_of_lt (omega (arith, l)),
          omega (arith, l),
        ))
]

mods_differ : (n p q : ℕ) → p < q → q < p + n → p % n ≢ q % n
mods_differ n p q h i e =
    let r = p % n in
    let below : r < n = mod-lt p (omega arith) in
    let sum : p + (q - p) ≡ q = omega arith in
    let moved : r ≡ (r + (q - p)) % n =
      e ∙ ap (λ m. m % n) (sym sum) ∙ sym (mod-add-mod p n (q - p)) in
    elim (mod-moved n r (q - p) below (omega arith)) [
      | inl same ↦ absurd (omega (arith, same, moved))
      | inr (turned, more) ↦ absurd (omega (arith, turned, more, moved))
    ]

pub succ-mod : (n a b : ℕ) → a % n ≡ b % n → (a + 1) % n ≡ (b + 1) % n
succ-mod n a b e = sym (mod-add-mod a n 1) ∙ ap (λ m. (m + 1) % n) e ∙ mod-add-mod b n 1

pub exchange-mod : (n value expected : ℕ) → exchange n value expected % n ≡ value % n
unfolding exchange
exchange-mod n value expected = elim (Bool-cases (value == expected)) [
  | inl same ↦
      (let equal : value ≡ expected = ground (arith, same) in
        rw same (mod-mod expected n ∙ ap (λ v. v % n) (sym equal)))
  | inr other ↦ rw other refl
]

pub exchange-le : (n value expected : ℕ) → exchange n value expected ≤ value
unfolding exchange
exchange-le n value expected = elim (Bool-cases (value == expected)) [
  | inl same ↦
      (let equal : value ≡ expected = ground (arith, same) in
        let less = mod-le expected n in rw same (omega arith))
  | inr other ↦ rw other (omega arith)
]

module _ {T : Type 0} (n : ℕ) where
  -- The cells of the positions from `p` on hold these values.
  abbrev pub Holds : List T → ℕ → List T → Type 0
  Holds cells p [] = Unit {0}
  Holds cells p (x ∷ xs) = (get_elem? cells (p % n) ≡ some x) × Holds cells (p + 1) xs

  -- A store at the position behind the values does not touch them, when they are fewer than n.
  Holds-set :
      (cells : List T) (x : T) (xs : List T) (p q : ℕ)
      → p + length xs ≤ q
      → q < p + n
      → Holds cells p xs
      → Holds (set cells (q % n) x) p xs
  Holds-set cells x [] p q h i held = tt
  Holds-set cells x (y ∷ ys) p q h i (here, more) =
      let other = mods_differ n p q (omega arith) i in
      (
        get_elem?-set_ne cells x (λ e. other (sym e)) ∙ here,
        Holds-set cells x ys (p + 1) q (omega arith) (omega arith) more,
      )

  Holds-snoc :
      (cells : List T) (x : T) (xs : List T) (p : ℕ)
      → Holds cells p xs
      → get_elem? cells ((p + length xs) % n) ≡ some x
      → Holds cells p (xs ++ x ∷ [])
  Holds-snoc cells x [] p held last =
      (subst (λ q. get_elem? cells (q % n) ≡ some x) (omega arith) last, tt)
  Holds-snoc cells x (y ∷ ys) p (here, more) last =
      let sum : p + length (y ∷ ys) ≡ p + 1 + length ys = omega arith in
      (
        here,
        Holds-snoc cells x ys (p + 1) more (subst (λ q. get_elem? cells (q % n) ≡ some x) sum last),
      )

  -- A store at the position behind fewer than n values adds one.
  pub Holds-store :
      (cells : List T) (x : T) (xs : List T) (p i : ℕ)
      → 0 < n
      → length cells ≡ n
      → length xs < n
      → i % n ≡ (p + length xs) % n
      → Holds cells p xs
      → Holds (set cells (i % n) x) p (xs ++ x ∷ [])
  Holds-store cells x xs p i positive size few place held =
      let inside = mod-lt (p + length xs) positive in
      rw place (
        Holds-snoc (set cells ((p + length xs) % n) x) x xs p
          (Holds-set cells x xs p (p + length xs) (omega arith) (omega arith) held)
          (get_elem?-set_self cells ((p + length xs) % n) x (omega arith)))
