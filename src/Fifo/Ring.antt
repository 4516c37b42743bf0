-- ===== src/Fifo/Ring.antt =====
-- The cells of a ring that a stretch of positions covers. A position counts on from `tail` without
-- wrapping, and `slot` is the index it has.
use native.Mathlib.Nat.{mod-lt, mod-eq_of_lt, mod_self, add-mod_right}
use cpp_examples.Prelude.{
  ℕ, ◌+◌, ◌-◌, ◌%◌, ◌^◌, ◌<◌, ◌≤◌, ◌≡◌, ◌≢◌, ◌∙◌, sym, ap, Option, some, List, [], ◌∷◌, ◌++◌, arith,
  length, ltb, if◌then◌else◌, dec_lt, subst,
}
use cpp_examples.Fifo.{distance_value, distance}

unfoldable pub slot : ℕ → ℕ → ℕ
slot n p = if ltb p n then p else p - n

pub slot-of_lt : {n p : ℕ} → p < n → slot n p ≡ p
unfolding slot
slot-of_lt h = ground arith

pub slot-of_le : {n p : ℕ} → n ≤ p → slot n p ≡ p - n
unfolding slot
slot-of_le h = ground arith

pub slot-bounded : (n p : ℕ) → p < n + n → slot n p < n
unfolding slot
slot-bounded n p h = ground arith

slots-differ : (n p q : ℕ) → p < q → q < p + n → slot n q ≢ slot n p
unfolding slot
slots-differ n p q h i = ground arith

pub next-eq-slot : (n i : ℕ) → i < n → (i + 1) % n ≡ slot n (i + 1)
next-eq-slot n i h = elim (dec_lt (i + 1) n) [
  | yes l ↦ mod-eq_of_lt l ∙ sym (slot-of_lt l)
  | no l ↦
      let last : i + 1 ≡ n = omega (arith, l) in
      ap (λ m. m % n) last
      ∙ mod_self n
      ∙ sym (slot-of_le (omega (arith, last)) ∙ omega (arith, last))
]

pub next-slot : (n p : ℕ) → p + 1 < n + n → slot n (slot n p + 1) ≡ slot n (p + 1)
unfolding slot
next-slot n p h = ground arith

-- The index behind that of a position is that of the next position.
pub advanced : (n p : ℕ) {i : ℕ} → i ≡ slot n p → p + 1 < n + n → (i + 1) % n ≡ slot n (p + 1)
advanced n p e h =
    ap (λ m. (m + 1) % n) e
    ∙ next-eq-slot n (slot n p) (slot-bounded n p (omega arith))
    ∙ next-slot n p h

distance-of_le :
    (n : ℕ) {head tail : ℕ} → tail ≤ head → distance_value n head tail ≡ (head - tail) % n + n
unfolding distance_value
distance-of_le n h = ground arith

distance-of_lt :
    (n : ℕ) {head tail : ℕ} → head < tail → distance_value n head tail ≡ n - (tail - head) % n
unfolding distance_value
distance-of_lt n h = ground arith

-- Up to 2 ^ 30 cells `int` holds it.
pub distance-some :
    (n head tail : ℕ)
    → 0 < n
    → n ≤ 2 ^ 30
    → distance n head tail ≡ some (distance_value n head tail)
unfolding distance distance_value
distance-some n head tail h small =
    let up = mod-lt (head - tail) h in let down = mod-lt (tail - head) h in ground arith

-- The number of cells in use.
pub distance-slot :
    (n tail k : ℕ) → tail < n → k < n → distance_value n (slot n (tail + k)) tail % n ≡ k
distance-slot n tail k h i = elim (dec_lt (tail + k) n) [
  | yes l ↦
      let used : distance_value n (tail + k) tail ≡ k % n + n =
        distance-of_le n (omega arith) ∙ ap (λ m. m % n + n) (omega arith) in
      ap (λ m. distance_value n m tail % n) (slot-of_lt l)
      ∙ ap (λ m. m % n) used
      ∙ add-mod_right (k % n) n
      ∙ ap (λ m. m % n) (mod-eq_of_lt i)
      ∙ mod-eq_of_lt i
  | no l ↦
      let free : n - k < n = omega (arith, l) in
      let turned : tail - (tail + k - n) ≡ n - k = omega (arith, l) in
      let used : distance_value n (tail + k - n) tail ≡ k =
        distance-of_lt n (omega (arith, l))
        ∙ ap (λ m. n - m % n) turned
        ∙ ap (λ m. n - m) (mod-eq_of_lt free)
        ∙ omega arith in
      ap (λ m. distance_value n m tail % n) (slot-of_le (omega (arith, l)))
      ∙ ap (λ m. m % n) used
      ∙ mod-eq_of_lt i
]

module _ {T : Type 0} (n : ℕ) where
  -- The cells from position `p` on hold these values, where `at` reads the cell of an index.
  abbrev pub Holds : (ℕ → Option T) → ℕ → List T → Type 0
  Holds at p [] = Unit {0}
  Holds at p (x ∷ xs) = (at (slot n p) ≡ some x) × Holds at (p + 1) xs

  -- A write behind the stretch does not touch it.
  pub Holds-keep :
      {at after : ℕ → Option T} (xs : List T) (p q : ℕ)
      → p + length xs ≤ q
      → q < p + n
      → ((i : ℕ) → i < n → i ≢ slot n q → after i ≡ at i)
      → q < n + n
      → Holds at p xs
      → Holds after p xs
  Holds-keep [] p q h i same bound held = tt
  Holds-keep (y ∷ ys) p q h i same bound (here, more) =
      let inside = slot-bounded n p (omega arith) in
      let other = slots-differ n p q (omega arith) i in
      (
        same (slot n p) inside (λ e. other (sym e)) ∙ here,
        Holds-keep ys (p + 1) q (omega arith) (omega arith) same bound more,
      )

  -- A value behind the stretch makes it longer.
  pub Holds-append :
      (at : ℕ → Option T) (xs : List T) (p : ℕ) (x : T)
      → Holds at p xs
      → at (slot n (p + length xs)) ≡ some x
      → Holds at p (xs ++ x ∷ [])
  Holds-append at [] p x held last = (subst (λ q. at (slot n q) ≡ some x) (omega arith) last, tt)
  Holds-append at (y ∷ ys) p x (here, more) last =
      let sum : p + length (y ∷ ys) ≡ p + 1 + length ys = omega arith in
      (here, Holds-append at ys (p + 1) x more (subst (λ q. at (slot n q) ≡ some x) sum last))

  -- One round on, the positions are the same cells.
  pub Holds-wrap :
      (at : ℕ → Option T) (xs : List T) (p : ℕ)
      → p + length xs ≤ n
      → Holds at (n + p) xs
      → Holds at p xs
  Holds-wrap at [] p h held = tt
  Holds-wrap at (x ∷ xs) p h (here, more) =
      let same : slot n (n + p) ≡ slot n p =
        slot-of_le (omega arith) ∙ (omega arith) ∙ sym (slot-of_lt (omega arith)) in
      let sum : n + p + 1 ≡ n + (p + 1) = omega arith in
      (
        subst (λ q. at q ≡ some x) same here,
        Holds-wrap at xs (p + 1) (omega arith) (subst (λ q. Holds at q xs) sum more),
      )

  -- Where the stretch starts after its first cell is taken, and where it ends.
  pub Holds-next :
      (at : ℕ → Option T) (head tail : ℕ) (xs : List T)
      → length xs + 1 < n
      → tail < n
      → head ≡ slot n (tail + 1 + length xs)
      → Holds at (tail + 1) xs
      → let next = (tail + 1) % n in
        (next < n) × (head ≡ slot n (next + length xs)) × Holds at next xs
  Holds-next at head tail xs few bound place more = elim (dec_lt (tail + 1) n) [
    | yes l ↦ rw (mod-eq_of_lt l) (l, place, more)
    | no l ↦
        let last : tail + 1 ≡ n = omega (arith, l) in
        let round : tail + 1 ≡ n + 0 = omega (arith, last) in
        let wraps : (tail + 1) % n ≡ 0 = ap (λ m. m % n) last ∙ mod_self n in
        rw wraps (
          omega arith,
          place ∙ slot-of_le (omega arith) ∙ (omega arith) ∙ sym (slot-of_lt (omega arith)),
          Holds-wrap at xs 0 (omega arith) (subst (λ q. Holds at q xs) round more),
        )
  ]
