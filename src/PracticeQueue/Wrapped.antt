-- ===== src/PracticeQueue/Wrapped.antt =====
-- getSize and getData of cjunk/practice/queue.h, before and after `end` has wrapped behind `begin`.
use cpp_examples.Prelude.{
  ℕ, zero, suc, ◌+◌, ◌-◌, ◌^◌, ◌<◌, ◌≡◌, ◌∙◌, refl, sym, ap, true, false, Option, none, some, List,
  [], ◌∷◌, arith, length, get_elem?, ltb, lt→ltb, dec_lt, leb, if◌then◌else◌, ◌>>=◌,
}
use cpp_examples.Memory.{copy_out}
use cpp_examples.Fifo.Ring.{slot, slot-of_lt, slot-of_le, Holds}
use cpp_examples.PracticeQueue.{Queue, get_size, get_data}
use cpp_examples.PracticeQueue.Drops.{Represents, element_at, offset_below}

-- What an index finds in a stretch of cells.
Holds-get :
    {T : Type 0} (n : ℕ) (at : ℕ → Option T) (p i : ℕ) (xs : List T)
    → Holds n at p xs
    → i < length xs
    → at (slot n (p + i)) ≡ get_elem? xs i
Holds-get n at p i [] held h = absurd (omega arith)
Holds-get n at p zero (x ∷ xs) (here, more) h = ap (λ q. at (slot n q)) (omega arith) ∙ here
Holds-get n at p (suc i) (x ∷ xs) (here, more) h =
    ap (λ q. at (slot n q)) (omega arith) ∙ Holds-get n at (p + 1) i xs more (omega arith)

-- What a caller finds behind the pointer of getData, if it is not `NULL`.
abbrev pub pointed : List ℕ → ℕ → Option ℕ → Option (Option (List ℕ))
pointed memory size none = some none
pointed memory size (some offset) = copy_out memory offset size >>= λ element. some (some element)

-- An element of a list, as a pointer to it gives it.
abbrev pub element_of : Option (List ℕ) → Option (Option (List ℕ))
element_of found = found >>= λ element. some (some element)

module _ (n size : ℕ) (self : Queue) (xs : List (List ℕ)) (r : Represents n size self xs) where
  get_size-length :
      get_size self ≡ (if ltb (self.begin + length xs) n then length xs else 2 ^ 16 - n + length xs)
  unfolding get_size slot
  get_size-length =
      let place = r.end_place in
      let start = r.begin_bound in let room = r.room in let few = r.few in ground arith

  get_data-element :
      (i : ℕ)
      → i < length xs
      → (get_data self i >>= pointed (self.data_array) size)
        ≡ (if ltb (self.begin + length xs) n then element_of (get_elem? xs i) else some none)
  unfolding get_data
  get_data-element i h = elim (dec_lt (self.begin + length xs) n) [
    | yes l ↦
        let last : self.end ≡ self.begin + length xs = r.end_place ∙ slot-of_lt l in
        let ordered : ltb (self.end) (self.begin) ≡ false = ground arith in
        let inside : leb (self.end - self.begin) i ≡ false = ground arith in
        let found = Holds-get n (element_at size (self.data_array)) (self.begin) i xs (r.held) h in
        let small = offset_below n size self xs (self.begin + i) r (omega (arith, l)) in
        rw (ordered, inside, r.same_size, small, lt→ltb _ _ l)
          (ap element_of
            (ap (element_at size (self.data_array)) (sym (slot-of_lt (omega (arith, l)))) ∙ found))
    | no l ↦
        let room = r.room in
        let start = r.begin_bound in
        let last : self.end ≡ self.begin + length xs - n =
          r.end_place ∙ slot-of_le (omega (arith, l)) in
        let behind : ltb (self.end) (self.begin) ≡ true = ground arith in
        let wrapped : ltb (self.begin + length xs) n ≡ false = ground arith in
        rw (behind, wrapped) refl
  ]

  -- In a queue of capacity n that holds a list of elements, and for an index below their number:
  -- until `end` wraps, getSize is their number and getData points to the element with the index; then
  -- getSize is 2 ^ 16 - n more than their number, and getData returns NULL.
  pub get_size-get_data :
      (i : ℕ)
      → i < length xs
      → (get_size self
          ≡ (if ltb (self.begin + length xs) n then length xs else 2 ^ 16 - n + length xs))
        × ((get_data self i >>= pointed (self.data_array) size)
            ≡ (if ltb (self.begin + length xs) n then element_of (get_elem? xs i) else some none))
  get_size-get_data i h = (get_size-length, get_data-element i h)
