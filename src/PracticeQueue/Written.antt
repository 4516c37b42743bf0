-- ===== src/PracticeQueue/Written.antt =====
-- setData of cjunk/practice/queue.h.
use native.Mathlib.Nat.{mul-le-mul_right}
use cpp_examples.Prelude.{
  ℕ, zero, suc, ◌+◌, ◌*◌, ◌-◌, ◌<◌, ◌≤◌, ◌≡◌, ◌≢◌, ◌∙◌, refl, sym, ap, subst, true, false, Option,
  none, some, List, [], ◌∷◌, arith, length, set, length-set, ltb, lt→ltb, dec_lt, leb,
  if◌then◌else◌,
}
use cpp_examples.Memory.{copy_out, Copied, copy_in-Copied}
use cpp_examples.Fifo.Ring.{slot, slot-of_lt, slot-of_le, Holds}
use cpp_examples.PracticeQueue.{Queue, get_data, set_data}
use cpp_examples.PracticeQueue.Drops.{Represents, element_at, element_at-other, offset_below}

module _ {T : Type 0} (n : ℕ) (at after : ℕ → Option T) where
  -- A stretch that does not wrap, where the cells are the same.
  Holds-agree :
      (p : ℕ) (xs : List T)
      → p + length xs < n
      → ((k : ℕ) → p ≤ k → after k ≡ at k)
      → Holds n at p xs
      → Holds n after p xs
  Holds-agree p [] room same held = held
  Holds-agree p (x ∷ xs) room same (here, more) = (
    ap after (slot-of_lt (omega arith))
        ∙ same p (omega arith)
        ∙ sym (ap at (slot-of_lt (omega arith)))
        ∙ here,
    Holds-agree (p + 1) xs (omega arith) (λ k above. same k (omega arith)) more,
  )

  -- A stretch that does not wrap, where one cell is written.
  Holds-set :
      (p i : ℕ) (xs : List T) (e : T)
      → p + length xs < n
      → i < length xs
      → after (p + i) ≡ some e
      → ((k : ℕ) → k ≢ p + i → after k ≡ at k)
      → Holds n at p xs
      → Holds n after p (set xs i e)
  Holds-set p i [] e room below written same held = absurd (omega arith)
  Holds-set p zero (x ∷ xs) e room below written same (here, more) = (
    ap after (slot-of_lt (omega arith) ∙ (omega arith)) ∙ written,
    Holds-agree (p + 1) xs (omega arith) (λ k above. same k (λ a. omega arith)) more,
  )
  Holds-set p (suc i) (x ∷ xs) e room below written same (here, more) = (
    ap after (slot-of_lt (omega arith))
        ∙ same p (λ a. omega arith)
        ∙ sym (ap at (slot-of_lt (omega arith)))
        ∙ here,
    Holds-set (p + 1) i xs e (omega arith) (omega arith) (ap after (omega arith) ∙ written)
        (λ k other. same k (λ a. other (omega arith))) more,
  )

module _ (n size : ℕ) (self : Queue) (xs : List (List ℕ)) (r : Represents n size self xs) where
  get_data-ordered :
      (i : ℕ)
      → i < length xs
      → self.begin + length xs < n
      → get_data self i ≡ some (some ((self.begin + i) * size))
  unfolding get_data
  get_data-ordered i h l =
      let last : self.end ≡ self.begin + length xs = r.end_place ∙ slot-of_lt l in
      let ordered : ltb (self.end) (self.begin) ≡ false = ground arith in
      let inside : leb (self.end - self.begin) i ≡ false = ground arith in
      rw
        (ordered, inside, r.same_size, offset_below n size self xs (self.begin + i) r (omega arith))
        refl

  get_data-wrapped : (i : ℕ) → n ≤ self.begin + length xs → get_data self i ≡ some none
  unfolding get_data
  get_data-wrapped i l =
      let room = r.room in
      let start = r.begin_bound in
      let last : self.end ≡ self.begin + length xs - n = r.end_place ∙ slot-of_le l in
      let behind : ltb (self.end) (self.begin) ≡ true = ground arith in rw behind refl

  -- The queue with the new bytes.
  written-Represents :
      (i : ℕ) (element after : List ℕ)
      → i < length xs
      → self.begin + length xs < n
      → length element ≡ size
      → Copied (self.data_array) ((self.begin + i) * size) element after
      → Represents n size (record self { data_array = after }) (set xs i element)
  written-Represents i element after h l width c =
      let same = length-set xs i element in
      record {
        same_capacity = r.same_capacity;
        same_size = r.same_size;
        never_full = r.never_full;
        block = rw (c.same_length) (r.block);
        few = r.few;
        int_block = r.int_block;
        room = omega (arith, r.room);
        begin_bound = r.begin_bound;
        end_place = r.end_place ∙ ap (λ k. slot n (self.begin + k)) (sym same);
        held =
            Holds-set n (element_at size (self.data_array)) (element_at size after) (self.begin) i
              xs element l h
              (subst (λ k. copy_out after ((self.begin + i) * size) k ≡ some element) width
                (c.inside))
              (λ k other.
                element_at-other size (self.data_array) after element k (self.begin + i) width c
                  other)
              (r.held);
      }

  -- In a queue of capacity n that holds a list of elements, and for an index below their number and an
  -- element of the element size: until `end` wraps, setData returns a queue that holds the list with the
  -- element at the index replaced; then it returns the queue as it was.
  pub set_data-Represents :
      (i : ℕ) (element : List ℕ)
      → i < length xs
      → length element ≡ size
      → (after : Queue) × (set_data self i element ≡ some after)
        × Represents n size after (if ltb (self.begin + length xs) n then set xs i element else xs)
  unfolding set_data
  set_data-Represents i element h width = elim (dec_lt (self.begin + length xs) n) [
    | yes l ↦
        (let inside : suc (self.begin + i) * size ≤ n * size =
            mul-le-mul_right size (omega (arith, l)) in
          let space = r.block in
          let (after, (done, c)) =
            copy_in-Copied (self.data_array) ((self.begin + i) * size) element (omega arith) in
          (
            record self { data_array = after },
            rw (get_data-ordered i h l, set_data, done) refl,
            rw (lt→ltb _ _ l) (written-Represents i element after h l width c),
          ))
    | no l ↦
        (let test : ltb (self.begin + length xs) n ≡ false = ground (arith, l) in
          (self, rw (get_data-wrapped i (omega (arith, l)), set_data) refl, rw test r))
  ]
