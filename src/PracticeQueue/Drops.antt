-- ===== src/PracticeQueue/Drops.antt =====
-- cjunk/practice/queue.h against a queue as a list of elements, oldest first: enqueue and dequeue.
use native.Mathlib.Nat.{mod-lt, mul-le-mul_right}
use cpp_examples.Prelude.{
  ℕ, suc, ◌+◌, ◌*◌, ◌%◌, ◌^◌, ◌<◌, ◌≤◌, ◌≡◌, ◌≢◌, ◌∙◌, refl, sym, ap, subst, true, false, Option,
  none, some, List, [], ◌∷◌, ◌++◌, inl, inr, arith, dec_lt, length, ltb, length-append, ◌==◌,
  if◌then◌else◌, lt→ltb,
}
use cpp_examples.Memory.{copy_in, copy_out, Copied, copy_in-Copied, copy_out-agree}
use cpp_examples.Fifo.Ring.{
  slot, slot-of_lt, slot-of_le, slot-bounded, advanced, Holds, Holds-keep, Holds-append, Holds-next,
}
use cpp_examples.PracticeQueue.{
  Queue, difference, int_product, append_element, enqueue, take_element, dequeue,
}

-- The element with an index.
abbrev pub element_at : ℕ → List ℕ → ℕ → Option (List ℕ)
element_at size memory i = copy_out memory (i * size) size

-- A write to one element leaves the others.
pub element_at-other :
    (size : ℕ) (m after element : List ℕ) (i j : ℕ)
    → length element ≡ size
    → Copied m (j * size) element after
    → i ≢ j
    → element_at size after i ≡ element_at size m i
element_at-other size m after element i j h c other =
    copy_out-agree m after (i * size) size (λ k a b. c.outside k (elim (dec_lt i j) [
      | yes l ↦ let room : suc i * size ≤ j * size = mul-le-mul_right size l in inl (omega arith)
      | no l ↦
          let room : suc j * size ≤ i * size = mul-le-mul_right size (omega (arith, l, other)) in
          inr (omega arith)
    ]))

module _ (n size : ℕ) where
  -- The queue holds the elements of the list.
  pub record Represents (self : Queue) (xs : List (List ℕ)) : Type 0 where
    pub same_capacity : self.element_capacity ≡ n
    pub same_size : self.element_size ≡ size
    pub never_full : self.is_full ≡ false
    pub block : n * size ≤ length (self.data_array)
    pub few : n < 2 ^ 16
    pub int_block : n * size < 2 ^ 31
    pub room : length xs < n
    pub begin_bound : self.begin < n
    pub end_place : self.end ≡ slot n (self.begin + length xs)
    pub held : Holds n (element_at size (self.data_array)) (self.begin) xs

  -- The offset of an element is an `int`.
  pub offset_below :
      (self : Queue) (xs : List (List ℕ)) (i : ℕ)
      → Represents self xs
      → i < n
      → int_product i size ≡ some (i * size)
  unfolding int_product
  offset_below self xs i r below =
      let fits : suc i * size ≤ n * size = mul-le-mul_right size below in
      let bound = r.int_block in
      let small : ltb (i * size) (2 ^ 31) ≡ true = lt→ltb _ _ (omega arith) in rw small refl

  end_below : (self : Queue) (xs : List (List ℕ)) → Represents self xs → self.end < n
  end_below self xs r =
      let count = r.room in
      let start = r.begin_bound in
      rw (r.end_place) (slot-bounded n (self.begin + length xs) (omega arith))

  -- There is always space, as `endIndex` is a remainder.
  has_space : (m : ℕ) → 0 < n → n < 2 ^ 16 → (difference n (m % n) == 0) ≡ false
  has_space m h i = let below = mod-lt m h in ground arith

  append_element-total :
      (self : Queue) (xs : List (List ℕ)) (element : List ℕ)
      → Represents self xs
      → length element ≡ size
      → (after : List ℕ) × ((copy_in (self.data_array) (self.end * size) element ≡ some after)
          × Copied (self.data_array) (self.end * size) element after)
  append_element-total self xs element r h =
      let below = end_below self xs r in
      let fits : suc (self.end) * size ≤ n * size = mul-le-mul_right size below in
      let space = r.block in
      copy_in-Copied (self.data_array) (self.end * size) element (omega arith)

  -- `self` with the element written and `end` moved on.
  abbrev moved : Queue → List ℕ → Queue
  moved self after = record {
    begin = self.begin;
    end = (self.end + 1) % n;
    data_array = after;
    element_size = size;
    element_capacity = n;
    is_full = false;
  }

  -- The queue after an element is written and `end` moves on.
  appended-Represents :
      (self : Queue) (xs : List (List ℕ)) (element after : List ℕ)
      → Represents self xs
      → length element ≡ size
      → length xs + 1 < n
      → Copied (self.data_array) (self.end * size) element after
      → Represents (moved self after) (xs ++ element ∷ [])
  appended-Represents self xs element after r h few c =
      let start = r.begin_bound in
      let longer = length-append xs (element ∷ []) in
      let kept : (i : ℕ)
          → i < n
          → i ≢ slot n (self.begin + length xs)
          → element_at size after i ≡ element_at size (self.data_array) i =
        λ i _ other.
          element_at-other size (self.data_array) after element i (self.end) h c
            (λ e. other (e ∙ r.end_place)) in
      let written : element_at size after (self.end) ≡ some element =
        subst (λ k. copy_out after (self.end * size) k ≡ some element) h (c.inside) in
      let sum : self.begin + length xs + 1 ≡ self.begin + length (xs ++ element ∷ []) =
        omega (arith, longer) in
      record {
        same_capacity = refl;
        same_size = refl;
        never_full = refl;
        block = rw (c.same_length) (r.block);
        few = r.few;
        int_block = r.int_block;
        room = omega (arith, longer);
        begin_bound = start;
        end_place =
            advanced n (self.begin + length xs) (r.end_place) (omega arith) ∙ ap (slot n) sum;
        held =
            Holds-append n (element_at size after) xs (self.begin) element
              (Holds-keep n xs (self.begin) (self.begin + length xs) (omega arith) (omega arith)
                kept (omega arith) (r.held))
              (rw (sym (r.end_place)) written);
      }

  -- With the last place taken, `end` is back at `begin`.
  filled-Represents :
      (self : Queue) (xs : List (List ℕ)) (element after : List ℕ)
      → Represents self xs
      → length xs + 1 ≡ n
      → Copied (self.data_array) (self.end * size) element after
      → Represents (moved self after) []
  filled-Represents self xs element after r full c =
      let start = r.begin_bound in
      let round : slot n (self.begin + length xs + 1) ≡ slot n (self.begin + 0) =
        slot-of_le (omega arith) ∙ (omega arith) ∙ sym (slot-of_lt (omega arith)) in
      record {
        same_capacity = refl;
        same_size = refl;
        never_full = refl;
        block = rw (c.same_length) (r.block);
        few = r.few;
        int_block = r.int_block;
        room = omega arith;
        begin_bound = start;
        end_place = advanced n (self.begin + length xs) (r.end_place) (omega arith) ∙ round;
        held = tt;
      }

  -- An element is appended, or takes the last place and the queue is empty.
  pub enqueue-Represents :
      (self : Queue) (xs : List (List ℕ)) (element : List ℕ)
      → Represents self xs
      → length element ≡ size
      → (after : Queue) × ((enqueue self element ≡ some after)
          × Represents after (if ltb (length xs + 1) n then xs ++ element ∷ [] else []))
  unfolding enqueue append_element
  enqueue-Represents self xs element r h =
      let (after, (done, c)) = append_element-total self xs element r h in
      let some_room : 0 < n = let room = r.room in omega arith in
      let divides : (n == 0) ≡ false = ground arith in
      let space = has_space (self.begin + self.end) some_room (r.few) in
      let offset = offset_below self xs (self.end) r (end_below self xs r) in
      elim (dec_lt (length xs + 1) n) [
        | yes l ↦
            rw
              (
                r.never_full,
                r.same_capacity,
                r.same_size,
                divides,
                space,
                offset,
                done,
                lt→ltb _ _ l,
              )
              (moved self after, (refl, appended-Represents self xs element after r h l c))
        | no l ↦
            let room = r.room in
            let full : ltb (length xs + 1) n ≡ false = ground arith in
            rw (r.never_full, r.same_capacity, r.same_size, divides, space, offset, done, full)
              (
                moved self after,
                (refl, filled-Represents self xs element after r (omega (arith, l)) c),
              )
      ]

  pub dequeue-nil : (self : Queue) → Represents self [] → dequeue self ≡ some (none, self)
  unfolding dequeue
  dequeue-nil self r =
      let back : self.end ≡ self.begin =
        r.end_place ∙ ap (slot n) (omega arith) ∙ slot-of_lt (r.begin_bound) in
      let empty : (self.begin == self.end) ≡ true = ground arith in rw empty refl

  pub indices-apart :
      (self : Queue) (x : List ℕ) (xs : List (List ℕ))
      → Represents self (x ∷ xs)
      → self.begin ≢ self.end
  unfolding slot
  indices-apart self x xs r e =
      let start = r.begin_bound in let place = r.end_place in let room = r.room in ground arith

  -- The oldest element is taken.
  pub dequeue-Represents :
      (self : Queue) (x : List ℕ) (xs : List (List ℕ))
      → Represents self (x ∷ xs)
      → (after : Queue) × ((dequeue self ≡ some (some x, after)) × Represents after xs)
  unfolding dequeue take_element
  dequeue-Represents self x xs r =
      let (here, more) = r.held in
      let start = r.begin_bound in
      let small = r.few in
      let room : suc (length xs) < n = r.room in
      let apart : self.begin ≢ self.end = λ e. indices-apart self x xs r e in
      let ends = end_below self (x ∷ xs) r in
      let offset = offset_below self (x ∷ xs) (self.begin) r start in
      let filled : (self.begin == self.end) ≡ false = ground arith in
      let differ : (difference (self.end) (self.begin) == 0) ≡ false = ground arith in
      let divides : (n == 0) ≡ false = ground arith in
      let (below, place, rest) =
        Holds-next n (element_at size (self.data_array)) (self.end) (self.begin) xs (omega arith)
          start (r.end_place ∙ ap (slot n) (omega arith)) more in
      let first =
        subst (λ q. element_at size (self.data_array) q ≡ some x) (slot-of_lt start) here in
      rw (filled, differ, r.same_capacity, r.same_size, divides, take_element, offset, first)
        (
          _,
          (
            refl,
            record {
              same_capacity = refl;
              same_size = refl;
              never_full = r.never_full;
              block = r.block;
              few = r.few;
              int_block = r.int_block;
              room = omega arith;
              begin_bound = below;
              end_place = place;
              held = rest;
            },
          ),
        )
