-- ===== src/PracticeQueue/Growth.antt =====
-- A larger capacity for the queue of cjunk/practice/queue.h.
use native.Mathlib.Nat.{mul-le-mul_right}
use cpp_examples.Prelude.{
  ℕ, zero, suc, ◌+◌, ◌*◌, ◌%◌, ◌^◌, ◌<◌, ◌≤◌, ◌≡◌, ◌∙◌, refl, sym, ap, ap₂, true, false, Option,
  none, some, List, [], ◌∷◌, arith, length, get_elem?, ltb, lt→ltb, dec_lt, if◌then◌else◌, ◌>>=◌,
  subst,
}
use cpp_examples.Memory.{copy_in, copy_out, Copied, copy_in-Copied, copy_out_total, copy_out-agree}
use cpp_examples.Fifo.Ring.{slot, slot-of_lt, Holds}
use cpp_examples.PracticeQueue.{Queue, difference, int_product}
use cpp_examples.PracticeQueue.Drops.{Represents, element_at}
use cpp_examples.PracticeQueue.Resize.{set_capacity, move_block, block_size}

first_read :
    (o : Option ℕ) (r : Option (List ℕ)) (bytes : List ℕ)
    → (do b ← o; rest ← r; some (b ∷ rest)) ≡ some bytes
    → (b : ℕ) × (rest : List ℕ) × (o ≡ some b) × (r ≡ some rest) × (bytes ≡ b ∷ rest)
first_read none r bytes h = absurd cc
first_read (some b) none bytes h = absurd cc
first_read (some b) (some rest) bytes h = (b, rest, refl, refl, cc)

-- What a read of several bytes gives, byte by byte.
copy_out-get :
    (m : List ℕ) (offset count i : ℕ) (bytes : List ℕ)
    → copy_out m offset count ≡ some bytes
    → i < count
    → get_elem? m (offset + i) ≡ get_elem? bytes i
unfolding copy_out
copy_out-get m offset zero i bytes h below = absurd (omega arith)
copy_out-get m offset (suc count) zero bytes h below =
    let (b, rest, found, more, shape) = first_read _ _ bytes h in
    ap (get_elem? m) (omega arith) ∙ found ∙ ap (λ l. get_elem? l 0) (sym shape)
copy_out-get m offset (suc count) (suc i) bytes h below =
    let (b, rest, found, more, shape) = first_read _ _ bytes h in
    ap (get_elem? m) (omega arith)
    ∙ copy_out-get m (offset + 1) count i rest more (omega arith)
    ∙ ap (λ l. get_elem? l (suc i)) (sym shape)

-- The elements that do not wrap keep their places in a larger ring.
Holds-larger :
    (n n' size : ℕ) (m m' : List ℕ) (p : ℕ) (xs : List (List ℕ))
    → ((i : ℕ) → i < n → element_at size m' i ≡ element_at size m i)
    → n ≤ n'
    → p + length xs < n
    → Holds n (element_at size m) p xs
    → Holds n' (element_at size m') p xs
Holds-larger n n' size m m' p [] same larger room held = held
Holds-larger n n' size m m' p (x ∷ xs) same larger room (here, more) = (
  ap (element_at size m') (slot-of_lt (omega arith))
      ∙ same p (omega arith)
      ∙ ap (element_at size m) (sym (slot-of_lt (omega arith)))
      ∙ here,
  Holds-larger n n' size m m' (p + 1) xs same larger (omega arith) more,
)

-- A block whose start is a copy of another block has the same elements there.
same_elements :
    (n size i : ℕ) (m m' bytes : List ℕ)
    → copy_out m 0 (size * n) ≡ some bytes
    → copy_out m' 0 (size * n) ≡ some bytes
    → i < n
    → element_at size m' i ≡ element_at size m i
same_elements n size i m m' bytes old new below =
    let inside : suc i * size ≤ n * size = mul-le-mul_right size below in
    copy_out-agree m m' (i * size) size λ k low high.
      ap (get_elem? m') (omega arith)
      ∙ copy_out-get m' 0 (size * n) k bytes new (omega arith)
      ∙ sym (ap (get_elem? m) (omega arith) ∙ copy_out-get m 0 (size * n) k bytes old (omega arith))

module _ (malloc : ℕ → Option (List ℕ)) (n size capacity : ℕ) (self : Queue) (xs : List (List ℕ))
    (r : Represents n size self xs) (larger : n ≤ capacity) (small : capacity * size < 2 ^ 16)
    (words : capacity + n ≤ 2 ^ 16) where
  -- The queue with the new block.
  moved-Represents :
      (fresh bytes after : List ℕ)
      → self.begin + length xs < n
      → length fresh ≡ capacity * size
      → length bytes ≡ size * n
      → copy_out (self.data_array) 0 (size * n) ≡ some bytes
      → Copied fresh 0 bytes after
      → Represents capacity size
          (record self { data_array = after; element_capacity = capacity })
          xs
  moved-Represents fresh bytes after ordered given count found c = record {
    same_capacity = refl;
    same_size = r.same_size;
    never_full = r.never_full;
    block = omega (arith, c.same_length);
    int_block = omega arith;
    few = let start = r.begin_bound in omega (arith, words);
    room = omega (arith, r.room);
    begin_bound = omega (arith, r.begin_bound);
    end_place = r.end_place ∙ slot-of_lt ordered ∙ sym (slot-of_lt (omega arith));
    held =
        Holds-larger n capacity size (self.data_array) after (self.begin) xs
          (λ i below.
            same_elements n size i (self.data_array) after bytes found
              (subst (λ k. copy_out after 0 k ≡ some bytes) count (c.inside)) below)
          larger ordered (r.held);
  }

  count_ordered :
      self.begin + length xs < n → ltb capacity (difference (self.end) (self.begin)) ≡ false
  unfolding slot
  count_ordered ordered = let place = r.end_place in let room = r.room in ground arith

  count_wrapped :
      n ≤ self.begin + length xs → ltb capacity (difference (self.end) (self.begin)) ≡ true
  unfolding slot
  count_wrapped wrapped =
      let place = r.end_place in let start = r.begin_bound in let room = r.room in ground arith

  moves :
      (fresh bytes after : List ℕ)
      → self.begin + length xs < n
      → malloc (capacity * size) ≡ some fresh
      → copy_out (self.data_array) 0 (size * n) ≡ some bytes
      → copy_in fresh 0 bytes ≡ some after
      → set_capacity malloc self capacity
        ≡ some (record self { data_array = after; element_capacity = capacity })
  unfolding set_capacity block_size move_block int_product
  moves fresh bytes after ordered given found done =
      let product : capacity * self.element_size ≡ capacity * size =
        ap (λ k. capacity * k) (r.same_size) in
      let word : capacity * self.element_size % 2 ^ 16 ≡ capacity * size = omega (arith, product) in
      let fits : ltb (capacity * self.element_size) (2 ^ 31) ≡ true =
        lt→ltb _ _ (omega (arith, product)) in
      let old_block : copy_out (self.data_array) 0 (self.element_size * self.element_capacity)
          ≡ some bytes =
        ap₂ (λ a b. copy_out (self.data_array) 0 (a * b)) (r.same_size) (r.same_capacity) ∙ found in
      let bound = r.int_block in
      let same : self.element_size * self.element_capacity ≡ size * n =
        ap₂ (λ a b. a * b) (r.same_size) (r.same_capacity) in
      let int_fits : ltb (self.element_size * self.element_capacity) (2 ^ 31) ≡ true =
        lt→ltb _ _ (omega (arith, same)) in
      rw (count_ordered ordered, fits, word, given, int_fits, old_block, done) refl

  -- With a capacity n and one that is not smaller, of at most 2 ^ 16 together, a block size below
  -- 2 ^ 16 and an allocation that gives a block of the size asked for, setCapacity returns a queue that
  -- holds the same elements. It has the new capacity, or the old one if `end` has wrapped.
  pub set_capacity-Represents :
      (fresh : List ℕ)
      → malloc (capacity * size) ≡ some fresh
      → length fresh ≡ capacity * size
      → (after : Queue) × (set_capacity malloc self capacity ≡ some after)
        × Represents (if ltb (self.begin + length xs) n then capacity else n) size after xs
  unfolding set_capacity
  set_capacity-Represents fresh given count = elim (dec_lt (self.begin + length xs) n) [
    | yes l ↦
        let wide : n * size ≤ capacity * size = mul-le-mul_right size larger in
        let (bytes, (found, width)) =
          copy_out_total (self.data_array) 0 (size * n) (omega (arith, r.block)) in
        let (after, (done, c)) = copy_in-Copied fresh 0 bytes (omega arith) in
        let test = lt→ltb _ _ l in
        (
          record self { data_array = after; element_capacity = capacity },
          moves fresh bytes after l given found done,
          rw test (moved-Represents fresh bytes after l count width found c),
        )
    | no l ↦
        let test : ltb (self.begin + length xs) n ≡ false = ground (arith, l) in
        (self, rw (count_wrapped (omega (arith, l))) refl, rw test r)
  ]
