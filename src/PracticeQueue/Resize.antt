-- ===== src/PracticeQueue/Resize.antt =====
-- `private_queueSetCapacity` and `private_queueSetElementSize` of cjunk/practice/queue.h.
use cpp_examples.Prelude.{
  ℕ, ◌+◌, ◌*◌, ◌%◌, ◌^◌, ◌<◌, ◌≤◌, ◌≡◌, refl, true, false, Option, none, some, List, arith, length,
  ltb, lt→ltb, dec_lt, if◌then◌else◌, ◌>>=◌,
}
use native.Mathlib.Nat.{mul-le-mul_right}
use cpp_examples.Memory.{copy_in, copy_out, copy_in-overrun, copy_out_total}
use cpp_examples.PracticeQueue.{Queue, difference, int_product}

-- The two functions from `malloc` on: `malloc` gives a block or `NULL`, and
-- `elementSize * elementCapacity` bytes of the old block are copied, with the values from before the
-- call.
unfoldable pub move_block : Option (List ℕ) → Queue → (List ℕ → Queue) → Option Queue
move_block none self install = some self
move_block (some fresh) self install = do
  count ← int_product (self.element_size) (self.element_capacity)
  bytes ← copy_out (self.data_array) 0 count
  memory ← copy_in fresh 0 bytes
  some (install memory)

-- A product of two `uint16_t` is an `int`, and its overflow is undefined behaviour.
unfoldable pub block_size : ℕ → ℕ → Option ℕ
block_size capacity size =
    if ltb (capacity * size) (2 ^ 31) then some (capacity * size % 2 ^ 16) else none

unfoldable pub set_capacity : (ℕ → Option (List ℕ)) → Queue → ℕ → Option Queue
set_capacity malloc self capacity =
    if ltb capacity (difference (self.end) (self.begin)) then some self else do
      bytes ← block_size capacity (self.element_size)
      move_block (malloc bytes) self
          (λ memory. record self { data_array = memory; element_capacity = capacity })

unfoldable pub set_element_size : (ℕ → Option (List ℕ)) → Queue → ℕ → Option Queue
set_element_size malloc self size =
    if ltb (self.element_capacity) (difference (self.end) (self.begin)) then some self else do
      bytes ← block_size (self.element_capacity) size
      move_block (malloc bytes) self
          (λ memory. record self { data_array = memory; element_size = size })

-- With elements of at least one byte, a capacity below the old one and not below the size, a block
-- size below 2 ^ 16 and an allocation that gives a block of the size asked for, setCapacity writes
-- past the end of the new block.
pub set_capacity-overrun :
    (malloc : ℕ → Option (List ℕ)) (self : Queue) (capacity : ℕ) (fresh : List ℕ)
    → self.element_size * self.element_capacity ≤ length (self.data_array)
    → difference (self.end) (self.begin) ≤ capacity
    → capacity < self.element_capacity
    → 0 < self.element_size
    → capacity * self.element_size < 2 ^ 16
    → malloc (capacity * self.element_size) ≡ some fresh
    → length fresh ≡ capacity * self.element_size
    → set_capacity malloc self capacity ≡ none
unfolding set_capacity block_size move_block int_product
set_capacity-overrun malloc self capacity fresh old keeps less wide small given size =
    let kept : ltb capacity (difference (self.end) (self.begin)) ≡ false = ground arith in
    let fits : ltb (capacity * self.element_size) (2 ^ 31) ≡ true = ground arith in
    let word : capacity * self.element_size % 2 ^ 16 ≡ capacity * self.element_size = omega arith in
    let (bytes, (found, count)) =
      copy_out_total (self.data_array) 0 (self.element_size * self.element_capacity)
        (omega arith) in
    let more : (capacity + 1) * self.element_size ≤ self.element_capacity * self.element_size =
      mul-le-mul_right (self.element_size) (omega arith) in
    let over = copy_in-overrun fresh 0 bytes (omega arith) (omega arith) in
    elim (dec_lt (self.element_size * self.element_capacity) (2 ^ 31)) [
      | yes l ↦ rw (kept, fits, word, given, lt→ltb _ _ l, found, over) refl
      | no l ↦
          (let wide : ltb (self.element_size * self.element_capacity) (2 ^ 31) ≡ false =
              ground (arith, l) in
            rw (kept, fits, word, given, wide) refl)
    ]
