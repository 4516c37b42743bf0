-- ===== src/PracticeQueue.antt =====
-- cjunk/practice/queue.h: a queue of elements of `elementSize` bytes over a block that the caller
-- gives. Indices are `uint16_t`; a division by a capacity of zero, a product of two of them that `int`
-- does not hold and an access outside of the block are undefined behaviour, here `none`.
mod Growth
pub mod Drops
pub mod Runs
pub mod Wrapped
pub mod Resize
pub mod Written
mod Tests
use cpp_examples.Prelude.{
  ℕ, zero, suc, ◌+◌, ◌-◌, ◌*◌, ◌%◌, ◌^◌, Bool, true, false, ◌||◌, Option, none, some, List, [], ◌∷◌,
  length, ltb, leb, ◌==◌, if◌then◌else◌, ◌>>=◌,
}
use cpp_examples.Memory.{copy_in, copy_out}

-- `struct Queue`: the fields that `private_queueInitialize` sets, with the block that `pDataArray`
-- points to.
pub record Queue : Type 0 where
  pub begin : ℕ
  pub end : ℕ
  pub data_array : List ℕ
  pub element_size : ℕ
  pub element_capacity : ℕ
  pub is_full : Bool

-- The difference of two indices as a `uint16_t`.
abbrev pub difference : ℕ → ℕ → ℕ
difference a b = (a + 2 ^ 16 - b) % 2 ^ 16

abbrev pub remainder : ℕ → ℕ → Option ℕ
remainder a b = if b == 0 then none else some (a % b)

-- A product of two `uint16_t`, or of an `int` and one, is an `int`.
unfoldable pub int_product : ℕ → ℕ → Option ℕ
int_product a b = if ltb (a * b) (2 ^ 31) then some (a * b) else none

abbrev pub initialize : List ℕ → ℕ → ℕ → Queue
initialize memory size capacity = record {
  begin = 0;
  end = 0;
  data_array = memory;
  element_size = size;
  element_capacity = capacity;
  is_full = false;
}

-- `private_queueEnqueue` behind its two guards.
unfoldable pub append_element : Queue → List ℕ → Option Queue
append_element self element = do
  next ← remainder (self.end + 1) (self.element_capacity)
  offset ← int_product (self.end) (self.element_size)
  memory ← copy_in (self.data_array) offset element
  some record {
    begin = self.begin;
    end = next;
    data_array = memory;
    element_size = self.element_size;
    element_capacity = self.element_capacity;
    is_full = self.is_full;
  }

abbrev pub set_full : Queue → Bool → Queue
set_full self flag = record {
  begin = self.begin;
  end = self.end;
  data_array = self.data_array;
  element_size = self.element_size;
  element_capacity = self.element_capacity;
  is_full = flag;
}

-- `private_queueEnqueue`; the element is the `elementSize` bytes at `pData`.
unfoldable pub enqueue : Queue → List ℕ → Option Queue
enqueue self element = if self.is_full then some self else do
  end_index ← remainder (self.begin + self.end) (self.element_capacity)
  if difference (self.element_capacity) end_index == 0
      then some (set_full self true)
      else append_element self element

-- `private_queueDequeue` behind its two guards.
unfoldable pub take_element : Queue → Option (Option (List ℕ) × Queue)
take_element self = do
  next ← remainder (self.begin + 1) (self.element_capacity)
  offset ← int_product (self.begin) (self.element_size)
  element ← copy_out (self.data_array) offset (self.element_size)
  some (
    some element,
    record {
      begin = next;
      end = self.end;
      data_array = self.data_array;
      element_size = self.element_size;
      element_capacity = self.element_capacity;
      is_full = self.is_full;
    },
  )

-- `private_queueDequeue`: the bytes written to `pData`, if any, and the queue.
unfoldable pub dequeue : Queue → Option (Option (List ℕ) × Queue)
dequeue self =
    if self.begin == self.end
    then some (none, self)
    else if difference (self.end) (self.begin) == 0
    then some (none, set_full self false)
    else take_element self

unfoldable pub clear : Queue → Queue
clear self = record {
  begin = 0;
  end = 0;
  data_array = self.data_array;
  element_size = self.element_size;
  element_capacity = self.element_capacity;
  is_full = false;
}

unfoldable pub is_empty : Queue → Bool
is_empty self = self.begin == self.end

unfoldable pub get_size : Queue → ℕ
get_size self = difference (self.end) (self.begin)

-- `private_queueGetData`: the offset in the block that it returns the address of, or `some none` for
-- `NULL`. The
-- bound is the difference of the indices as an `int`, so a negative one refuses every index.
unfoldable pub get_data : Queue → ℕ → Option (Option ℕ)
get_data self index =
    if ltb (self.end) (self.begin) || leb (self.end - self.begin) index
    then some none
    else (do offset ← int_product (self.begin + index) (self.element_size); some (some offset))

-- `private_queueSetData`, under the same bound.
unfoldable pub set_data : Queue → ℕ → List ℕ → Option Queue
set_data self index element = elim (get_data self index) [
  | none ↦ none
  | some none ↦ some self
  | some (some offset) ↦ do
    memory ← copy_in (self.data_array) offset element
    some record {
      begin = self.begin;
      end = self.end;
      data_array = memory;
      element_size = self.element_size;
      element_capacity = self.element_capacity;
      is_full = self.is_full;
    }
]

-- A client's calls of enqueue, dequeue, clear, isEmpty and isFull, and what they return.
pub data Call : Type 0 where
  enqueue_call : List ℕ → Call
  dequeue_call clear_call is_empty_call is_full_call : Call

pub data Answer : Type 0 where
  done : Answer
  dequeued : Option (List ℕ) → Answer
  tested : Bool → Answer

unfoldable pub call_queue : Queue → Call → Option (Answer × Queue)
call_queue self (enqueue_call element) = do after ← enqueue self element; some (done, after)
call_queue self dequeue_call = do (output, after) ← dequeue self; some (dequeued output, after)
call_queue self clear_call = some (done, clear self)
call_queue self is_empty_call = some (tested (is_empty self), self)
call_queue self is_full_call = some (tested (self.is_full), self)

unfoldable pub run_queue : Queue → List Call → Option (List Answer)
run_queue self [] = some []
run_queue self (c ∷ cs) = do
  (answer, after) ← call_queue self c
  answers ← run_queue after cs
  some (answer ∷ answers)
