-- ===== src/Fifo.antt =====
-- `DeclareFifo(T, N)` of cjunk/ringBuffer.h: a ring of `N` cells that holds at most `N - 1` values.
-- An access behind the end of `data` and a sum that `int` does not hold are undefined behaviour
-- there, and `none` here. The other sums are of an index and 1, which `int` holds below `N`.
pub mod Ring
pub mod Refines
mod Tests
use cpp_examples.Prelude.{
  ℕ, ◌+◌, ◌-◌, ◌*◌, ◌%◌, ◌^◌, Bool, true, false, Option, none, some, List, [], ◌∷◌, ◌++◌, length,
  get_elem?, ◌>>=◌, set, ltb, leb, ◌==◌, if◌then◌else◌,
}

pub data Status : Type 0 where
  success failure : Status

pub record Fifo (T : Type 0) : Type 0 where
  pub head : ℕ
  pub tail : ℕ
  pub cells : List T

-- `(head - tail) % n` on `int`, and `+ n`. The remainder of a negative number is the remainder of
-- its absolute value with the sign changed.
unfoldable pub distance_value : ℕ → ℕ → ℕ → ℕ
distance_value n head tail = if leb tail head then (head - tail) % n + n else n - (tail - head) % n

-- A sum that `int` does not hold is undefined behaviour.
unfoldable pub distance : ℕ → ℕ → ℕ → Option ℕ
distance n head tail =
    let value = distance_value n head tail in if ltb value (2 ^ 31) then some value else none

module _ {T : Type 0} (n : ℕ) where
  -- `T##Fifo_init` sets the two indices and leaves the cells as they are.
  unfoldable pub init : Fifo T → Fifo T
  init fifo = record { head = 0; tail = 0; cells = fifo.cells }

  unfoldable pub is_empty : Fifo T → Bool
  is_empty fifo = fifo.head == fifo.tail

  unfoldable pub size : Fifo T → Option ℕ
  size fifo = do value ← distance n (fifo.head) (fifo.tail); some (value % n)

  -- `fifo->data[fifo->head] = data; fifo->head = (fifo->head + 1) % n;`
  unfoldable pub store : Fifo T → T → Option (Status × Fifo T)
  store fifo x =
      if ltb (fifo.head) (length (fifo.cells))
      then some (
        success,
        record {
          head = (fifo.head + 1) % n;
          tail = fifo.tail;
          cells = set (fifo.cells) (fifo.head) x;
        },
      )
      else none

  unfoldable pub push : Fifo T → T → Option (Status × Fifo T)
  push fifo x = do
    count ← size fifo
    if leb n (count + 1) then some (failure, fifo) else store fifo x

  -- The status, `*output` where it was written, and the ring.
  unfoldable pub load : Fifo T → Option (Status × Option T × Fifo T)
  load fifo = elim (get_elem? (fifo.cells) (fifo.tail)) [
    | none ↦ none
    | some x ↦ some (
      success,
      some x,
      record { head = fifo.head; tail = (fifo.tail + 1) % n; cells = fifo.cells },
    )
  ]

  unfoldable pub pop : Fifo T → Option (Status × Option T × Fifo T)
  pop fifo = if is_empty fifo then some (failure, none, fifo) else load fifo

-- A client's calls, and what they return.
pub data Call (T : Type 0) : Type 0 where
  push_call : T → Call T
  pop_call size_call is_empty_call : Call T

pub data Answer (T : Type 0) : Type 0 where
  pushed : Status → Answer T
  popped : Status → Option T → Answer T
  sized : ℕ → Answer T
  tested : Bool → Answer T

-- One call on the ring.
unfoldable pub call_ring : {T : Type 0} → ℕ → Fifo T → Call T → Option (Answer T × Fifo T)
call_ring n fifo (push_call x) = do (status, after) ← push n fifo x; some (pushed status, after)
call_ring n fifo pop_call = do
  (status, output, after) ← pop n fifo
  some (popped status output, after)
call_ring n fifo size_call = do count ← size n fifo; some (sized count, fifo)
call_ring n fifo is_empty_call = some (tested (is_empty n fifo), fifo)

-- Calls in a row.
unfoldable pub run_ring : {T : Type 0} → ℕ → Fifo T → List (Call T) → Option (List (Answer T))
run_ring n fifo [] = some []
run_ring n fifo (c ∷ cs) = do
  (answer, after) ← call_ring n fifo c
  answers ← run_ring n after cs
  some (answer ∷ answers)
