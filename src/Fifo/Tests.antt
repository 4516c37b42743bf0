-- ===== src/Fifo/Tests.antt =====
-- The calls of `test_fifo` in cjunk/ringBuffer.h, on `DeclareFifo(int, 3)`.
use cpp_examples.Prelude.{ℕ, ◌≡◌, refl, none, some, List, [], ◌∷◌, arith}
use cpp_examples.Fifo.{
  Fifo, success, failure, distance, distance_value, init, is_empty, size, store, push, load, pop,
  Call, push_call, pop_call, size_call, Answer, pushed, popped, sized, call_ring, run_ring,
}
use cpp_examples.Fifo.Refines.{run_queue, run_ring-init}

-- What stands in the memory before `init`.
abbrev tx : Fifo ℕ
tx = record { head = 7; tail = 2; cells = 11 ∷ 12 ∷ 13 ∷ [] }

abbrev test_fifo : List (Call ℕ)
test_fifo =
    push_call 100
    ∷ size_call
    ∷ pop_call
    ∷ size_call
    ∷ push_call 101
    ∷ push_call 102
    ∷ size_call
    ∷ push_call 103
    ∷ size_call
    ∷ pop_call
    ∷ pop_call
    ∷ pop_call
    ∷ []

abbrev answers : List (Answer ℕ)
answers =
    pushed success
    ∷ sized 1
    ∷ popped success (some 100)
    ∷ sized 0
    ∷ pushed success
    ∷ pushed success
    ∷ sized 2
    ∷ pushed failure
    ∷ sized 2
    ∷ popped success (some 101)
    ∷ popped success (some 102)
    ∷ popped failure none
    ∷ []

answers_as_written : run_ring 3 (init 3 tx) test_fifo ≡ some answers
unfolding run_ring call_ring init push pop size is_empty store load distance distance_value
answers_as_written = refl

run_ring-init_example : run_ring 3 (init 3 tx) test_fifo ≡ some (run_queue 3 [] test_fifo)
run_ring-init_example = run_ring-init 3 tx test_fifo (omega arith) (omega arith) refl

-- A full ring of 2 ^ 30 + 2 cells: the size is out of the range of `int`.
abbrev large : ℕ
large = 1073741826

size_overflows : size {T = ℕ} large (record { head = 1073741825; tail = 0; cells = [] }) ≡ none
unfolding size distance distance_value
size_overflows = refl
