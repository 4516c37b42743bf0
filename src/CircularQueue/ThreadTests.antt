-- ===== src/CircularQueue/ThreadTests.antt =====
-- Interleavings of two threads on a queue of cjunk/practice/circularqueue.cc with two places.
use cpp_examples.Prelude.{
  ℕ, suc, ◌≤◌, ◌≡◌, refl, true, false, List, [], ◌∷◌, ◌++◌, length, replicate, arith,
}
use cpp_examples.CircularQueue.{make_queue}
use cpp_examples.CircularQueue.Threads.{
  Turn, producer_turn, consumer_turn, exchange, start, store_cell, producer_step, take_cell,
  consumer_step, turn, run,
}
use cpp_examples.CircularQueue.Ordered.{run-ordered}

abbrev push : ℕ → List (Turn ℕ)
push item = replicate 4 (producer_turn item)

abbrev pop : List (Turn ℕ)
pop = replicate 9 consumer_turn

-- The increment of the head falls between the load and the exchange of a pop.
abbrev mixed : List (Turn ℕ)
mixed =
    push 5
    ++ push 6
    ++ replicate 7 consumer_turn
    ++ push 7
    ++ replicate 2 consumer_turn
    ++ replicate 3 consumer_turn

-- A second round after three pops, with an item more than there are places.
abbrev overfilled : List (Turn ℕ)
overfilled = push 5 ++ pop ++ push 6 ++ push 7 ++ push 8 ++ pop

mixed_taken : (run 2 suc mixed (start 2 (0 ∷ 0 ∷ []))).taken ≡ 5 ∷ 6 ∷ []
unfolding run turn producer_step consumer_step store_cell take_cell exchange make_queue
mixed_taken = refl

overfilled_lost : (run 2 suc overfilled (start 2 (0 ∷ 0 ∷ []))).lost ≡ true
unfolding run turn producer_step consumer_step store_cell take_cell exchange make_queue
overfilled_lost = refl

overfilled_taken : (run 2 suc overfilled (start 2 (0 ∷ 0 ∷ []))).taken ≡ 5 ∷ 8 ∷ []
unfolding run turn producer_step consumer_step store_cell take_cell exchange make_queue
overfilled_taken = refl

run-ordered_example :
    (waiting : List ℕ) × ((run 2 suc mixed (start 2 (0 ∷ 0 ∷ []))).written
      ≡ (run 2 suc mixed (start 2 (0 ∷ 0 ∷ []))).taken ++ waiting)
    × (length waiting ≤ 2)
    × ((run 2 suc mixed (start 2 (0 ∷ 0 ∷ []))).fault ≡ false)
unfolding run turn producer_step consumer_step store_cell take_cell exchange make_queue
run-ordered_example = run-ordered 2 suc (0 ∷ 0 ∷ []) mixed (omega arith) refl refl (omega arith)
