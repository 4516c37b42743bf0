-- ===== src/PracticeQueue/Tests.antt =====
-- Runs of the queue of cjunk/practice/queue.h.
use cpp_examples.Prelude.{
  ℕ, ◌+◌, ◌^◌, ◌-◌, ◌≡◌, refl, true, false, Option, none, some, List, [], ◌∷◌, arith, length, ltb,
  set, get_elem?, replicate, if◌then◌else◌, ◌>>=◌,
}
use cpp_examples.Memory.{copy_in, copy_out}
use cpp_examples.Fifo.Ring.{slot}
use cpp_examples.PracticeQueue.{
  Queue, initialize, append_element, enqueue, take_element, dequeue, is_empty, get_size, get_data,
  set_data, int_product, Call, enqueue_call, dequeue_call, is_empty_call, is_full_call, done,
  dequeued, tested, call_queue, run_queue,
}
use cpp_examples.PracticeQueue.Drops.{Represents}
use cpp_examples.PracticeQueue.Runs.{run_list, run_queue-initialize}
use cpp_examples.PracticeQueue.Wrapped.{pointed, element_of, get_size-get_data}
use cpp_examples.PracticeQueue.Written.{set_data-Represents}
use cpp_examples.PracticeQueue.Growth.{set_capacity-Represents}
use cpp_examples.PracticeQueue.Resize.{set_capacity, set_capacity-overrun}

abbrev block : List ℕ
block = replicate 6 0

-- Three elements are enqueued into a queue with a capacity of three.
abbrev three_calls : List Call
three_calls =
    enqueue_call (1 ∷ 2 ∷ [])
    ∷ enqueue_call (3 ∷ 4 ∷ [])
    ∷ dequeue_call
    ∷ enqueue_call (5 ∷ 6 ∷ [])
    ∷ enqueue_call (7 ∷ 8 ∷ [])
    ∷ is_full_call
    ∷ is_empty_call
    ∷ dequeue_call
    ∷ []

three_calls_answers :
    run_queue (initialize block 2 3) three_calls
    ≡ some (
        done
        ∷ done
        ∷ dequeued (some (1 ∷ 2 ∷ []))
        ∷ done
        ∷ done
        ∷ tested false
        ∷ tested true
        ∷ dequeued none
        ∷ [])
unfolding run_queue call_queue enqueue append_element dequeue take_element is_empty copy_in copy_out
    int_product
three_calls_answers = refl

run_queue-initialize_example :
    run_queue (initialize block 2 3) three_calls ≡ some (run_list 3 [] three_calls)
run_queue-initialize_example =
    run_queue-initialize 3 2 block three_calls (omega arith) (omega arith) (omega arith)
      (omega arith) (refl, (refl, (refl, (refl, tt))))

-- Two elements, the second one behind the end of the block.
abbrev wrapped : Queue
wrapped = record {
  begin = 2;
  end = 1;
  data_array = 7 ∷ 8 ∷ 0 ∷ 0 ∷ 5 ∷ 6 ∷ [];
  element_size = 2;
  element_capacity = 3;
  is_full = false;
}

abbrev two_elements : List (List ℕ)
two_elements = (5 ∷ 6 ∷ []) ∷ (7 ∷ 8 ∷ []) ∷ []

wrapped-Represents : Represents 3 2 wrapped two_elements
unfolding slot copy_out
wrapped-Represents = record {
  same_capacity = refl;
  same_size = refl;
  never_full = refl;
  block = omega arith;
  few = omega arith;
  int_block = omega arith;
  room = omega arith;
  begin_bound = omega arith;
  end_place = refl;
  held = (refl, (refl, tt));
}

get_size-get_data_example :
    (get_size wrapped ≡ (if ltb (2 + length two_elements) 3 then 2 else 2 ^ 16 - 3 + 2))
    × ((get_data wrapped 1 >>= pointed (wrapped.data_array) 2) ≡ (
        if ltb (2 + length two_elements) 3
        then element_of (get_elem? two_elements 1)
        else some none))
get_size-get_data_example =
    get_size-get_data 3 2 wrapped two_elements wrapped-Represents 1 (omega arith)

abbrev zeros : ℕ → Option (List ℕ)
zeros count = some (replicate count 0)

set_capacity-overrun_example : set_capacity zeros (initialize block 2 3) 2 ≡ none
set_capacity-overrun_example =
    set_capacity-overrun zeros (initialize block 2 3) 2 (replicate 4 0) (omega arith) (omega arith)
      (omega arith) (omega arith) (omega arith) refl refl

-- A queue that has not wrapped gets a larger capacity.
abbrev straight : Queue
straight = record wrapped { begin = 0; end = 2; data_array = 5 ∷ 6 ∷ 7 ∷ 8 ∷ 0 ∷ 0 ∷ [] }

straight-Represents : Represents 3 2 straight two_elements
unfolding slot copy_out
straight-Represents = record {
  same_capacity = refl;
  same_size = refl;
  never_full = refl;
  block = omega arith;
  few = omega arith;
  int_block = omega arith;
  room = omega arith;
  begin_bound = omega arith;
  end_place = refl;
  held = (refl, (refl, tt));
}

set_capacity-Represents_example :
    (after : Queue) × (set_capacity zeros straight 4 ≡ some after)
    × Represents (if ltb (0 + length two_elements) 3 then 4 else 3) 2 after two_elements
set_capacity-Represents_example =
    set_capacity-Represents zeros 3 2 4 straight two_elements straight-Represents (omega arith)
      (omega arith) (omega arith) (replicate 8 0) refl refl

set_data-Represents_example :
    (after : Queue) × (set_data straight 1 (9 ∷ 9 ∷ []) ≡ some after)
    × Represents 3 2 after
        (if ltb (0 + length two_elements) 3 then set two_elements 1 (9 ∷ 9 ∷ []) else two_elements)
set_data-Represents_example =
    set_data-Represents 3 2 straight two_elements straight-Represents 1 (9 ∷ 9 ∷ []) (omega arith)
      refl
