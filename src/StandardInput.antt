-- ===== src/StandardInput.antt =====
-- cjunk/practice/asyncStdin.cc: a thread that reads bytes into a queue, and `main`, which prints what
-- it finds there. Each thread moves by steps that no other step interrupts: what it does between two
-- accesses to shared state, or under the mutex. `pushed` and `printed` record what happened.
pub mod Order
mod Tests
use cpp_examples.Prelude.{
  ℕ, zero, suc, ◌+◌, ◌-◌, ◌%◌, ◌≡◌, Bool, true, false, Option, none, some, List, [], ◌∷◌, ◌++◌,
  if◌then◌else◌,
}
use cpp_examples.Prelude.Int.{ℤ, pos, negsuc}

-- Where `main` is: at its calls of `hasChar` and `popChar`, behind its loop, behind the body of
-- `~StandardInput`, in the destructor of `m_future` (the members `m_condition` and `m_mutex` come
-- after `m_future` in the class, so they are gone by then), and at the end.
pub data MainPlace : Type 0 where
  at_has_char at_pop_char behind_loop stopping at_future finished : MainPlace

-- Where `inputCharTask` is: at the test of `m_running`, in `fread`, before it locks the mutex to
-- push, and at its end.
pub data TaskPlace : Type 0 where
  at_test at_read stopped : TaskPlace
  at_push : ℕ → TaskPlace

-- Undefined behaviour: `front` of an empty queue, and a lock of a destroyed mutex.
pub data Fault : Type 0 where
  empty_queue destroyed_mutex : Fault

pub record State : Type 0 where
  pub running : Bool
  pub queue : List ℕ
  pub main_place : MainPlace
  pub task_place : TaskPlace
  pub pushed : List ℕ
  pub printed : List ℕ
  pub fault : Option Fault

abbrev pub start : State
start = record {
  running = true;
  queue = [];
  main_place = at_has_char;
  task_place = at_test;
  pushed = [];
  printed = [];
  fault = none;
}

-- `c != EOF` and the conversion to `char`, as a byte.
abbrev pub is_eof : ℤ → Bool
is_eof (pos n) = false
is_eof (negsuc zero) = true
is_eof (negsuc (suc n)) = false

abbrev pub low_byte : ℤ → ℕ
low_byte (pos n) = n % 256
low_byte (negsuc n) = 255 - n % 256

-- `hasChar`, and the branch of the loop in `main`.
unfoldable pub has_char : State → State
has_char s = elim (s.queue) [
  | [] ↦ record s { main_place = behind_loop }
  | c ∷ rest ↦ record s { main_place = at_pop_char }
]

-- `popChar`, and the output of the byte.
unfoldable pub pop_char : State → State
pop_char s = elim (s.queue) [
  | [] ↦ record s { fault = some empty_queue }
  | c ∷ rest ↦ record s { queue = rest; printed = s.printed ++ c ∷ []; main_place = at_has_char }
]

-- The destructor of `m_future` waits for the task.
unfoldable pub await_task : State → TaskPlace → State
await_task s stopped = record s { main_place = finished }
await_task s place = s

unfoldable pub main_step : State → MainPlace → State
main_step s at_has_char = has_char s
main_step s at_pop_char = pop_char s
main_step s behind_loop = record s { running = false; main_place = stopping }
main_step s stopping = record s { main_place = at_future }
main_step s at_future = await_task s (s.task_place)
main_step s finished = s

-- The lock and the push of `inputCharTask`.
unfoldable pub push_char : State → ℕ → MainPlace → State
push_char s c at_future = record s { fault = some destroyed_mutex }
push_char s c place = record s {
  queue = s.queue ++ c ∷ [];
  pushed = s.pushed ++ c ∷ [];
  task_place = at_test;
}

-- A step of `inputCharTask`; the number is what `c` holds behind `fread`. The result of `fread` is not
-- tested and three bytes of `c` have no value before it, so it may be any number.
unfoldable pub task_step : ℤ → State → TaskPlace → State
task_step c s at_test =
    if s.running then record s { task_place = at_read } else record s { task_place = stopped }
task_step c s at_read =
    if is_eof c
    then record s { task_place = at_test }
    else record s { task_place = at_push (low_byte c) }
task_step c s (at_push b) = push_char s b (s.main_place)
task_step c s stopped = s

-- The states that interleavings of the two threads reach; undefined behaviour ends a run.
pub data Reaches (origin : State) : State → Type 0 where
  here : Reaches origin origin
  by_main :
      {s : State} → Reaches origin s → s.fault ≡ none → Reaches origin (main_step s (s.main_place))
  by_task :
      {s : State} (c : ℤ)
      → Reaches origin s
      → s.fault ≡ none
      → Reaches origin (task_step c s (s.task_place))
