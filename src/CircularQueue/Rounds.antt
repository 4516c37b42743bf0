-- ===== src/CircularQueue/Rounds.antt =====
-- One thread that fills the queue of cjunk/practice/circularqueue.cc and empties it.
use cpp_examples.Prelude.{ℕ, ◌≤◌, Bool, true, List, ◌++◌, length}
use cpp_examples.CircularQueue.{Queue, Outcome, returned}

module _ {T : Type 0} (n limit : ℕ) (enough : n ≤ limit) where
  -- A queue that holds the items from its first cell on, with other values behind them.
  abbrev holding : List T → List T → Queue T
  holding items old = record {
    head = length items;
    tail = 0;
    cells = items ++ old;
    sem_empty = length items;
    sem_full = length old;
  }

  abbrev accepted : Queue T → Outcome (Bool × Queue T)
  accepted q = returned (true, q)
