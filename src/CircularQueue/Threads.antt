-- ===== src/CircularQueue/Threads.antt =====
-- One thread that pushes and one that pops on the queue of cjunk/practice/circularqueue.cc: each step is
-- one operation on a semaphore or on an atomic, or one access to a cell. `post` is what
-- `m_sem_full.post()` makes of a count.
use cpp_examples.Prelude.{
  ℕ, ◌+◌, ◌-◌, ◌%◌, Bool, true, false, Option, none, some, List, [], ◌∷◌, ◌++◌, length, get_elem?,
  set, ltb, ◌==◌, if◌then◌else◌,
}
use cpp_examples.CircularQueue.{Queue, increment, make_queue}

-- Where a call of `push` or `try_push` stands, with its item and what `m_head++` gave.
pub data PushPlace (T : Type 0) : Type 0 where
  outside stored : PushPlace T
  permitted : T → PushPlace T
  counted : T → ℕ → PushPlace T

-- Where a call of `pop` stands: with what `m_tail++` gave, then with the item, and with `expected`.
pub data PopPlace (T : Type 0) : Type 0 where
  away holding : PopPlace T
  at_cell : ℕ → PopPlace T
  at_release at_tail at_head at_post : T → PopPlace T
  tail_seen head_seen : T → ℕ → PopPlace T

-- The queue and the threads, the items that were stored and those that were read so far. `lost` is set
-- by a store while n items wait, and `fault` by an access out of bounds.
pub record Shared (T : Type 0) : Type 0 where
  pub queue : Queue T
  pub producer : PushPlace T
  pub consumer : PopPlace T
  pub written : List T
  pub taken : List T
  pub lost : Bool
  pub fault : Bool

-- `compare_exchange_strong(expected, desired)` with `desired = expected % n`.
unfoldable pub exchange : ℕ → ℕ → ℕ → ℕ
exchange n value expected = if value == expected then expected % n else value

module _ {T : Type 0} (n : ℕ) where
  abbrev pub start : List T → Shared T
  start cells = record {
    queue = make_queue n cells;
    producer = outside;
    consumer = away;
    written = [];
    taken = [];
    lost = false;
    fault = false;
  }

  -- `m_data[…] = item`
  unfoldable pub store_cell : Shared T → T → ℕ → Shared T
  store_cell s item i =
      let q = s.queue in
      if ltb (i % n) (length (q.cells))
      then record s {
        queue = record q { cells = set (q.cells) (i % n) item };
        producer = stored;
        written = s.written ++ item ∷ [];
        lost = if ltb (length (s.written)) (length (s.taken) + n) then s.lost else true;
      }
      else record s { fault = true }

  -- A thread without a permit stays where it is; `try_push` returns false there.
  unfoldable pub producer_step : T → Shared T → PushPlace T → Shared T
  producer_step item s outside =
      let q = s.queue in
      if q.sem_full == 0
      then s
      else record s { queue = record q { sem_full = q.sem_full - 1 }; producer = permitted item }
  producer_step item s (permitted x) =
      let q = s.queue in
      record s { queue = record q { head = increment (q.head) }; producer = counted x (q.head) }
  producer_step item s (counted x i) = store_cell s x i
  producer_step item s stored =
      let q = s.queue in
      record s { queue = record q { sem_empty = q.sem_empty + 1 }; producer = outside }

  -- `item = m_data[…]`
  unfoldable pub take_cell : Shared T → Option T → Shared T
  take_cell s none = record s { fault = true }
  take_cell s (some x) = record s { consumer = at_release x; taken = s.taken ++ x ∷ [] }

  unfoldable pub consumer_step : (ℕ → ℕ) → Shared T → PopPlace T → Shared T
  consumer_step post s away =
      let q = s.queue in
      if q.sem_empty == 0
      then s
      else record s { queue = record q { sem_empty = q.sem_empty - 1 }; consumer = holding }
  consumer_step post s holding =
      let q = s.queue in
      record s { queue = record q { tail = increment (q.tail) }; consumer = at_cell (q.tail) }
  consumer_step post s (at_cell i) = take_cell s (get_elem? (s.queue.cells) (i % n))
  consumer_step post s (at_release x) =
      let q = s.queue in
      record s { queue = record q { sem_full = q.sem_full + 1 }; consumer = at_tail x }
  consumer_step post s (at_tail x) = record s { consumer = tail_seen x (s.queue.tail) }
  consumer_step post s (tail_seen x e) =
      let q = s.queue in
      record s { queue = record q { tail = exchange n (q.tail) e }; consumer = at_head x }
  consumer_step post s (at_head x) = record s { consumer = head_seen x (s.queue.head) }
  consumer_step post s (head_seen x e) =
      let q = s.queue in
      record s { queue = record q { head = exchange n (q.head) e }; consumer = at_post x }
  consumer_step post s (at_post x) =
      let q = s.queue in
      record s { queue = record q { sem_full = post (q.sem_full) }; consumer = away }

-- A turn of the producer, with the item of its next call, or of the consumer.
pub data Turn (T : Type 0) : Type 0 where
  producer_turn : T → Turn T
  consumer_turn : Turn T

module _ {T : Type 0} (n : ℕ) (post : ℕ → ℕ) where
  unfoldable pub turn : Turn T → Shared T → Shared T
  turn (producer_turn item) s = producer_step n item s (s.producer)
  turn consumer_turn s = consumer_step n post s (s.consumer)

  unfoldable pub run : List (Turn T) → Shared T → Shared T
  run [] s = s
  run (t ∷ turns) s = run turns (turn t s)
