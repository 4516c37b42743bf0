-- ===== src/CircularQueue.antt =====
-- `CircularQueue` of cjunk/practice/circularqueue.cc as one thread sees it: a call runs to its end, or
-- blocks, or is undefined behaviour, as a release is of a semaphore at its largest count. The counters
-- are `unsigned`. What `m_sem_full.post()` makes of a count is the parameter `post`, as
-- `std::counting_semaphore` has no such member.
pub mod Rounds
pub mod Threads
pub mod Positions
pub mod Invariant
pub mod Pops
pub mod Ordered
mod Tests
mod ThreadTests
use cpp_examples.Prelude.{
  ℕ, zero, suc, ◌+◌, ◌-◌, ◌%◌, ◌^◌, Bool, true, false, ◌&&◌, Option, none, some, List, [], ◌∷◌,
  ◌++◌, length, get_elem?, set, ltb, ◌==◌, if◌then◌else◌,
}

pub record Queue (T : Type 0) : Type 0 where
  pub head : ℕ
  pub tail : ℕ
  pub cells : List T
  pub sem_empty : ℕ
  pub sem_full : ℕ

pub data Outcome (A : Type 0) : Type 0 where
  returned : A → Outcome A
  blocked fault : Outcome A

abbrev pub bind : {A B : Type 0} → Outcome A → (A → Outcome B) → Outcome B
bind (returned a) f = f a
bind blocked f = blocked
bind fault f = fault

infixl 1 ◌>>=◌
abbrev pub ◌>>=◌ : {A B : Type 0} → Outcome A → (A → Outcome B) → Outcome B
o >>= f = bind o f

abbrev pub or_fault : {A : Type 0} → Option A → Outcome A
or_fault none = fault
or_fault (some a) = returned a

-- `counter++`
abbrev pub increment : ℕ → ℕ
increment counter = (counter + 1) % 2 ^ 32

module _ {T : Type 0} (n : ℕ) where
  -- The constructor, on cells that have no value yet.
  unfoldable pub make_queue : List T → Queue T
  make_queue cells = record { head = 0; tail = 0; cells = cells; sem_empty = 0; sem_full = n }

-- `limit` is the largest count of both semaphores.
module _ {T : Type 0} (n limit : ℕ) where
  -- What `try_push` and `push` do with a permit.
  unfoldable pub insert : Queue T → T → Outcome (Queue T)
  insert self item =
      if ltb (self.head % n) (length (self.cells)) && ltb (self.sem_empty) limit
      then returned (record self {
        head = increment (self.head);
        cells = set (self.cells) (self.head % n) item;
        sem_empty = self.sem_empty + 1;
        sem_full = self.sem_full - 1;
      })
      else fault

  unfoldable pub try_push : Queue T → T → Outcome (Bool × Queue T)
  try_push self item =
      if self.sem_full == 0
      then returned (false, self)
      else (do after ← insert self item; returned (true, after))

  unfoldable pub push : Queue T → T → Outcome (Queue T)
  push self item = if self.sem_full == 0 then blocked else insert self item

  -- `pop` with a permit: the two exchanges succeed, as no other thread runs.
  unfoldable pub remove : (ℕ → ℕ) → Queue T → Outcome (T × Queue T)
  remove post self = do
    item ← or_fault (get_elem? (self.cells) (self.tail % n))
    if ltb (self.sem_full) limit
        then returned (
          item,
          record self {
            tail = increment (self.tail) % n;
            head = self.head % n;
            sem_empty = self.sem_empty - 1;
            sem_full = post (self.sem_full + 1);
          },
        )
        else fault

  unfoldable pub pop : (ℕ → ℕ) → Queue T → Outcome (T × Queue T)
  pop post self = if self.sem_empty == 0 then blocked else remove post self

  -- `try_push` of each item: the queue, where every call returned true.
  unfoldable pub try_push_all : Queue T → List T → Outcome (Bool × Queue T)
  try_push_all self [] = returned (true, self)
  try_push_all self (x ∷ xs) = do
    (accepted, after) ← try_push self x
    (all_accepted, last) ← try_push_all after xs
    returned ((if accepted then all_accepted else false), last)

  -- A number of pops, with their items.
  unfoldable pub pop_all : (ℕ → ℕ) → ℕ → Queue T → Outcome (List T × Queue T)
  pop_all post zero self = returned ([], self)
  pop_all post (suc count) self = do
    (item, after) ← pop post self
    (items, last) ← pop_all post count after
    returned (item ∷ items, last)
