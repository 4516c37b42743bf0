-- ===== src/CircularQueue/Invariant.antt =====
-- The state of the queue of cjunk/practice/circularqueue.cc between the steps of its two threads, and the
-- steps of the one that pushes.
use native.Mathlib.Nat.{mod-lt, mod-eq_of_lt}
use cpp_examples.Prelude.{
  ℕ, ◌+◌, ◌%◌, ◌^◌, ◌<◌, ◌≤◌, ◌≡◌, ◌∙◌, refl, ap, sym, Bool, true, false, List, [], ◌∷◌, ◌++◌,
  append_assoc, inl, inr, Bool-cases, arith, length, length-append, length-set, ltb, lt→ltb, ◌==◌,
  if◌then◌else◌,
}
use cpp_examples.CircularQueue.{increment}
use cpp_examples.CircularQueue.Threads.{
  PushPlace, outside, stored, permitted, counted, PopPlace, holding, at_cell, Shared, store_cell,
  producer_step,
}
use cpp_examples.CircularQueue.Positions.{succ-mod, Holds, Holds-store}

-- A store that loses nothing has a free cell.
room_left :
    (used all : ℕ) (before : Bool) → (if ltb used all then before else true) ≡ false → used < all
room_left used all before h = ground arith

module _ {T : Type 0} where
  -- Whether a place is between `m_head++` and the store, and between the store and the release.
  abbrev pub ahead : PushPlace T → ℕ
  ahead (counted x i) = 1
  ahead _ = 0

  abbrev pub unreleased : PushPlace T → ℕ
  unreleased stored = 1
  unreleased _ = 0

  -- Whether a place is between `m_tail++` and the read, and whether it has a permit for a read.
  abbrev pub behind : PopPlace T → ℕ
  behind (at_cell i) = 1
  behind _ = 0

  abbrev pub reading : PopPlace T → ℕ
  reading holding = 1
  reading (at_cell i) = 1
  reading _ = 0

pub more_length : {T : Type 0} (xs : List T) (x : T) → length xs + 1 ≡ length (xs ++ x ∷ [])
more_length xs x = sym (length-append xs (x ∷ []))

pub first : {T : Type 0} (xs : List T) → 0 < length xs → (x : T) × (rest : List T) × (xs ≡ x ∷ rest)
first [] h = absurd (omega arith)
first (x ∷ rest) h = (x, rest, refl)

module _ {T : Type 0} (n : ℕ) where
  abbrev pub PushIndex : PushPlace T → ℕ → Type 0
  PushIndex (counted x i) count = i % n ≡ count % n
  PushIndex _ count = Unit {0}

  abbrev pub PopIndex : PopPlace T → ℕ → Type 0
  PopIndex (at_cell i) count = i % n ≡ count % n
  PopIndex _ count = Unit {0}

  pub record Inv (s : Shared T) : Type 0 where
    pub waiting : List T
    pub order : s.written ≡ s.taken ++ waiting
    pub few : length waiting ≤ n
    pub whole : length (s.queue.cells) ≡ n
    pub held : Holds n (s.queue.cells) (length (s.taken)) waiting
    pub head_place : s.queue.head % n ≡ (length (s.written) + ahead (s.producer)) % n
    pub head_bound : s.queue.head ≤ length (s.written) + ahead (s.producer)
    pub push_index : PushIndex (s.producer) (length (s.written))
    pub tail_place : s.queue.tail % n ≡ (length (s.taken) + behind (s.consumer)) % n
    pub tail_bound : s.queue.tail ≤ length (s.taken) + behind (s.consumer)
    pub pop_index : PopIndex (s.consumer) (length (s.taken))
    pub permits :
        s.queue.sem_empty + reading (s.consumer) + unreleased (s.producer) ≡ length waiting
    pub no_fault : s.fault ≡ false

  acquired-Inv :
      (item : T) (s : Shared T)
      → s.producer ≡ outside
      → Inv s
      → Inv (producer_step n item s outside)
  unfolding producer_step
  acquired-Inv item s e inv = elim (Bool-cases (s.queue.sem_full == 0)) [
    | inl full ↦ rw full inv
    | inr room ↦ rw room (record {
      waiting = inv.waiting;
      order = inv.order;
      few = inv.few;
      whole = inv.whole;
      held = inv.held;
      head_place = rw e at inv.head_place;
      head_bound = rw e at inv.head_bound;
      push_index = tt;
      tail_place = inv.tail_place;
      tail_bound = inv.tail_bound;
      pop_index = inv.pop_index;
      permits = rw e at inv.permits;
      no_fault = inv.no_fault;
    })
  ]

  counted-Inv :
      (item x : T) (s : Shared T)
      → s.producer ≡ permitted x
      → length (s.written) + 1 < 2 ^ 32
      → Inv s
      → Inv (producer_step n item s (permitted x))
  unfolding producer_step
  counted-Inv item x s e small inv =
      let place : s.queue.head % n ≡ (length (s.written) + 0) % n = rw e at inv.head_place in
      let bound : s.queue.head ≤ length (s.written) + 0 = rw e at inv.head_bound in
      let counts : increment (s.queue.head) ≡ s.queue.head + 1 = mod-eq_of_lt (omega arith) in
      record {
        waiting = inv.waiting;
        order = inv.order;
        few = inv.few;
        whole = inv.whole;
        held = inv.held;
        head_place =
            ap (λ h. h % n) counts
            ∙ succ-mod n (s.queue.head) (length (s.written))
                (place ∙ ap (λ w. w % n) (omega arith));
        head_bound = omega arith;
        push_index = place ∙ ap (λ w. w % n) (omega arith);
        tail_place = inv.tail_place;
        tail_bound = inv.tail_bound;
        pop_index = inv.pop_index;
        permits = rw e at inv.permits;
        no_fault = inv.no_fault;
      }

  store_cell-Inv :
      (x : T) (i : ℕ) (s : Shared T)
      → 0 < n
      → s.producer ≡ counted x i
      → (store_cell n s x i).lost ≡ false
      → Inv s
      → Inv (store_cell n s x i)
  unfolding store_cell
  store_cell-Inv x i s positive e kept inv =
      let below = mod-lt i positive in
      let inside : ltb (i % n) (length (s.queue.cells)) ≡ true =
        lt→ltb (i % n) (length (s.queue.cells)) (omega (arith, inv.whole)) in
      let kept_in : (if ltb (length (s.written)) (length (s.taken) + n) then s.lost else true)
          ≡ false =
        rw inside at kept in
      let room = room_left (length (s.written)) (length (s.taken) + n) (s.lost) kept_in in
      let size : length (s.written) ≡ length (s.taken) + length (inv.waiting) =
        ap length (inv.order) ∙ length-append (s.taken) (inv.waiting) in
      let more_written = length-append (s.written) (x ∷ []) in
      let more_waiting = length-append (inv.waiting) (x ∷ []) in
      let index : i % n ≡ length (s.written) % n = rw e at inv.push_index in
      let place : s.queue.head % n ≡ (length (s.written) + 1) % n = rw e at inv.head_place in
      let bound : s.queue.head ≤ length (s.written) + 1 = rw e at inv.head_bound in
      let permits : s.queue.sem_empty + reading (s.consumer) + 0 ≡ length (inv.waiting) =
        rw e at inv.permits in
      rw inside (record {
        waiting = inv.waiting ++ x ∷ [];
        order = ap (λ w. w ++ x ∷ []) (inv.order) ∙ append_assoc (s.taken) (inv.waiting) (x ∷ []);
        few = omega arith;
        whole = length-set (s.queue.cells) (i % n) x ∙ inv.whole;
        held =
            Holds-store n (s.queue.cells) x (inv.waiting) (length (s.taken)) i positive (inv.whole)
              (omega arith) (index ∙ ap (λ m. m % n) size) (inv.held);
        head_place = place ∙ ap (λ m. m % n) (omega arith);
        head_bound = omega arith;
        push_index = tt;
        tail_place = inv.tail_place;
        tail_bound = inv.tail_bound;
        pop_index = inv.pop_index;
        permits = omega arith;
        no_fault = inv.no_fault;
      })

  released-Inv :
      (item : T) (s : Shared T) → s.producer ≡ stored → Inv s → Inv (producer_step n item s stored)
  unfolding producer_step
  released-Inv item s e inv =
      let permits : s.queue.sem_empty + reading (s.consumer) + 1 ≡ length (inv.waiting) =
        rw e at inv.permits in
      record {
        waiting = inv.waiting;
        order = inv.order;
        few = inv.few;
        whole = inv.whole;
        held = inv.held;
        head_place = rw e at inv.head_place;
        head_bound = rw e at inv.head_bound;
        push_index = tt;
        tail_place = inv.tail_place;
        tail_bound = inv.tail_bound;
        pop_index = inv.pop_index;
        permits = omega arith;
        no_fault = inv.no_fault;
      }

  pub producer_step-Inv :
      (item : T) (s : Shared T) (place : PushPlace T)
      → 0 < n
      → s.producer ≡ place
      → length (s.written) + 1 < 2 ^ 32
      → (producer_step n item s place).lost ≡ false
      → Inv s
      → Inv (producer_step n item s place)
  unfolding producer_step
  producer_step-Inv item s outside positive e small kept inv = acquired-Inv item s e inv
  producer_step-Inv item s (permitted x) positive e small kept inv =
      counted-Inv item x s e small inv
  producer_step-Inv item s (counted x i) positive e small kept inv =
      store_cell-Inv x i s positive e kept inv
  producer_step-Inv item s stored positive e small kept inv = released-Inv item s e inv
