-- ===== src/CircularQueue/Ordered.antt =====
-- Whatever the interleaving of the two threads on the queue of cjunk/practice/circularqueue.cc is, the
-- items come out in their order, as long as the queue is not overfilled.
use cpp_examples.Prelude.{
  ℕ, ◌+◌, ◌%◌, ◌^◌, ◌<◌, ◌≤◌, ◌≡◌, refl, Bool, true, false, List, [], ◌∷◌, ◌++◌, inl, inr,
  Bool-cases, Option-cases, arith, length, length-append, get_elem?, ltb, ◌==◌, if◌then◌else◌,
}
use cpp_examples.CircularQueue.{make_queue}
use cpp_examples.CircularQueue.Threads.{
  PushPlace, outside, stored, permitted, counted, PopPlace, away, holding, at_cell, at_release,
  at_tail, at_head, at_post, tail_seen, head_seen, Shared, start, store_cell, producer_step,
  take_cell, consumer_step, Turn, producer_turn, consumer_turn, turn, run,
}
use cpp_examples.CircularQueue.Invariant.{Inv, producer_step-Inv}
use cpp_examples.CircularQueue.Pops.{consumer_step-Inv}

always_lost : (b : Bool) → (if b then true else true) ≡ true
always_lost true = refl
always_lost false = refl

module _ {T : Type 0} (n : ℕ) (post : ℕ → ℕ) where
  -- What was lost stays lost, and what was written stays written.
  abbrev Grows : Shared T → Shared T → Type 0
  Grows s t = (s.lost ≡ true → t.lost ≡ true) × (length (s.written) ≤ length (t.written))

  store_cell-Grows : (s : Shared T) (x : T) (i : ℕ) → Grows s (store_cell n s x i)
  unfolding store_cell
  store_cell-Grows s x i =
      let more = length-append (s.written) (x ∷ []) in
      elim (Bool-cases (ltb (i % n) (length (s.queue.cells)))) [
        | inr out ↦ rw out ((λ h. h), omega arith)
        | inl inside ↦ rw inside ((λ h. rw h (always_lost _)), omega arith)
      ]

  producer_step-Grows :
      (item : T) (s : Shared T) (place : PushPlace T) → Grows s (producer_step n item s place)
  unfolding producer_step
  producer_step-Grows item s outside = elim (Bool-cases (s.queue.sem_full == 0)) [
    | inl full ↦ rw full ((λ h. h), omega arith)
    | inr room ↦ rw room ((λ h. h), omega arith)
  ]
  producer_step-Grows item s (permitted x) = ((λ h. h), omega arith)
  producer_step-Grows item s (counted x i) = store_cell-Grows s x i
  producer_step-Grows item s stored = ((λ h. h), omega arith)

  consumer_step-Grows : (s : Shared T) (place : PopPlace T) → Grows s (consumer_step n post s place)
  unfolding consumer_step take_cell
  consumer_step-Grows s away = elim (Bool-cases (s.queue.sem_empty == 0)) [
    | inl none_left ↦ rw none_left ((λ h. h), omega arith)
    | inr some_left ↦ rw some_left ((λ h. h), omega arith)
  ]
  consumer_step-Grows s (at_cell i) = elim (Option-cases (get_elem? (s.queue.cells) (i % n))) [
    | inl out ↦ rw out ((λ h. h), omega arith)
    | inr (x, there) ↦ rw there ((λ h. h), omega arith)
  ]
  consumer_step-Grows s holding = ((λ h. h), omega arith)
  consumer_step-Grows s (at_release x) = ((λ h. h), omega arith)
  consumer_step-Grows s (at_tail x) = ((λ h. h), omega arith)
  consumer_step-Grows s (tail_seen x expected) = ((λ h. h), omega arith)
  consumer_step-Grows s (at_head x) = ((λ h. h), omega arith)
  consumer_step-Grows s (head_seen x expected) = ((λ h. h), omega arith)
  consumer_step-Grows s (at_post x) = ((λ h. h), omega arith)

  turn-Grows : (t : Turn T) (s : Shared T) → Grows s (turn n post t s)
  unfolding turn
  turn-Grows (producer_turn item) s = producer_step-Grows item s (s.producer)
  turn-Grows consumer_turn s = consumer_step-Grows s (s.consumer)

  run-Grows : (turns : List (Turn T)) (s : Shared T) → Grows s (run n post turns s)
  unfolding run
  run-Grows [] s = ((λ h. h), omega arith)
  run-Grows (t ∷ turns) s =
      let (kept, most) = turn-Grows t s in
      let (kept_on, more) = run-Grows turns (turn n post t s) in
      ((λ h. kept_on (kept h)), omega arith)

  turn-Inv :
      (t : Turn T) (s : Shared T)
      → 0 < n
      → length (s.written) + 1 < 2 ^ 32
      → (turn n post t s).lost ≡ false
      → Inv n s
      → Inv n (turn n post t s)
  unfolding turn
  turn-Inv (producer_turn item) s positive small kept inv =
      producer_step-Inv n item s (s.producer) positive refl small kept inv
  turn-Inv consumer_turn s positive small kept inv =
      consumer_step-Inv n post s (s.consumer) refl small inv

  run-Inv :
      (turns : List (Turn T)) (s : Shared T)
      → 0 < n
      → length ((run n post turns s).written) + 1 < 2 ^ 32
      → (run n post turns s).lost ≡ false
      → Inv n s
      → Inv n (run n post turns s)
  unfolding run
  run-Inv [] s positive small kept inv = inv
  run-Inv (t ∷ turns) s positive small kept inv =
      let (lost_on, most) = turn-Grows t s in
      let (lost_later, more) = run-Grows turns (turn n post t s) in
      let kept_now : (turn n post t s).lost ≡ false = elim (Bool-cases ((turn n post t s).lost)) [
        | inl lost ↦ (let later = lost_later lost in absurd cc)
        | inr none_lost ↦ none_lost
      ] in
      run-Inv turns (turn n post t s) positive small kept
        (turn-Inv t s positive (omega arith) kept_now inv)

  start-Inv : (cells : List T) → 0 < n → length cells ≡ n → Inv n (start n cells)
  unfolding make_queue
  start-Inv cells positive size = record {
    waiting = [];
    order = refl;
    few = omega arith;
    whole = size;
    held = tt;
    head_place = refl;
    head_bound = omega arith;
    push_index = tt;
    tail_place = refl;
    tail_bound = omega arith;
    pop_index = tt;
    permits = omega arith;
    no_fault = refl;
  }

  -- For one thread that pushes and one that pops, whatever post() does, and every interleaving of their steps after which no
  -- item was stored while n others waited and fewer than 2 ^ 32 - 1 were stored: the items that were
  -- read are the first ones that were stored, in order, at most n wait, and no access was out of bounds.
  pub run-ordered :
      (cells : List T) (turns : List (Turn T))
      → 0 < n
      → length cells ≡ n
      → (run n post turns (start n cells)).lost ≡ false
      → length ((run n post turns (start n cells)).written) + 1 < 2 ^ 32
      → (waiting : List T) × ((run n post turns (start n cells)).written
          ≡ (run n post turns (start n cells)).taken ++ waiting)
        × (length waiting ≤ n)
        × ((run n post turns (start n cells)).fault ≡ false)
  run-ordered cells turns positive size kept small =
      let inv = run-Inv turns (start n cells) positive small kept (start-Inv cells positive size) in
      (inv.waiting, inv.order, inv.few, inv.no_fault)
