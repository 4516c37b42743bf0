-- ===== src/CircularQueue/Pops.antt =====
-- The steps of the thread that pops from the queue of cjunk/practice/circularqueue.cc.
use native.Mathlib.Nat.{mod-eq_of_lt}
use cpp_examples.Prelude.{
  ℕ, ◌+◌, ◌%◌, ◌^◌, ◌<◌, ◌≤◌, ◌≡◌, ◌∙◌, refl, ap, sym, subst, some, List, [], ◌∷◌, ◌++◌,
  append_assoc, inl, inr, Bool-cases, arith, length, length-append, get_elem?, ◌==◌,
}
use cpp_examples.CircularQueue.{increment}
use cpp_examples.CircularQueue.Threads.{
  PopPlace, away, holding, at_cell, at_release, at_tail, at_head, at_post, tail_seen, head_seen,
  Shared, take_cell, consumer_step,
}
use cpp_examples.CircularQueue.Positions.{succ-mod, exchange-mod, exchange-le, Holds}
use cpp_examples.CircularQueue.Invariant.{
  more_length, first, unreleased, behind, reading, PopIndex, Inv,
}

module _ {T : Type 0} (n : ℕ) (post : ℕ → ℕ) where
  -- Without an item to read, `pop` does not go on.
  held_first :
      (s : Shared T) (i : ℕ)
      → s.consumer ≡ at_cell i
      → (inv : Inv n s) → (x : T) × (rest : List T) × (inv.waiting ≡ x ∷ rest)
  held_first s i e inv = first (inv.waiting) (
      let permits : s.queue.sem_empty + 1 + unreleased (s.producer) ≡ length (inv.waiting) =
        rw e at inv.permits in
      omega arith)

  exchanged_tail-Inv :
      (s : Shared T) (x : T) (expected : ℕ)
      → s.consumer ≡ tail_seen x expected
      → Inv n s
      → Inv n (consumer_step n post s (tail_seen x expected))
  unfolding consumer_step
  exchanged_tail-Inv s x expected e inv =
      let place : s.queue.tail % n ≡ (length (s.taken) + 0) % n = rw e at inv.tail_place in
      let bound : s.queue.tail ≤ length (s.taken) + 0 = rw e at inv.tail_bound in
      let less = exchange-le n (s.queue.tail) expected in
      record {
        waiting = inv.waiting;
        order = inv.order;
        few = inv.few;
        whole = inv.whole;
        held = inv.held;
        head_place = inv.head_place;
        head_bound = inv.head_bound;
        push_index = inv.push_index;
        tail_place = exchange-mod n (s.queue.tail) expected ∙ place;
        tail_bound = omega arith;
        pop_index = tt;
        permits = rw e at inv.permits;
        no_fault = inv.no_fault;
      }

  exchanged_head-Inv :
      (s : Shared T) (x : T) (expected : ℕ)
      → s.consumer ≡ head_seen x expected
      → Inv n s
      → Inv n (consumer_step n post s (head_seen x expected))
  unfolding consumer_step
  exchanged_head-Inv s x expected e inv =
      let bound = inv.head_bound in
      let less = exchange-le n (s.queue.head) expected in
      record {
        waiting = inv.waiting;
        order = inv.order;
        few = inv.few;
        whole = inv.whole;
        held = inv.held;
        head_place = exchange-mod n (s.queue.head) expected ∙ inv.head_place;
        head_bound = omega arith;
        push_index = inv.push_index;
        tail_place = rw e at inv.tail_place;
        tail_bound = rw e at inv.tail_bound;
        pop_index = tt;
        permits = rw e at inv.permits;
        no_fault = inv.no_fault;
      }

  holding-Inv : (s : Shared T) → s.consumer ≡ away → Inv n s → Inv n (consumer_step n post s away)
  unfolding consumer_step
  holding-Inv s e inv = elim (Bool-cases (s.queue.sem_empty == 0)) [
    | inl none_left ↦ rw none_left inv
    | inr some_left ↦
        (let permits : s.queue.sem_empty + 0 + unreleased (s.producer) ≡ length (inv.waiting) =
            rw e at inv.permits in
          let positive : 0 < s.queue.sem_empty = ground (arith, some_left) in
          rw some_left (record {
            waiting = inv.waiting;
            order = inv.order;
            few = inv.few;
            whole = inv.whole;
            held = inv.held;
            head_place = inv.head_place;
            head_bound = inv.head_bound;
            push_index = inv.push_index;
            tail_place = rw e at inv.tail_place;
            tail_bound = rw e at inv.tail_bound;
            pop_index = tt;
            permits = omega arith;
            no_fault = inv.no_fault;
          }))
  ]

  at_cell-Inv :
      (s : Shared T)
      → s.consumer ≡ holding
      → length (s.written) + 1 < 2 ^ 32
      → Inv n s
      → Inv n (consumer_step n post s holding)
  unfolding consumer_step
  at_cell-Inv s e small inv =
      let place : s.queue.tail % n ≡ (length (s.taken) + 0) % n = rw e at inv.tail_place in
      let bound : s.queue.tail ≤ length (s.taken) + 0 = rw e at inv.tail_bound in
      let size : length (s.written) ≡ length (s.taken) + length (inv.waiting) =
        ap length (inv.order) ∙ length-append (s.taken) (inv.waiting) in
      let counts : increment (s.queue.tail) ≡ s.queue.tail + 1 = mod-eq_of_lt (omega arith) in
      let here : s.queue.tail % n ≡ length (s.taken) % n = place ∙ ap (λ m. m % n) (omega arith) in
      record {
        waiting = inv.waiting;
        order = inv.order;
        few = inv.few;
        whole = inv.whole;
        held = inv.held;
        head_place = inv.head_place;
        head_bound = inv.head_bound;
        push_index = inv.push_index;
        tail_place = ap (λ t. t % n) counts ∙ succ-mod n (s.queue.tail) (length (s.taken)) here;
        tail_bound = omega arith;
        pop_index = here;
        permits = rw e at inv.permits;
        no_fault = inv.no_fault;
      }

  -- The read of the first item that waits.
  taken-Inv :
      (s : Shared T) (i : ℕ)
      → s.consumer ≡ at_cell i
      → Inv n s
      → Inv n (consumer_step n post s (at_cell i))
  unfolding consumer_step take_cell
  taken-Inv s i e inv =
      let (x, rest, waits) = held_first s i e inv in
      let index : i % n ≡ length (s.taken) % n = rw e at inv.pop_index in
      let held : Holds n (s.queue.cells) (length (s.taken)) (x ∷ rest) = rw waits at inv.held in
      let found : get_elem? (s.queue.cells) (i % n) ≡ some x =
        ap (get_elem? (s.queue.cells)) index ∙ held.0 in
      let place : s.queue.tail % n ≡ (length (s.taken) + 1) % n = rw e at inv.tail_place in
      let bound : s.queue.tail ≤ length (s.taken) + 1 = rw e at inv.tail_bound in
      let permits : s.queue.sem_empty + 1 + unreleased (s.producer) ≡ length (inv.waiting) =
        rw e at inv.permits in
      let fewer : length (inv.waiting) ≡ length rest + 1 = ap length waits ∙ omega arith in
      let more = length-append (s.taken) (x ∷ []) in
      let few = inv.few in
      rw found (record {
        waiting = rest;
        order =
            inv.order ∙ ap (λ w. s.taken ++ w) waits ∙ sym (append_assoc (s.taken) (x ∷ []) rest);
        few = omega arith;
        whole = inv.whole;
        held = subst (λ p. Holds n (s.queue.cells) p rest) (more_length (s.taken) x) (held.1);
        head_place = inv.head_place;
        head_bound = inv.head_bound;
        push_index = inv.push_index;
        tail_place = place ∙ ap (λ m. m % n) (omega arith);
        tail_bound = omega arith;
        pop_index = tt;
        permits = omega arith;
        no_fault = inv.no_fault;
      })

  -- A place of `pop` at which there is neither a permit nor an index to use.
  abbrev Quiet : PopPlace T → Type 0
  Quiet place = (behind place ≡ 0) × (reading place ≡ 0) × ((count : ℕ) → PopIndex n place count)

  moved_on-Inv :
      (s : Shared T) (before after : PopPlace T) (full : ℕ)
      → s.consumer ≡ before
      → Quiet before
      → Quiet after
      → Inv n s
      → Inv n (record s { queue = record (s.queue) { sem_full = full }; consumer = after })
  moved_on-Inv s before after full e (b, r, _) (b', r', index) inv =
      let none_behind : behind (s.consumer) ≡ behind after = ap behind e ∙ b ∙ sym b' in
      let none_reading : reading (s.consumer) ≡ reading after = ap reading e ∙ r ∙ sym r' in
      record {
        waiting = inv.waiting;
        order = inv.order;
        few = inv.few;
        whole = inv.whole;
        held = inv.held;
        head_place = inv.head_place;
        head_bound = inv.head_bound;
        push_index = inv.push_index;
        tail_place = rw none_behind at inv.tail_place;
        tail_bound = rw none_behind at inv.tail_bound;
        pop_index = index (length (s.taken));
        permits = rw none_reading at inv.permits;
        no_fault = inv.no_fault;
      }

  pub consumer_step-Inv :
      (s : Shared T) (place : PopPlace T)
      → s.consumer ≡ place
      → length (s.written) + 1 < 2 ^ 32
      → Inv n s
      → Inv n (consumer_step n post s place)
  unfolding consumer_step
  consumer_step-Inv s away e small inv = holding-Inv s e inv
  consumer_step-Inv s holding e small inv = at_cell-Inv s e small inv
  consumer_step-Inv s (at_cell i) e small inv = taken-Inv s i e inv
  consumer_step-Inv s (at_release x) e small inv =
      moved_on-Inv s (at_release x) (at_tail x) _ e (refl, refl, λ c. tt) (refl, refl, λ c. tt) inv
  consumer_step-Inv s (at_tail x) e small inv =
      moved_on-Inv s (at_tail x) (tail_seen x (s.queue.tail)) _ e (refl, refl, λ c. tt)
        (refl, refl, λ c. tt) inv
  consumer_step-Inv s (tail_seen x expected) e small inv = exchanged_tail-Inv s x expected e inv
  consumer_step-Inv s (at_head x) e small inv =
      moved_on-Inv s (at_head x) (head_seen x (s.queue.head)) _ e (refl, refl, λ c. tt)
        (refl, refl, λ c. tt) inv
  consumer_step-Inv s (head_seen x expected) e small inv = exchanged_head-Inv s x expected e inv
  consumer_step-Inv s (at_post x) e small inv =
      moved_on-Inv s (at_post x) away _ e (refl, refl, λ c. tt) (refl, refl, λ c. tt) inv
