-- ===== src/PracticeQueue/Runs.antt =====
-- Runs of the queue of cjunk/practice/queue.h against the list that it really keeps.
use cpp_examples.Prelude.{
  ℕ, ◌+◌, ◌*◌, ◌^◌, ◌<◌, ◌≤◌, ◌≡◌, ◌∙◌, refl, sym, ap, false, none, some, List, [], ◌∷◌, ◌++◌,
  arith, length, ltb, ◌==◌, if◌then◌else◌,
}
use cpp_examples.Fifo.Ring.{slot, slot-of_lt}
use cpp_examples.PracticeQueue.{
  Queue, initialize, clear, is_empty, Call, enqueue_call, dequeue_call, clear_call, is_empty_call,
  is_full_call, Answer, done, dequeued, tested, call_queue, run_queue,
}
use cpp_examples.PracticeQueue.Drops.{
  Represents, enqueue-Represents, dequeue-nil, dequeue-Represents, indices-apart,
}

-- The same calls on the list of the elements: the `n`-th element empties it.
unfoldable pub call_list : ℕ → List (List ℕ) → Call → Answer × List (List ℕ)
call_list n xs (enqueue_call element) =
    (done, if ltb (length xs + 1) n then xs ++ element ∷ [] else [])
call_list n [] dequeue_call = (dequeued none, [])
call_list n (x ∷ xs) dequeue_call = (dequeued (some x), xs)
call_list n xs clear_call = (done, [])
call_list n xs is_empty_call = (tested (length xs == 0), xs)
call_list n xs is_full_call = (tested false, xs)

unfoldable pub run_list : ℕ → List (List ℕ) → List Call → List Answer
run_list n xs [] = []
run_list n xs (c ∷ cs) = let (answer, after) = call_list n xs c in answer ∷ run_list n after cs

-- Every enqueued element has `size` bytes.
abbrev pub Sized : ℕ → List Call → Type 0
Sized size [] = Unit {0}
Sized size (enqueue_call element ∷ cs) = (length element ≡ size) × Sized size cs
Sized size (_ ∷ cs) = Sized size cs

module _ (n size : ℕ) where
  clear-Represents :
      (self : Queue) (xs : List (List ℕ))
      → Represents n size self xs
      → Represents n size (clear self) []
  unfolding clear
  clear-Represents self xs r =
      let room = r.room in
      record {
        same_capacity = r.same_capacity;
        same_size = r.same_size;
        never_full = refl;
        block = r.block;
        few = r.few;
        int_block = r.int_block;
        room = omega arith;
        begin_bound = omega arith;
        end_place = sym (slot-of_lt (omega arith));
        held = tt;
      }

  is_empty-length :
      (self : Queue) (xs : List (List ℕ))
      → Represents n size self xs
      → is_empty self ≡ (length xs == 0)
  unfolding is_empty
  is_empty-length self [] r =
      let same : self.begin ≡ self.end =
        sym (r.end_place ∙ ap (slot n) (omega arith) ∙ slot-of_lt (r.begin_bound)) in
      ground arith
  is_empty-length self (x ∷ xs) r =
      let apart = indices-apart n size self x xs r in
      let filled : (self.begin == self.end) ≡ false = ground arith in filled ∙ ground arith

  run_queue-Represents :
      (self : Queue) (xs : List (List ℕ)) (cs : List Call)
      → Represents n size self xs
      → Sized size cs
      → run_queue self cs ≡ some (run_list n xs cs)
  unfolding run_queue call_queue run_list call_list
  run_queue-Represents self xs [] r w = refl
  run_queue-Represents self xs (enqueue_call element ∷ cs) r (w, ws) =
      let (after, (e, related)) = enqueue-Represents n size self xs element r w in
      rw e (rw (run_queue-Represents after _ cs related ws) refl)
  run_queue-Represents self [] (dequeue_call ∷ cs) r w =
      rw (dequeue-nil n size self r) (rw (run_queue-Represents self [] cs r w) refl)
  run_queue-Represents self (x ∷ xs) (dequeue_call ∷ cs) r w =
      let (after, (e, related)) = dequeue-Represents n size self x xs r in
      rw e (rw (run_queue-Represents after xs cs related w) refl)
  run_queue-Represents self xs (clear_call ∷ cs) r w =
      rw (run_queue-Represents (clear self) [] cs (clear-Represents self xs r) w) refl
  run_queue-Represents self xs (is_empty_call ∷ cs) r w =
      rw (run_queue-Represents self xs cs r w, is_empty-length self xs r) refl
  run_queue-Represents self xs (is_full_call ∷ cs) r w =
      rw (run_queue-Represents self xs cs r w, r.never_full) refl

  -- From private_queueInitialize on, with a capacity of `n`, at least 1 and below 2 ^ 16, in a block
  -- with room for `n` elements whose size `int` holds, and elements of the element size: every list of enqueue, dequeue,
  -- clear, isEmpty and isFull calls stays in bounds and answers like a first-in, first-out list that
  -- loses all of its elements when it would reach `n` of them, and isFull is always false.
  pub run_queue-initialize :
      (memory : List ℕ) (cs : List Call)
      → 0 < n
      → n < 2 ^ 16
      → n * size < 2 ^ 31
      → n * size ≤ length memory
      → Sized size cs
      → run_queue (initialize memory size n) cs ≡ some (run_list n [] cs)
  run_queue-initialize memory cs h small wide space w =
      run_queue-Represents (initialize memory size n) [] cs
        (record {
          same_capacity = refl;
          same_size = refl;
          never_full = refl;
          block = space;
          few = small;
          int_block = wide;
          room = h;
          begin_bound = h;
          end_place = sym (slot-of_lt h);
          held = tt;
        })
        w
