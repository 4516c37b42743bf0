-- ===== src/StandardInput/Order.antt =====
-- The interleavings of cjunk/practice/asyncStdin.cc.
use cpp_examples.Prelude.{
  ℕ, ◌≡◌, ◌≢◌, ◌∙◌, refl, sym, ap, Bool, true, false, none, some, List, [], ◌∷◌, ◌++◌, append_assoc,
  subst, ◌⊎◌, inl, inr, if◌then◌else◌,
}
use cpp_examples.Prelude.Int.{ℤ}
use cpp_examples.StandardInput.{
  MainPlace, at_has_char, at_pop_char, behind_loop, stopping, at_future, finished, TaskPlace,
  at_test, at_read, stopped, at_push, empty_queue, destroyed_mutex, State, start, is_eof, low_byte,
  has_char, pop_char, await_task, main_step, push_char, task_step, Reaches, here, by_main, by_task,
}

-- A byte is there where `main` is about to pop one.
abbrev pub HasByte : MainPlace → List ℕ → Type 0
HasByte at_pop_char [] = ⊥
HasByte _ _ = Unit {0}

-- What was pushed is what was printed and what waits, in this order, and `front` has not been called
-- on an empty queue.
pub record InOrder (s : State) : Type 0 where
  pub order : s.pushed ≡ s.printed ++ s.queue
  pub has_byte : HasByte (s.main_place) (s.queue)
  pub no_empty_queue : s.fault ≢ some empty_queue

queue-cases : (q : List ℕ) → (q ≡ []) ⊎ ((c : ℕ) × ((rest : List ℕ) × (q ≡ c ∷ rest)))
queue-cases [] = inl refl
queue-cases (c ∷ rest) = inr (c, (rest, refl))

HasByte-append : (place : MainPlace) (q : List ℕ) (c : ℕ) → HasByte place (q ++ c ∷ [])
HasByte-append at_pop_char [] c = tt
HasByte-append at_pop_char (x ∷ q) c = tt
HasByte-append at_has_char q c = tt
HasByte-append behind_loop q c = tt
HasByte-append stopping q c = tt
HasByte-append at_future q c = tt
HasByte-append finished q c = tt

has_char-InOrder : (s : State) → InOrder s → InOrder (has_char s)
unfolding has_char
has_char-InOrder s i = elim (queue-cases (s.queue)) [
  | inl e ↦
      rw e (record { order = rw e at i.order; has_byte = tt; no_empty_queue = i.no_empty_queue })
  | inr (c, (rest, e)) ↦
      rw e (record { order = rw e at i.order; has_byte = tt; no_empty_queue = i.no_empty_queue })
]

pop_char-InOrder : (s : State) → s.main_place ≡ at_pop_char → InOrder s → InOrder (pop_char s)
unfolding pop_char
pop_char-InOrder s p i = elim (queue-cases (s.queue)) [
  | inl e ↦ absurd (rw (p, e) at i.has_byte)
  | inr (c, (rest, e)) ↦ rw e (record {
    order = (rw e at i.order) ∙ sym (append_assoc (s.printed) (c ∷ []) rest);
    has_byte = tt;
    no_empty_queue = i.no_empty_queue;
  })
]

moved-InOrder :
    (s : State) (running : Bool) (place : MainPlace)
    → HasByte place (s.queue)
    → InOrder s
    → InOrder (record s { running = running; main_place = place })
moved-InOrder s running place h i = record {
  order = i.order;
  has_byte = h;
  no_empty_queue = i.no_empty_queue;
}

await_task-InOrder : (s : State) (place : TaskPlace) → InOrder s → InOrder (await_task s place)
unfolding await_task
await_task-InOrder s at_test i = i
await_task-InOrder s at_read i = i
await_task-InOrder s (at_push b) i = i
await_task-InOrder s stopped i = moved-InOrder s (s.running) finished tt i

main_step-InOrder :
    (s : State) (place : MainPlace) → s.main_place ≡ place → InOrder s → InOrder (main_step s place)
unfolding main_step
main_step-InOrder s at_has_char e i = has_char-InOrder s i
main_step-InOrder s at_pop_char e i = pop_char-InOrder s e i
main_step-InOrder s behind_loop e i = moved-InOrder s false stopping tt i
main_step-InOrder s stopping e i = moved-InOrder s (s.running) at_future tt i
main_step-InOrder s at_future e i = await_task-InOrder s (s.task_place) i
main_step-InOrder s finished e i = i

-- A push under the mutex.
appended-InOrder :
    (s : State) (c : ℕ)
    → InOrder s
    → InOrder
        (record s { queue = s.queue ++ c ∷ []; pushed = s.pushed ++ c ∷ []; task_place = at_test })
appended-InOrder s c i = record {
  order = ap (λ q. q ++ c ∷ []) (i.order) ∙ append_assoc (s.printed) (s.queue) (c ∷ []);
  has_byte = HasByte-append (s.main_place) (s.queue) c;
  no_empty_queue = i.no_empty_queue;
}

push_char-InOrder :
    (s : State) (c : ℕ) (place : MainPlace) → InOrder s → InOrder (push_char s c place)
unfolding push_char
push_char-InOrder s c at_has_char i = appended-InOrder s c i
push_char-InOrder s c at_pop_char i = appended-InOrder s c i
push_char-InOrder s c behind_loop i = appended-InOrder s c i
push_char-InOrder s c stopping i = appended-InOrder s c i
push_char-InOrder s c finished i = appended-InOrder s c i
push_char-InOrder s c at_future i = record {
  order = i.order;
  has_byte = i.has_byte;
  no_empty_queue = λ e. absurd cc;
}

placed-InOrder :
    (s : State) (place : TaskPlace) → InOrder s → InOrder (record s { task_place = place })
placed-InOrder s place i = record {
  order = i.order;
  has_byte = i.has_byte;
  no_empty_queue = i.no_empty_queue;
}

branch-InOrder : {s t : State} (b : Bool) → InOrder s → InOrder t → InOrder (if b then s else t)
branch-InOrder true i j = i
branch-InOrder false i j = j

task_step-InOrder :
    (c : ℤ) (s : State) (place : TaskPlace) → InOrder s → InOrder (task_step c s place)
unfolding task_step
task_step-InOrder c s at_test i =
    branch-InOrder (s.running) (placed-InOrder s at_read i) (placed-InOrder s stopped i)
task_step-InOrder c s at_read i =
    branch-InOrder (is_eof c) (placed-InOrder s at_test i)
      (placed-InOrder s (at_push (low_byte c)) i)
task_step-InOrder c s (at_push b) i = push_char-InOrder s b (s.main_place) i
task_step-InOrder c s stopped i = i

-- In every state that an interleaving of main and inputCharTask reaches, what was pushed is what was
-- printed followed by what waits in the queue, main has not called front on an empty queue, and
-- where it is about to call it a byte is there.
pub Reaches-InOrder : (s : State) → Reaches start s → InOrder s
Reaches-InOrder _ here = record { order = refl; has_byte = tt; no_empty_queue = λ e. absurd cc }
Reaches-InOrder _ (by_main {s = s} r f) =
    main_step-InOrder s (s.main_place) refl (Reaches-InOrder s r)
Reaches-InOrder _ (by_task {s = s} c r f) =
    task_step-InOrder c s (s.task_place) (Reaches-InOrder s r)

-- `main` is about to find the queue empty, and the task is in `fread`.
abbrev pub drained : Bool → List ℕ → List ℕ → State
drained running pushed printed = record {
  running = running;
  queue = [];
  main_place = at_has_char;
  task_place = at_read;
  pushed = pushed;
  printed = printed;
  fault = none;
}

-- From every reached state in which main is at hasChar, the queue is empty and the task is in fread,
-- and for every value but EOF that fread may leave, an interleaving goes on to the lock of the
-- destroyed mutex.
pub lock-destroyed_mutex :
    (origin : State) (running : Bool) (pushed printed : List ℕ) (c : ℤ)
    → Reaches origin (drained running pushed printed)
    → is_eof c ≡ false
    → (after : State) × (Reaches origin after × (after.fault ≡ some destroyed_mutex))
unfolding main_step has_char task_step push_char
lock-destroyed_mutex origin running pushed printed c r e =
    let destroys : Reaches origin
        (record (drained false pushed printed) { main_place = at_future }) =
      by_main (by_main (by_main r refl) refl) refl in
    let last : task_step c (record (drained false pushed printed) { main_place = at_future })
          at_read
        ≡ record (drained false pushed printed) {
          main_place = at_future;
          task_place = at_push (low_byte c);
        } =
      rw e refl in
    let reads = subst (Reaches origin) last (by_task c destroys refl) in
    (_, (by_task c reads refl, refl))
