-- ===== src/CircularQueue/Tests.antt =====
-- A queue of cjunk/practice/circularqueue.cc with two places.
use cpp_examples.Prelude.{ℕ, ◌≡◌, refl, false, [], ◌∷◌}
use cpp_examples.CircularQueue.{
  Queue, returned, blocked, ◌>>=◌, make_queue, insert, try_push, pop, try_push_all,
}

abbrev empty : Queue ℕ
empty = make_queue 2 (0 ∷ 0 ∷ [])

third_refused :
    (try_push_all 2 2 empty (5 ∷ 6 ∷ 7 ∷ []) >>= λ (accepted, last). returned accepted)
    ≡ returned false
unfolding try_push_all try_push insert make_queue
third_refused = refl

pop_blocked : pop 2 2 (λ k. k) empty ≡ blocked
unfolding pop make_queue
pop_blocked = refl
