-- ===== src/StandardInput/Tests.antt =====
-- Interleavings of cjunk/practice/asyncStdin.cc.
use cpp_examples.Prelude.{◌≡◌, refl, true, some, [], ◌∷◌}
use cpp_examples.Prelude.Int.{pos}
use cpp_examples.StandardInput.{
  State, start, at_pop_char, destroyed_mutex, has_char, main_step, push_char, task_step, Reaches,
  here, by_main, by_task,
}
use cpp_examples.StandardInput.Order.{InOrder, Reaches-InOrder, drained, lock-destroyed_mutex}

-- The task reads 65, and `main` sees it.
abbrev one_byte : State
one_byte = record start { queue = 65 ∷ []; main_place = at_pop_char; pushed = 65 ∷ [] }

one_byte_reached : Reaches start one_byte
unfolding main_step has_char task_step push_char
one_byte_reached =
    by_main (by_task (pos 0) (by_task (pos 65) (by_task (pos 0) here refl) refl) refl) refl

Reaches-InOrder_example : InOrder one_byte
Reaches-InOrder_example = Reaches-InOrder one_byte one_byte_reached

reading_reached : Reaches start (drained true [] [])
unfolding task_step
reading_reached = by_task (pos 0) here refl

lock-destroyed_mutex_example :
    (after : State) × (Reaches start after × (after.fault ≡ some destroyed_mutex))
lock-destroyed_mutex_example = lock-destroyed_mutex start true [] [] (pos 65) reading_reached refl
