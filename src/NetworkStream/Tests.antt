-- ===== src/NetworkStream/Tests.antt =====
-- Schedules of `NetworkVideoStreamObservable` of cjunk/practice/networkframeStream.cpp.
use cpp_examples.Prelude.{◌≡◌, refl, true, none, some, [], ◌∷◌, replicate, length}
use cpp_examples.NetworkStream.{
  gone, read_event, write_event, owner_event, run, step, observable_read, observable_write,
  owner_step, join_read, join_write, make_observable, born,
}

-- The thread that reads gets two bytes, the other one fails, and the object is destroyed when both
-- have left their loops.
destroyed_in_order :
    (run (born true true) (
      read_event none
      ∷ read_event (some (7 ∷ 8 ∷ []))
      ∷ write_event none
      ∷ write_event none
      ∷ owner_event
      ∷ read_event none
      ∷ owner_event
      ∷ owner_event
      ∷ [])).owner
    ≡ gone
unfolding run step born make_observable observable_read observable_write owner_step join_read
    join_write
destroyed_in_order = refl

-- Of 1030 bytes the buffer takes 1024.
buffer_filled :
    length (
      (run
        (born true true)
        (read_event none ∷ read_event (some (replicate 1030 7)) ∷ [])).stream.read_buffer)
    ≡ 1024
unfolding run step born make_observable observable_read
buffer_filled = refl
