-- ===== src/NetworkStream/Unstarted.antt =====
-- The destructor of an object of cjunk/practice/networkframeStream.cpp whose constructor started no threads.
use cpp_examples.Prelude.{ℕ, suc, ◌≤◌, ◌≡◌, List, [], ◌∷◌}
use cpp_examples.NetworkStream.{
  not_started, Owner, alive, joining_read, terminated, System, Event, owner_event,
}

-- How far an owner whose threads were never started is from the end of its destructor.
abbrev left : Owner → ℕ
left alive = 2
left joining_read = 1
left terminated = 0
left _ = 3

abbrev pub owner_events : List Event → ℕ
owner_events [] = 0
owner_events (owner_event ∷ es) = suc (owner_events es)
owner_events (_ ∷ es) = owner_events es

record Unstarted (sys : System) : Type 0 where
  no_read : sys.stream.read_place ≡ not_started
  no_write : sys.stream.write_place ≡ not_started
  near : left (sys.owner) ≤ 2
