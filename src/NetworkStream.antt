-- ===== src/NetworkStream.antt =====
-- `NetworkVideoStreamObservable` of cjunk/practice/networkframeStream.cpp: flags that an owner and two
-- threads share. A step of a thread is one pass through the tests of its loop, or the return of one
-- call of the socket, with its result in the event; a call that never returns has no such event. The
-- flags are plain `bool`, so a schedule stands for a run without a data race on them.
pub mod Threads
pub mod Unstarted
mod Tests
use cpp_examples.Prelude.{
  ℕ, zero, suc, ◌+◌, Bool, true, false, ◌&&◌, not, Option, none, some, List, [], ◌∷◌, ◌++◌, drop,
  take, length, ◌-◌, if◌then◌else◌,
}

-- Where a thread is. `std::thread::join` needs a thread that was started and not joined.
pub data Place : Type 0 where
  not_started at_test in_call ended joined : Place

-- `NetworkStreamBase`; the socket and its service are the results in the events.
pub record Stream : Type 0 where
  pub is_running : Bool
  pub is_reading : Bool
  pub is_writing : Bool
  pub is_connected : Bool
  pub is_disconnected : Bool
  pub read_buffer : List ℕ
  pub write_buffer : List ℕ
  pub read_place : Place
  pub write_place : Place

abbrev pub base : Stream
base = record {
  is_running = false;
  is_reading = false;
  is_writing = false;
  is_connected = false;
  is_disconnected = false;
  read_buffer = [];
  write_buffer = [];
  read_place = not_started;
  write_place = not_started;
}

-- `kMaxBuffer`
abbrev pub max_buffer : ℕ
max_buffer = 1024

-- The flags and threads that the constructor sets behind its returns.
abbrev pub started : Stream → Stream
started s = record s {
  is_running = true;
  is_reading = true;
  is_writing = true;
  read_place = at_test;
  write_place = at_test;
}

-- The constructor of `NetworkVideoStreamObservable`, with whether resolving and connecting succeeded.
unfoldable pub make_observable : Bool → Bool → Stream
make_observable resolved connected =
    if resolved && connected
    then started (record base { is_connected = true; is_disconnected = false })
    else base

-- `read_loop` and `write_loop` of `NetworkVideoStreamObservable`; a call gives an error (`none`), or
-- the bytes that came in, of which the buffer takes what it has room for, or the number of bytes
-- that were written.
unfoldable pub observable_read : Option (List ℕ) → Stream → Place → Stream
observable_read result s at_test =
    if s.is_running
    then (if s.is_reading then record s { read_place = in_call } else s)
    else record s { read_place = ended }
observable_read none s in_call = record s {
  is_connected = false;
  is_disconnected = true;
  is_reading = false;
  read_place = ended;
}
observable_read (some bytes) s in_call = record s {
  read_buffer = s.read_buffer ++ take (max_buffer - length (s.read_buffer)) bytes;
  read_place = at_test;
}
observable_read result s not_started = s
observable_read result s ended = s
observable_read result s joined = s

unfoldable pub observable_write : Option ℕ → Stream → Place → Stream
observable_write result s at_test =
    if s.is_running
    then (if s.is_writing then record s { write_place = in_call } else s)
    else record s { write_place = ended }
observable_write none s in_call = record s {
  is_connected = false;
  is_disconnected = true;
  is_writing = false;
  write_place = ended;
}
observable_write (some count) s in_call = record s {
  write_buffer = drop count (s.write_buffer);
  write_place = at_test;
}
observable_write result s not_started = s
observable_write result s ended = s
observable_write result s joined = s

-- `write`, in both of its forms, with how many of the bytes the stream puts into its buffer.
unfoldable pub write : ℕ → List ℕ → Stream → Stream
write count bytes s =
    if s.is_connected then record s { write_buffer = s.write_buffer ++ take count bytes } else s

-- The owner: before the destructor, at the two calls of `join`, behind them, or after
-- `std::terminate`, which a `join` of no thread ends in, as destructors let no exception out.
pub data Owner : Type 0 where
  alive joining_read joining_write gone terminated : Owner

pub record System : Type 0 where
  pub stream : Stream
  pub owner : Owner

-- `read_thread_.join()` and `write_thread_.join()` wait for the end of the thread.
unfoldable pub join_read : Stream → Place → System
join_read s ended = record { stream = record s { read_place = joined }; owner = joining_write }
join_read s at_test = record { stream = s; owner = joining_read }
join_read s in_call = record { stream = s; owner = joining_read }
join_read s not_started = record { stream = s; owner = terminated }
join_read s joined = record { stream = s; owner = terminated }

unfoldable pub join_write : Stream → Place → System
join_write s ended = record { stream = record s { write_place = joined }; owner = gone }
join_write s at_test = record { stream = s; owner = joining_write }
join_write s in_call = record { stream = s; owner = joining_write }
join_write s not_started = record { stream = s; owner = terminated }
join_write s joined = record { stream = s; owner = terminated }

-- `~NetworkVideoStreamObservable`.
unfoldable pub owner_step : Stream → Owner → System
owner_step s alive = record {
  stream = record s { is_running = false; is_reading = false; is_writing = false };
  owner = joining_read;
}
owner_step s joining_read = join_read s (s.read_place)
owner_step s joining_write = join_write s (s.write_place)
owner_step s gone = record { stream = s; owner = gone }
owner_step s terminated = record { stream = s; owner = terminated }

pub data Event : Type 0 where
  read_event : Option (List ℕ) → Event
  write_event : Option ℕ → Event
  owner_event : Event

unfoldable pub step : System → Event → System
step sys (read_event result) = record {
  stream = observable_read result (sys.stream) (sys.stream.read_place);
  owner = sys.owner;
}
step sys (write_event result) = record {
  stream = observable_write result (sys.stream) (sys.stream.write_place);
  owner = sys.owner;
}
step sys owner_event = owner_step (sys.stream) (sys.owner)

-- A schedule of the three.
unfoldable pub run : System → List Event → System
run sys [] = sys
run sys (e ∷ es) = run (step sys e) es

-- An object whose constructor has returned.
unfoldable pub born : Bool → Bool → System
born resolved connected = record { stream = make_observable resolved connected; owner = alive }
