-- ===== src/NetworkStream/Threads.antt =====
-- What a step of each of the two threads of cjunk/practice/networkframeStream.cpp keeps.
use cpp_examples.Prelude.{ℕ, ◌≡◌, Option, List, arith}
use cpp_examples.NetworkStream.{Place, not_started, Stream, observable_read, observable_write}

-- What a loop does: it keeps the other thread, and does nothing if its own was not started.
pub record Moves (own other : Stream → Place) (s after : Stream) : Type 0 where
  pub same_other : other after ≡ other s
  pub still_not_started : own s ≡ not_started → own after ≡ not_started

abbrev pub read_of : Stream → Place
read_of s = s.read_place

abbrev pub write_of : Stream → Place
write_of s = s.write_place

pub observable_read-Moves :
    (result : Option (List ℕ)) (s : Stream)
    → Moves read_of write_of s (observable_read result s (s.read_place))
unfolding observable_read
observable_read-Moves result s = record {
  same_other = ground arith;
  still_not_started = λ h. ground arith;
}

pub observable_write-Moves :
    (result : Option ℕ) (s : Stream)
    → Moves write_of read_of s (observable_write result s (s.write_place))
unfolding observable_write
observable_write-Moves result s = record {
  same_other = ground arith;
  still_not_started = λ h. ground arith;
}
