-- ===== src/Radio/Silence.antt =====
-- What a run of cjunk/swradio/radio.cpp reads, and where `Config` leaves the frequency.
use cpp_examples.Prelude.{ℕ, ◌≡◌, refl, Option, none, some, List, [], ◌∷◌, map}
use mathlib.Core.Option
use cpp_examples.Prelude.Int.{ℤ, pos}
use cpp_examples.Radio.{make_radio, read, main_loop, main, thrown, returned, closed_by, read_ready}

module _ (remainder : ℤ → ℤ → Option ℤ) where
  -- A radio with no buffer ready.
  main_loop-idle :
      (fd : ℕ) (count index : ℤ) (buffers : List (List ℕ)) (size : ℕ)
      → main_loop remainder
          (record { fd = fd; buffer_count = count; buffer_index = index; buffer_ready = pos 0 })
          buffers
          size
        ≡ some (map (λ buffer. (0, buffer)) buffers)
  unfolding main_loop read
  main_loop-idle fd count index [] size = refl
  main_loop-idle fd count index (buffer ∷ buffers) size =
      rw (main_loop-idle fd count index buffers size) refl

  -- If the device does not open main ends with an exception. If it does, every call of read in the loop
  -- of main returns 0 and leaves the buffer as it was, whatever buffer_count holds and however many
  -- rounds there are, and then the descriptor is closed; the radio that main makes has no buffer ready.
  pub main-silent :
      (opened : Option ℕ) (count : ℤ) (buffers : List (List ℕ))
      → (main remainder opened count buffers ≡ elim opened [
        | none ↦ some thrown
        | some fd ↦ some (returned (map (λ buffer. (0, buffer)) buffers) fd)
      ])
        × (Option.map read_ready (make_radio opened count) ≡ Option.map (λ fd. pos 0) opened)
  unfolding main make_radio closed_by read_ready
  main-silent none count buffers = (refl, refl)
  main-silent (some fd) count buffers =
      (rw (main_loop-idle fd count (pos 0) buffers 4096) refl, refl)
