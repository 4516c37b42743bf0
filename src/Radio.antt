-- ===== src/Radio.antt =====
-- `Radio` of cjunk/swradio/radio.cpp, and the loop of its `main`. The device is a parameter.
-- Undefined behaviour is `none`.
pub mod Silence
mod Tests
use cpp_examples.Prelude.{
  ℕ, zero, suc, ◌+◌, ◌*◌, Bool, true, false, Option, none, some, List, [], ◌∷◌, ◌++◌, if◌then◌else◌,
  ◌>>=◌,
}
use cpp_examples.Prelude.Int.{ℤ, pos, negsuc, sub_ℕ, ◌+ℤ◌, ◌-ℤ◌}
use cpp_examples.Memory.{copy_in, copy_out}

-- The members; the constructor gives `buffer_count` no value, so it may be any number.
pub record Radio : Type 0 where
  pub fd : ℕ
  pub buffer_count : ℤ
  pub buffer_index : ℤ
  pub buffer_ready : ℤ

-- `v4l2_open` gives a descriptor, or the constructor throws.
unfoldable pub make_radio : Option ℕ → ℤ → Option Radio
make_radio none count = none
make_radio (some fd) count =
    some (record { fd = fd; buffer_count = count; buffer_index = pos 0; buffer_ready = pos 0 })

unfoldable pub read_ready : Radio → ℤ
read_ready self = self.buffer_ready

unfoldable pub read_index : Radio → ℤ
read_index self = self.buffer_index

unfoldable pub read_count : Radio → ℤ
read_count self = self.buffer_count

-- The descriptor that `~Radio` closes.
unfoldable pub closed_by : Radio → ℕ
closed_by self = self.fd

-- `main` ends with the exception of the constructor, or returns: the results of its calls of `read`,
-- and the descriptor that was closed.
pub data MainEnd : Type 0 where
  thrown : MainEnd
  returned : List (ℕ × List ℕ) → ℕ → MainEnd

abbrev pub is_zero : ℤ → Bool
is_zero (pos zero) = true
is_zero _ = false

-- The copy of `read`, from `buffer + buffer_index * buffer_size` to `buffer`; a negative offset is
-- out of bounds.
unfoldable pub copy_block : List ℕ → ℤ → ℕ → Option (List ℕ)
copy_block buffer (pos i) size = do bytes ← copy_out buffer (i * size) size; copy_in buffer 0 bytes
copy_block buffer (negsuc i) size = none

-- `%` on `int`, the operation of the machine, with `none` for a division by zero.
module _ (remainder : ℤ → ℤ → Option ℤ) where
  unfoldable pub read_block : Radio → List ℕ → ℕ → Option (ℕ × List ℕ × Radio)
  read_block self buffer size = do
    after ← copy_block buffer (self.buffer_index) size
    index ← remainder (self.buffer_index +ℤ pos 1) (self.buffer_count)
    some (
      size,
      after,
      record self { buffer_index = index; buffer_ready = self.buffer_ready -ℤ pos 1 },
    )

  -- `read`: what it returns, the buffer, and the radio.
  unfoldable pub read : Radio → List ℕ → ℕ → Option (ℕ × List ℕ × Radio)
  read self buffer size =
      if is_zero (self.buffer_ready) then some (0, buffer, self) else read_block self buffer size

  -- The loop of `main`: the results of its calls, for buffers with any content.
  unfoldable pub main_loop : Radio → List (List ℕ) → ℕ → Option (List (ℕ × List ℕ))
  main_loop self [] size = some []
  main_loop self (buffer ∷ buffers) size = do
    (count, after, next) ← read self buffer size
    rest ← main_loop next buffers size
    some ((count, after) ∷ rest)

  -- `main`, with a buffer of any content for each of its rounds, up to the end of its block, where the
  -- destructor closes the descriptor.
  unfoldable pub main : Option ℕ → ℤ → List (List ℕ) → Option MainEnd
  main opened count buffers = elim (make_radio opened count) [
    | none ↦ some thrown
    | some radio ↦ (do
      results ← main_loop radio buffers 4096
      some (returned results (closed_by radio)))
  ]

-- The requests of `Config`, with the fields it sets.
pub data Request : Type 0 where
  query_capabilities : Request
  set_frequency : ℕ → Request
  set_modulator : ℕ → ℕ → Request

-- A device, and the frequency it is tuned to.
pub record Device : Type 1 where
  pub World : Type 0
  pub ioctl : Request → World → World
  pub frequency : World → ℕ

unfoldable pub config : (dev : Device) → dev.World → dev.World
config dev w =
    let capable = dev.ioctl query_capabilities w in
    let tuned = dev.ioctl (set_frequency 140000000) capable in
    let modulated = dev.ioctl (set_modulator 0 0) tuned in dev.ioctl (set_frequency 0) modulated
