-- ===== src/SerialDump.antt =====
-- `main` of middleware/src/dump_serial.cpp. What `open` and the calls of `read` give are arguments, as
-- are the bytes that the buffer starts with; the settings of the port do not show in what is printed.
-- An access or a print that goes on behind the end of the buffer is undefined behaviour, `none`.
mod Lines
pub mod Port
mod Tests
use cpp_examples.Prelude.{
  ℕ, zero, suc, ◌-◌, ◌<◌, Bool, true, false, Option, none, some, List, [], ◌∷◌, ◌++◌, length, set,
  ltb, ◌==◌, if◌then◌else◌, ◌>>=◌,
}
use cpp_examples.Memory.{copy_in}

-- `array[i] = value`
unfoldable pub store : List ℕ → ℕ → ℕ → Option (List ℕ)
store array i value = if ltb i (length array) then some (set array i value) else none

-- What `operator<<` prints of a `char*`: the bytes up to a zero byte.
unfoldable pub printed : List ℕ → Option (List ℕ)
printed [] = none
printed (c ∷ rest) = elim (c == 0) [
  | true ↦ some []
  | false ↦ (do bytes ← printed rest; some (c ∷ bytes))
]

-- The two ways to end the string.
unfoldable pub terminate : List ℕ → ℕ → Option (List ℕ)
terminate buffer bytes_read =
    if ltb bytes_read (length buffer)
    then store buffer bytes_read 0
    else store buffer (length buffer - 1) 0

-- The body of the loop, for a `read` that fails or writes some bytes: the buffer, and what is printed.
unfoldable pub dump_once : List ℕ → Option (List ℕ) → Option (List ℕ × List ℕ)
dump_once buffer none = some (buffer, [])
dump_once buffer (some []) = some (buffer, [])
dump_once buffer (some (b ∷ bytes)) = do
  filled ← copy_in buffer 0 (b ∷ bytes)
  ended ← terminate filled (length (b ∷ bytes))
  text ← printed ended
  some (ended, text ++ 10 ∷ [])

-- As many rounds of the loop as there are results of `read`.
unfoldable pub dump : List ℕ → List (Option (List ℕ)) → Option (List ℕ)
dump buffer [] = some []
dump buffer (result ∷ results) = do
  (after, text) ← dump_once buffer result
  more ← dump after results
  some (text ++ more)

-- `main` returns 1 after a message, or it is in its loop and has printed some bytes.
pub data Run : Type 0 where
  usage no_device : Run
  dumping : List ℕ → Run

-- `open` gives a descriptor or fails.
unfoldable pub main : ℕ → Option ℕ → List ℕ → List (Option (List ℕ)) → Option Run
main argc fd buffer results = if ltb argc 3 then some usage else elim fd [
  | none ↦ some no_device
  | some n ↦ (do text ← dump buffer results; some (dumping text))
]
