-- ===== src/ContainerSource.antt =====
-- `container_source` of cjunk/tests.cpp, over a container that does not change. The streams that call
-- `read` ask for no negative number of characters.
pub mod Pieces
mod Tests
use cpp_examples.Prelude.{
  ℕ, zero, suc, ◌+◌, ◌-◌, min, Option, none, some, List, [], ◌∷◌, ◌++◌, length, take, drop, ◌==◌,
  if◌then◌else◌,
}

pub record Source (T : Type 0) : Type 0 where
  pub container : List T
  pub pos : ℕ

unfoldable pub make_source : {T : Type 0} → List T → Source T
make_source container = record { container = container; pos = 0 }

-- `read`: the characters that it copies, or none for the end of the file.
unfoldable pub read : {T : Type 0} → Source T → ℕ → Option (List T) × Source T
read self n =
    let amt = length (self.container) - self.pos in
    let result = min n amt in
    if result == 0 then (none, self) else (
      some (take result (drop (self.pos) (self.container))),
      record self { pos = self.pos + result },
    )

abbrev pub characters : {T : Type 0} → Option (List T) → List T
characters none = []
characters (some s) = s

-- Calls of `read` with these numbers: all the characters, and the source after them.
unfoldable pub read_pieces : {T : Type 0} → Source T → List ℕ → List T × Source T
read_pieces self [] = ([], self)
read_pieces self (n ∷ ns) =
    let (piece, after) = read self n in
    let (rest, last) = read_pieces after ns in (characters piece ++ rest, last)
