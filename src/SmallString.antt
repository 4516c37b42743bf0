-- ===== src/SmallString.antt =====
-- `struct SmallString` of cjunk/practice/smallString.cc: at most eight bytes, ended by a zero byte
-- where there are fewer.
pub mod View
mod Tests
use cpp_examples.Prelude.{
  ℕ, zero, suc, ◌+◌, Bool, true, false, List, [], ◌∷◌, length, take, replicate, min, ◌==◌,
  if◌then◌else◌,
}

-- `std::copy_n(begin(source), count, begin(target))`
unfoldable pub copy_n : ℕ → List ℕ → List ℕ → List ℕ
copy_n zero source target = target
copy_n (suc count) [] target = target
copy_n (suc count) (c ∷ source) [] = []
copy_n (suc count) (c ∷ source) (d ∷ target) = c ∷ copy_n count source target

-- The constructor: `characters = {}` and the copy.
unfoldable pub make : List ℕ → List ℕ
make str = copy_n (min (length str) 8) str (replicate 8 0)

-- `size`: the index that `std::find` gives.
unfoldable pub size : List ℕ → ℕ
size [] = 0
size (c ∷ characters) = elim (c == 0) [ true ↦ 0 | false ↦ suc (size characters) ]

-- `operator*`
unfoldable pub view : List ℕ → List ℕ
view characters = take (size characters) characters
