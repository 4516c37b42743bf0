-- ===== src/Prelude/Texts.antt =====
-- C strings in a block of bytes.
use Prim.Native.Nat.{ℕ}
use mathlib.Core.Bool.{true, false}
use mathlib.Core.List.{List, [], ◌∷◌}
use cpp_examples.Prelude.Tests.{◌==◌}

-- The bytes before the first zero byte.
unfoldable pub before_zero : List ℕ → List ℕ
before_zero [] = []
before_zero (c ∷ rest) = elim (c == 0) [ true ↦ [] | false ↦ c ∷ before_zero rest ]
