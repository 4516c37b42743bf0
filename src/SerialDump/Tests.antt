-- ===== src/SerialDump/Tests.antt =====
-- The loop of middleware/src/dump_serial.cpp with a buffer of four bytes.
use cpp_examples.Prelude.{ℕ, ◌≡◌, refl, Option, none, some, List, [], ◌∷◌, arith, replicate}
use cpp_examples.Memory.{copy_in}
use cpp_examples.SerialDump.{store, printed, terminate, dump_once, dump, main, dumping}
use cpp_examples.SerialDump.Lines.{main-lines, lines}

-- A failure, two bytes, as many as the buffer has, and a zero byte between others.
abbrev arriving : List (Option (List ℕ))
arriving = none ∷ some (1 ∷ 2 ∷ []) ∷ some (3 ∷ 4 ∷ 5 ∷ 6 ∷ []) ∷ some (7 ∷ 0 ∷ 8 ∷ []) ∷ []

dumped :
    main 3 (some 4) (replicate 4 9) arriving
    ≡ some (dumping (1 ∷ 2 ∷ 10 ∷ 3 ∷ 4 ∷ 5 ∷ 10 ∷ 7 ∷ 10 ∷ []))
unfolding main dump dump_once terminate store printed copy_in
dumped = refl

main-lines_example : main 3 (some 4) (replicate 4 9) arriving ≡ some (dumping (lines 4 arriving))
main-lines_example =
    main-lines 3 4 (replicate 4 9) arriving (omega arith)
      (omega arith, (omega arith, (omega arith, tt)))
