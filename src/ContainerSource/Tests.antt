-- ===== src/ContainerSource/Tests.antt =====
-- A source of cjunk/tests.cpp with five characters.
use cpp_examples.Prelude.{ℕ, ◌≡◌, refl, none, some, List, [], ◌∷◌}
use cpp_examples.ContainerSource.{make_source, read, read_pieces}
use cpp_examples.ContainerSource.Pieces.{read_pieces-take}

abbrev five : List ℕ
five = 1 ∷ 2 ∷ 3 ∷ 4 ∷ 5 ∷ []

at_end : (read (record { container = five; pos = 5 }) 3).0 ≡ none
unfolding read
at_end = refl

last_piece : (read (record { container = five; pos = 3 }) 4).0 ≡ some (4 ∷ 5 ∷ [])
unfolding read
last_piece = refl

read_pieces-take_example :
    read_pieces (make_source five) (2 ∷ 2 ∷ 2 ∷ []) ≡ (five, record { container = five; pos = 5 })
read_pieces-take_example = read_pieces-take five (2 ∷ 2 ∷ 2 ∷ [])
