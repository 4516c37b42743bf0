-- ===== src/SmallString/Tests.antt =====
-- Small strings of a short and of a long text.
use cpp_examples.Prelude.{ℕ, ◌≡◌, refl, List, take, replicate, before_zero}
use cpp_examples.SmallString.{copy_n, make, size, view}
use cpp_examples.SmallString.View.{view-make}

abbrev ten : List ℕ
ten = replicate 10 b'x'

keeps_eight : view (make ten) ≡ replicate 8 b'x'
unfolding view make copy_n size
keeps_eight = refl

view-make_example : view (make ten) ≡ before_zero (take 8 ten)
view-make_example = view-make ten
