-- ===== src/SmallString/View.antt =====
-- What a small string gives back of the text that it was made from.
use cpp_examples.Prelude.{
  before_zero, ℕ, zero, suc, ◌≡◌, ◌∙◌, refl, ap, true, false, inl, inr, List, [], ◌∷◌, arith,
  length, take, replicate, min, ◌==◌, Bool-cases,
}
use cpp_examples.SmallString.{copy_n, make, size, view}

min-suc : (a b : ℕ) → min (suc a) (suc b) ≡ suc (min a b)
min-suc a b = omega arith

min-zero : (a : ℕ) → min a 0 ≡ 0
min-zero a = omega arith

zero-min : (a : ℕ) → min 0 a ≡ 0
zero-min a = omega arith

size-cons : (c : ℕ) (rest : List ℕ) → (c == 0) ≡ false → size (c ∷ rest) ≡ suc (size rest)
unfolding size
size-cons c rest e = rw (size, e) refl

size-zero : (c : ℕ) (rest : List ℕ) → (c == 0) ≡ true → size (c ∷ rest) ≡ 0
unfolding size
size-zero c rest e = rw (size, e) refl

view-cons : (c : ℕ) (rest : List ℕ) → (c == 0) ≡ false → view (c ∷ rest) ≡ c ∷ view rest
unfolding view
view-cons c rest e = ap (λ n. take n (c ∷ rest)) (size-cons c rest e)

view-zero : (c : ℕ) (rest : List ℕ) → (c == 0) ≡ true → view (c ∷ rest) ≡ []
unfolding view
view-zero c rest e = ap (λ n. take n (c ∷ rest)) (size-zero c rest e)

view-zeros : (k : ℕ) → view (replicate k 0) ≡ []
unfolding view size
view-zeros zero = refl
view-zeros (suc k) = refl

view-copy_n :
    (k : ℕ) (str : List ℕ)
    → view (copy_n (min (length str) k) str (replicate k 0)) ≡ before_zero (take k str)
unfolding copy_n before_zero
view-copy_n zero [] = view-zeros zero
view-copy_n zero (c ∷ str) =
    ap (λ m. view (copy_n m (c ∷ str) [])) (min-zero (suc (length str))) ∙ view-zeros zero
view-copy_n (suc k) [] =
    ap (λ m. view (copy_n m [] (replicate (suc k) 0))) (zero-min (suc k)) ∙ view-zeros (suc k)
view-copy_n (suc k) (c ∷ str) =
    let more = view-copy_n k str in
    ap (λ m. view (copy_n m (c ∷ str) (replicate (suc k) 0))) (min-suc (length str) k)
    ∙ elim (Bool-cases (c == 0)) [
      | inl e ↦ view-zero c _ e ∙ rw (before_zero, e) refl
      | inr e ↦ view-cons c _ e ∙ ap (λ l. c ∷ l) more ∙ rw (before_zero, e) refl
    ]

-- What a small string shows is the text it was made from, cut at eight bytes and at its first zero
-- byte.
pub view-make : (str : List ℕ) → view (make str) ≡ before_zero (take 8 str)
unfolding make
view-make str = view-copy_n 8 str
