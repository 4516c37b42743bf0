-- ===== src/Fourier/Collected.antt =====
-- The loops of middleware/src/stupid_fft.h against `map`.
use cpp_examples.Prelude.{
  ℕ, zero, suc, ◌+◌, some, List, [], ◌∷◌, length, get_elem?, ◌≡◌, refl, subst, map, arith,
}
use cpp_examples.Fourier.{each}

module _ {A B : Type 0} (f : A → B) where
  -- The head of a list that is read from its second entry on does not matter.
  each-cons :
      (x : A) (xs : List A) (i count : ℕ) → each f (x ∷ xs) (i + 1) count ≡ each f xs i count
  unfolding each
  each-cons x xs i zero = refl
  each-cons x xs i (suc count) =
      let next : i + 1 ≡ suc i = omega arith in
      let found : get_elem? (x ∷ xs) (i + 1) ≡ get_elem? xs i = rw next refl in
      simp (found, each-cons x xs (i + 1) count)

  each-all : (xs : List A) → each f xs 0 (length xs) ≡ some (map f xs)
  unfolding each
  each-all [] = refl
  each-all (x ∷ xs) = simp (each-cons x xs 0 (length xs), each-all xs)

  pub each-length :
      (xs : List A) (count : ℕ) → length xs ≡ count → each f xs 0 count ≡ some (map f xs)
  each-length xs count same = subst (λ n. each f xs 0 n ≡ some (map f xs)) same (each-all xs)
