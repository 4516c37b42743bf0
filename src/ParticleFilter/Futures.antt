-- ===== src/ParticleFilter/Futures.antt =====
-- The futures of `run_pf` in cjunk/practice/geoParticleFilter.cc.
use cpp_examples.Prelude.{
  ℕ, zero, suc, ◌+◌, ◌≡◌, ◌≢◌, refl, ap, sym, subst, Option, some, List, [], ◌∷◌, length, get_elem?,
  set, map, replicate, length-replicate,
}
use cpp_examples.Prelude.Int.{ℤ}
use cpp_examples.Real.{Real}
use cpp_examples.ParticleFilter.Particle.{Model, LandmarkObs, Particle, make_particle}
use cpp_examples.ParticleFilter.Filter.{
  Outcome, returned, thrown, undefined, or_undefined, ◌>>=◌, Future, consumed, get, get_all,
  normalize, resample, Printed, launch, iterate, run_pf,
}

-- What holds of the result, if there is one.
abbrev Ensures : {A : Type 0} → (A → Type 0) → Outcome A → Type 0
Ensures P (returned a) = P a
Ensures P thrown = Unit {0}
Ensures P undefined = Unit {0}

bind-Ensures :
    {A B : Type 0} (P : A → Type 0) (Q : B → Type 0) (o : Outcome A) (f : A → Outcome B)
    → Ensures P o
    → ((a : A) → P a → Ensures Q (f a))
    → Ensures Q (o >>= f)
bind-Ensures P Q (returned a) f h i = i a h
bind-Ensures P Q thrown f h i = tt
bind-Ensures P Q undefined f h i = tt

then-Ensures :
    {A B : Type 0} (Q : B → Type 0) (o : Outcome A) (f : A → Outcome B)
    → ((a : A) → Ensures Q (f a))
    → Ensures Q (o >>= f)
then-Ensures Q (returned a) f i = i a
then-Ensures Q thrown f i = tt
then-Ensures Q undefined f i = tt

undefined-Ensures :
    {A B : Type 0} (Q : B → Type 0) (o : Outcome A) (f : A → Outcome B)
    → o ≡ undefined
    → Ensures Q (o >>= f)
undefined-Ensures Q o f h = subst (λ o. Ensures Q (o >>= f)) (sym h) tt

Ensures-Impossible :
    {A : Type 0} (o : Outcome A) (a : A) → Ensures (λ (x : A). ⊥) o → o ≢ returned a
Ensures-Impossible (returned b) a h i = h
Ensures-Impossible thrown a h i = absurd cc
Ensures-Impossible undefined a h i = absurd cc

set_keeps :
    {A : Type 0} (xs : List A) (j m : ℕ) (x : A)
    → get_elem? xs m ≡ some x
    → get_elem? (set xs j x) m ≡ some x
set_keeps [] j m x h = h
set_keeps (y ∷ ys) zero zero x h = refl
set_keeps (y ∷ ys) zero (suc m) x h = h
set_keeps (y ∷ ys) (suc j) zero x h = h
set_keeps (y ∷ ys) (suc j) (suc m) x h = set_keeps ys j m x h

-- The calls of `get` give a particle each, and a future that was consumed stays so.
abbrev Keeps : {A : Type 0} → ℕ → ℕ → List A × List (Future A) → Type 0
Keeps count m (particles, after) = (length particles ≡ count) × (get_elem? after m ≡ some consumed)

get_all-Keeps :
    {A : Type 0} (futures : List (Future A)) (j count m : ℕ)
    → get_elem? futures m ≡ some consumed
    → Ensures (Keeps count m) (get_all futures j count)
unfolding get_all
get_all-Keeps futures j zero m h = (refl, h)
get_all-Keeps futures j (suc count) m h =
    then-Ensures (Keeps (suc count) m) (or_undefined (get_elem? futures j)) _ λ future.
      then-Ensures (Keeps (suc count) m) (get future) _ λ particle.
        bind-Ensures (Keeps count m) (Keeps (suc count) m)
          (get_all (set futures j consumed) (j + 1) count) _
          (get_all-Keeps (set futures j consumed) (j + 1) count m
            (set_keeps futures j m consumed h))
          (λ (particles, after) (size, kept). (ap suc size, kept))

get_all-first :
    {A : Type 0} (futures : List (Future A)) (count : ℕ)
    → Ensures (Keeps (suc count) 0) (get_all futures 0 (suc count))
unfolding get_all
get_all-first [] count = tt
get_all-first (f ∷ futures) count = then-Ensures (Keeps (suc count) 0) (get f) _ λ particle.
    bind-Ensures (Keeps count 0) (Keeps (suc count) 0) (get_all (consumed ∷ futures) (0 + 1) count)
      _ (get_all-Keeps (consumed ∷ futures) (0 + 1) count 0 refl)
      (λ (particles, after) (size, kept). (ap suc size, kept))

module _ {Double Map : Type 0} ⦃real : Real Double⦄ (at : Map → ℤ → Option (Double × Double)) where
  -- The first `get` of a turn is on a future of the turn before.
  second_turn :
      (observations : List (LandmarkObs Double)) (landmarks : Map) (model : Model Double)
      (random : ℕ → ℕ → Double) (particles : List (Particle Double Map))
      (futures : List (Future (Particle Double Map))) (count i turns : ℕ)
      → length particles ≡ suc count
      → get_elem? futures 0 ≡ some consumed
      → iterate at observations landmarks model random particles futures i (suc turns) ≡ undefined
  unfolding iterate get_all
  second_turn observations landmarks model random particles [] count i turns size h = absurd cc
  second_turn observations landmarks model random particles (f ∷ futures) count i turns size h =
      let used : f ≡ consumed = cc in rw (size, used) refl

  two_turns :
      (observations : List (LandmarkObs Double)) (landmarks : Map) (model : Model Double)
      (random : ℕ → ℕ → Double) (particles : List (Particle Double Map)) (count i turns : ℕ)
      → length particles ≡ suc count
      → Ensures
          (λ (r : List (Printed at)). ⊥)
          (iterate at observations landmarks model random particles [] i (suc (suc turns)))
  unfolding iterate
  two_turns observations landmarks model random particles count i turns size = rw size (
      bind-Ensures (Keeps (suc count) 0) (λ r. ⊥)
        (get_all (launch at particles model observations landmarks) 0 (suc count)) _
        (get_all-first (launch at particles model observations landmarks) count)
        (λ (updated, after) (same, used).
          then-Ensures (λ r. ⊥)
            (resample (random i) updated (normalize (map (λ p. p.weight) updated))) _
            (λ resampled.
              let fault =
                second_turn observations landmarks model random updated after count (i + 1) turns
                  same used in
              undefined-Ensures (λ r. ⊥) _ _ fault)))

  -- With at least one particle and at least two iterations, `run_pf` never returns: some `get` throws,
  -- or there is undefined behaviour.
  pub run_pf-Undefined :
      (observations : List (LandmarkObs Double)) (landmarks : Map) (model : Model Double)
      (random : ℕ → ℕ → Double) (count turns : ℕ) (printed : List (Printed at))
      → run_pf at observations landmarks model random (suc count) (suc (suc turns))
        ≢ returned printed
  unfolding run_pf
  run_pf-Undefined observations landmarks model random count turns printed =
      Ensures-Impossible _ printed (
        two_turns observations landmarks model random
          (replicate (suc count) (make_particle at landmarks)) count 0 turns
          (length-replicate (suc count) (make_particle at landmarks)))
