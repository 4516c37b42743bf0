-- ===== src/ParticleFilter/Resampling.antt =====
-- What `resample` of cjunk/practice/geoParticleFilter.cc draws.
use cpp_examples.Prelude.{
  ℕ, zero, suc, ◌+◌, ◌<◌, ◌≤◌, ◌≡◌, ◌∙◌, refl, ap, subst, true, false, some, List, [], ◌∷◌, arith,
  length, get_elem?, get_elem?_total, inl, inr, Bool-cases,
}
use cpp_examples.Real.{Real}
use cpp_examples.ParticleFilter.Filter.{returned, cumulative, find_index, resample_from, resample}

from_zero : (j : ℕ) → 0 + j ≡ j
from_zero j = omega arith

module _ {Double : Type 0} ⦃real : Real Double⦄ where
  -- The number at `index` is the first one that is not less than `r`.
  pub record IsFirst (r : Double) (cs : List Double) (index : ℕ) : Type 0 where
    pub bound : Double
    pub there : get_elem? cs index ≡ some bound
    pub reached : real.less bound r ≡ false
    pub before : (m : ℕ) (c : Double) → m < index → get_elem? cs m ≡ some c → real.less c r ≡ true

  IsFirst-here : (r d : Double) (cs : List Double) → real.less d r ≡ false → IsFirst r (d ∷ cs) 0
  IsFirst-here r d cs h = record {
    bound = d;
    there = refl;
    reached = h;
    before = λ m c i j. absurd (omega arith);
  }

  before_later :
      (r d : Double) (cs : List Double) (index : ℕ)
      → real.less d r ≡ true
      → IsFirst r cs index
      → (m : ℕ) (c : Double) → m < suc index
      → get_elem? (d ∷ cs) m ≡ some c
      → real.less c r ≡ true
  before_later r d cs index h first zero c i j = cc
  before_later r d cs index h first (suc m) c i j = first.before m c (omega arith) j

  IsFirst-later :
      (r d : Double) (cs : List Double) (index : ℕ)
      → real.less d r ≡ true
      → IsFirst r cs index
      → IsFirst r (d ∷ cs) (suc index)
  IsFirst-later r d cs index h first = record {
    bound = first.bound;
    there = first.there;
    reached = first.reached;
    before = before_later r d cs index h first;
  }

  -- The loop ends at the latest at a number that is not less.
  find_index_total :
      (r : Double) (cs : List Double) (base k : ℕ) (c : Double)
      → get_elem? cs k ≡ some c
      → real.less c r ≡ false
      → (index : ℕ) × (find_index r cs base ≡ returned (base + index))
        × (index ≤ k)
        × IsFirst r cs index
  unfolding find_index
  find_index_total r [] base k c there reached = absurd cc
  find_index_total r (d ∷ cs) base zero c there reached =
      let here : real.less d r ≡ false = cc in
      (0, rw here (ap returned (omega arith)), omega arith, IsFirst-here r d cs here)
  find_index_total r (d ∷ cs) base (suc k) c there reached = elim (Bool-cases (real.less d r)) [
    | inl more ↦
        (let (index, found, below, first) = find_index_total r cs (base + 1) k c there reached in
          (
            suc index,
            rw (more, found) (ap returned (omega arith)),
            omega (arith, below),
            IsFirst-later r d cs index more first,
          ))
    | inr here ↦ (0, rw here (ap returned (omega arith)), omega arith, IsFirst-here r d cs here)
  ]

  -- What a turn draws for the number `r`.
  pub record IsDrawn {A : Type 0} (r : Double) (cs : List Double) (particles : List A) (p : A)
      : Type 0 where
    pub index : ℕ
    pub first : IsFirst r cs index
    pub particle : get_elem? particles index ≡ some p

  IsDrawn-next :
      {A : Type 0} (random : ℕ → Double) (cs : List Double) (particles : List A) (i : ℕ) (p : A)
      (ps : List A)
      → IsDrawn (random i) cs particles p
      → ((j : ℕ) (q : A) → get_elem? ps j ≡ some q → IsDrawn (random (i + 1 + j)) cs particles q)
      → (j : ℕ) (q : A) → get_elem? (p ∷ ps) j ≡ some q
      → IsDrawn (random (i + j)) cs particles q
  IsDrawn-next random cs particles i p ps drawn rest zero q h =
      let same : p ≡ q = cc in
      let turn : i ≡ i + 0 = omega arith in
      subst (λ n. IsDrawn (random n) cs particles q) turn
        (subst (λ r. IsDrawn (random i) cs particles r) same drawn)
  IsDrawn-next random cs particles i p ps drawn rest (suc j) q h =
      let turn : (i + 1 + j) ≡ i + suc j = omega arith in
      subst (λ n. IsDrawn (random n) cs particles q) turn (rest j q h)

  resample_from_total :
      {A : Type 0} (random : ℕ → Double) (cs : List Double) (particles : List A) (i turns k : ℕ)
      (c : Double)
      → get_elem? cs k ≡ some c
      → k < length particles
      → ((j : ℕ) → real.less c (random j) ≡ false)
      → (ps : List A) × (resample_from random cs particles i turns ≡ returned ps)
        × (length ps ≡ turns)
        × ((j : ℕ) (p : A) → get_elem? ps j ≡ some p → IsDrawn (random (i + j)) cs particles p)
  unfolding resample_from
  resample_from_total random cs particles i zero k c there room reached =
      ([], refl, refl, λ j p h. absurd cc)
  resample_from_total random cs particles i (suc turns) k c there room reached =
      let (index, found, below, first) = find_index_total (random i) cs 0 k c there (reached i) in
      let least : find_index (random i) cs 0 ≡ returned index = found ∙ ap returned (omega arith) in
      let (p, chosen) = get_elem?_total particles index (omega arith) in
      let (ps, done, size, rest) =
        resample_from_total random cs particles (i + 1) turns k c there room reached in
      let drawn : IsDrawn (random i) cs particles p = record {
        index = index;
        first = first;
        particle = chosen;
      } in
      (
        p ∷ ps,
        rw (least, chosen, done) refl,
        ap suc size,
        IsDrawn-next random cs particles i p ps drawn rest,
      )

  -- Let some cumulative weight, with a particle at its place, be less than no random number. Then
  -- `resample` makes no access out of bounds and gives as many particles as there are, each the one at
  -- the first cumulative weight that is not less than the random number of its turn.
  pub resample-IsDrawn :
      {A : Type 0} (random : ℕ → Double) (particles : List A) (weights cs : List Double) (k : ℕ)
      (c : Double)
      → cumulative weights ≡ returned cs
      → get_elem? cs k ≡ some c
      → k < length particles
      → ((j : ℕ) → real.less c (random j) ≡ false)
      → (ps : List A) × (resample random particles weights ≡ returned ps)
        × (length ps ≡ length particles)
        × ((j : ℕ) (p : A) → get_elem? ps j ≡ some p → IsDrawn (random j) cs particles p)
  unfolding resample
  resample-IsDrawn random particles weights cs k c sums there room reached =
      let (ps, done, size, drawn) =
        resample_from_total random cs particles 0 (length particles) k c there room reached in
      (
        ps,
        rw (sums, done) refl,
        size,
        λ j p h. subst (λ n. IsDrawn (random n) cs particles p) (from_zero j) (drawn j p h),
      )
