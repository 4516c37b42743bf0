-- ===== src/MaxProfit/Best.antt =====
-- The result of cjunk/practice/financialAnalysis.cc against all pairs of prices.
use cpp_examples.Prelude.{
  ℕ, zero, suc, ◌+◌, ◌-◌, ◌^◌, ◌≤◌, ◌<◌, ◌≡◌, ◌∙◌, refl, true, false, some, List, [], ◌∷◌, ◌⊎◌, inl,
  inr, map, arith, get_elem?, ltb, lt→ltb, dec_lt, ap, take, length, length-map, ◌==◌, ◌%◌,
}
use cpp_examples.Prelude.Int.{pos, ◌-ℤ◌}
use cpp_examples.MaxProfit.{
  less, checked, maximum, step, to_int, is_zero, passes, profit_of, profit_from, max_profit,
}

-- A purchase and a later sale, with their prices.
pub record IsTrade (prices : List ℕ) (i j a b : ℕ) : Type 0 where
  pub later : i < j
  pub bought : get_elem? prices i ≡ some a
  pub sold : get_elem? prices j ≡ some b

abbrev pub HasTrade : List ℕ → ℕ → Type 0
HasTrade prices best =
    (i : ℕ) × (j : ℕ) × (a : ℕ) × (b : ℕ) × IsTrade prices i j a b × (b ≡ a + best)

abbrev Reached : ℕ → ℕ → List ℕ → ℕ → Type 0
Reached min_price start prices best =
    (best ≡ start)
    ⊎ (((j : ℕ) × (b : ℕ) × (get_elem? prices j ≡ some b) × (b ≡ min_price + best))
        ⊎ HasTrade prices best)

-- No price after the others gives more than `best` over `min_price` or over an earlier one, and some
-- price gives that, if `best` is not `start`.
record IsBest (min_price start : ℕ) (prices : List ℕ) (best : ℕ) : Type 0 where
  start_below : start ≤ best
  over_minimum : (j b : ℕ) → get_elem? prices j ≡ some b → b ≤ min_price + best
  over_earlier : (i j a b : ℕ) → IsTrade prices i j a b → b ≤ a + best
  reached : Reached min_price start prices best

abbrev pub AreBelow : List ℕ → Type 0
AreBelow [] = Unit {0}
AreBelow (p ∷ ps) = (p < 2 ^ 31) × AreBelow ps

step-lower : (m best p : ℕ) → p < m → step (pos m) (pos best) (pos p) ≡ some (pos p, pos best)
unfolding step less
step-lower m best p h = rw (lt→ltb p m h) refl

difference_pos : (p m : ℕ) → m ≤ p → (pos p -ℤ pos m) ≡ pos (p - m)
unfolding ◌-ℤ◌
difference_pos p m h = ground arith

step-higher :
    (m best p : ℕ)
    → m ≤ p
    → p < 2 ^ 31
    → (next : ℕ) × (step (pos m) (pos best) (pos p) ≡ some (pos m, pos next))
      × (best ≤ next)
      × (p ≤ m + next)
      × ((next ≡ best) ⊎ (p ≡ m + next))
unfolding step less maximum checked
step-higher m best p h below =
    let higher : ltb p m ≡ false = ground arith in
    let small : ltb (p - m) (2 ^ 31) ≡ true = lt→ltb (p - m) (2 ^ 31) (omega arith) in
    elim (dec_lt best (p - m)) [
      | yes l ↦
          (let more : ltb best (p - m) ≡ true = lt→ltb best (p - m) l in
            (
              p - m,
              rw (higher, difference_pos p m h, small, more) refl,
              omega (arith, l),
              omega arith,
              inr (omega arith),
            ))
      | no l ↦
          (let less_more : ltb best (p - m) ≡ false = ground (arith, l) in
            (
              best,
              rw (higher, difference_pos p m h, small, less_more) refl,
              omega arith,
              omega (arith, l),
              inl refl,
            ))
    ]

nothing_sold : (j b : ℕ) → get_elem? {A = ℕ} [] j ≡ some b → ⊥
nothing_sold j b h = cc

-- The trades after one more price are those before, and a sale of what was bought at that price.
IsTrade-later :
    (p : ℕ) (ps : List ℕ) (i j a b : ℕ) → IsTrade ps i j a b → IsTrade (p ∷ ps) (suc i) (suc j) a b
IsTrade-later p ps i j a b t = record {
  later = omega (arith, t.later);
  bought = t.bought;
  sold = t.sold;
}

over_earlier-cons :
    (p : ℕ) (ps : List ℕ) (r : ℕ)
    → ((j b : ℕ) → get_elem? ps j ≡ some b → b ≤ p + r)
    → ((i j a b : ℕ) → IsTrade ps i j a b → b ≤ a + r)
    → (i j a b : ℕ) → IsTrade (p ∷ ps) i j a b
    → b ≤ a + r
over_earlier-cons p ps r first others i zero a b t = absurd (omega (arith, t.later))
over_earlier-cons p ps r first others zero (suc j) a b t =
    let same : p ≡ a = cc in let bound = first j b (t.sold) in omega arith
over_earlier-cons p ps r first others (suc i) (suc j) a b t =
    others i j a b (record { later = omega (arith, t.later); bought = t.bought; sold = t.sold })

over_minimum-cons :
    (m p : ℕ) (ps : List ℕ) (r : ℕ)
    → p ≤ m + r
    → ((j b : ℕ) → get_elem? ps j ≡ some b → b ≤ m + r)
    → (j b : ℕ) → get_elem? (p ∷ ps) j ≡ some b
    → b ≤ m + r
over_minimum-cons m p ps r h others zero b t = let same : p ≡ b = cc in omega arith
over_minimum-cons m p ps r h others (suc j) b t = others j b t

Reached-trade :
    (start p : ℕ) (ps : List ℕ) (best : ℕ)
    → Reached p start ps best
    → (best ≡ start) ⊎ HasTrade (p ∷ ps) best
Reached-trade start p ps best (inl e) = inl e
Reached-trade start p ps best (inr (inl (j, b, there, e))) =
    inr (0, suc j, p, b, record { later = omega arith; bought = refl; sold = there }, e)
Reached-trade start p ps best (inr (inr (i, j, a, b, t, e))) =
    inr (suc i, suc j, a, b, IsTrade-later p ps i j a b t, e)

Reached-higher :
    (m start next p : ℕ) (ps : List ℕ) (best : ℕ)
    → (next ≡ start) ⊎ (p ≡ m + next)
    → Reached m next ps best
    → Reached m start (p ∷ ps) best
Reached-higher m start next p ps best (inl f) (inl e) = inl (e ∙ f)
Reached-higher m start next p ps best (inr f) (inl e) = inr (inl (0, p, refl, omega arith))
Reached-higher m start next p ps best f (inr (inl (j, b, there, e))) =
    inr (inl (suc j, b, there, e))
Reached-higher m start next p ps best f (inr (inr (i, j, a, b, t, e))) =
    inr (inr (suc i, suc j, a, b, IsTrade-later p ps i j a b t, e))

profit_from-IsBest :
    (m start : ℕ) (ps : List ℕ)
    → AreBelow ps
    → (best : ℕ) × (profit_from (pos m) (pos start) (map pos ps) ≡ some (pos best))
      × IsBest m start ps best
unfolding profit_from
profit_from-IsBest m start [] below = (
  start,
  refl,
  record {
    start_below = omega arith;
    over_minimum = λ j b t. absurd cc;
    over_earlier = λ i j a b t. absurd (nothing_sold j b (t.sold));
    reached = inl refl;
  },
)
profit_from-IsBest m start (p ∷ ps) (p_below, below) = elim (dec_lt p m) [
  | yes l ↦
      (let (best, done, ih) = profit_from-IsBest p start ps below in
        let bound =
          over_minimum-cons m p ps best (omega (arith, l))
            (λ j b t. let bound = ih.over_minimum j b t in omega (arith, l)) in
        (
          best,
          rw (step-lower m start p l, done) refl,
          record {
            start_below = ih.start_below;
            over_minimum = bound;
            over_earlier = over_earlier-cons p ps best (ih.over_minimum) (ih.over_earlier);
            reached = elim (Reached-trade start p ps best (ih.reached)) [
              | inl e ↦ inl e
              | inr trade ↦ inr (inr trade)
            ];
          },
        ))
  | no l ↦
      (let (next, taken, more, over, which) = step-higher m start p (omega (arith, l)) p_below in
        let (best, done, ih) = profit_from-IsBest m next ps below in
        let better = ih.start_below in
        (
          best,
          rw (taken, done) refl,
          record {
            start_below = omega arith;
            over_minimum = over_minimum-cons m p ps best (omega arith) (ih.over_minimum);
            over_earlier =
                over_earlier-cons p ps best
                  (λ j b t. let bound = ih.over_minimum j b t in omega (arith, l))
                  (ih.over_earlier);
            reached = Reached-higher m start next p ps best which (ih.reached);
          },
        ))
]

take-map : (ps : List ℕ) → take (length ps) (map pos ps) ≡ map pos ps
take-map [] = refl
take-map (p ∷ ps) = ap (λ rest. pos p ∷ rest) (take-map ps)

max_profit-cons :
    (p : ℕ) (ps : List ℕ)
    → length (p ∷ ps) < 2 ^ 31
    → max_profit (map pos (p ∷ ps)) ≡ profit_from (pos p) (pos 0) (map pos ps)
unfolding max_profit profit_of passes to_int is_zero
max_profit-cons p ps few =
    let same = length-map pos (p ∷ ps) in
    let word : length (map pos (p ∷ ps)) % 2 ^ 32 ≡ suc (length ps) = omega (arith, same) in
    let small : ltb (suc (length ps)) (2 ^ 31) ≡ true = lt→ltb _ _ few in
    let some_price : (suc (length ps) == 0) ≡ false = ground arith in
    let whole : take (suc (length ps) - 1) (map pos ps) ≡ map pos ps =
      ap (λ k. take k (map pos ps)) (omega arith) ∙ take-map ps in
    rw (word, small, some_price, whole) refl

-- For fewer than 2 ^ 31 prices of `int` that are not negative the result is there; no purchase with a later sale gives
-- more, and it is 0 or what some purchase with a later sale gives.
pub max_profit-Best :
    (prices : List ℕ)
    → AreBelow prices
    → length prices < 2 ^ 31
    → (best : ℕ) × (max_profit (map pos prices) ≡ some (pos best))
      × ((i j a b : ℕ) → IsTrade prices i j a b → b ≤ a + best)
      × ((best ≡ 0) ⊎ HasTrade prices best)
unfolding max_profit to_int is_zero
max_profit-Best [] below few =
    (0, refl, (λ i j a b t. absurd (nothing_sold j b (t.sold))), inl refl)
max_profit-Best (p ∷ ps) (p_below, below) few =
    let (best, done, ih) = profit_from-IsBest p 0 ps below in
    (
      best,
      max_profit-cons p ps few ∙ done,
      over_earlier-cons p ps best (ih.over_minimum) (ih.over_earlier),
      Reached-trade 0 p ps best (ih.reached),
    )
