-- ===== src/MaxProfit/Tests.antt =====
-- The prices of `main` in cjunk/practice/financialAnalysis.cc, and prices that `int` cannot subtract.
use cpp_examples.Prelude.{ℕ, ◌+◌, ◌≤◌, ◌≡◌, refl, none, some, List, [], ◌∷◌, ◌⊎◌, map, arith}
use cpp_examples.Prelude.Int.{pos, negsuc, ◌-ℤ◌}
use cpp_examples.MaxProfit.{
  less, checked, maximum, step, profit_from, profit_of, passes, to_int, is_zero, max_profit,
}
use cpp_examples.MaxProfit.Best.{IsTrade, HasTrade, max_profit-Best}

abbrev prices : List ℕ
prices = 7 ∷ 1 ∷ 5 ∷ 3 ∷ 6 ∷ 4 ∷ []

five : max_profit (map pos prices) ≡ some (pos 5)
unfolding max_profit profit_of passes to_int is_zero profit_from step less checked maximum ◌-ℤ◌
five = refl

overflow : max_profit (negsuc 0 ∷ pos 2147483647 ∷ []) ≡ none
unfolding max_profit profit_of passes to_int is_zero profit_from step less checked maximum ◌-ℤ◌
overflow = refl

max_profit-Best_example :
    (best : ℕ) × (max_profit (map pos prices) ≡ some (pos best))
    × ((i j a b : ℕ) → IsTrade prices i j a b → b ≤ a + best)
    × ((best ≡ 0) ⊎ HasTrade prices best)
max_profit-Best_example =
    max_profit-Best prices
      (omega arith, (omega arith, (omega arith, (omega arith, (omega arith, (omega arith, tt))))))
      (omega arith)
