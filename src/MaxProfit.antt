-- ===== src/MaxProfit.antt =====
-- `Solution::maxProfit` of cjunk/practice/financialAnalysis.cc. A difference that `int` does not hold is
-- undefined behaviour, `none`.
pub mod Best
mod Tests
use cpp_examples.Prelude.{
  ℕ, zero, suc, ◌+◌, ◌-◌, ◌^◌, Bool, true, false, Option, none, some, List, [], ◌∷◌, length, take,
  ltb, ◌==◌, ◌%◌, if◌then◌else◌, ◌>>=◌,
}
use cpp_examples.Prelude.Int.{ℤ, pos, negsuc, ◌-ℤ◌}

-- `a < b`
unfoldable pub less : ℤ → ℤ → Bool
less (pos a) (pos b) = ltb a b
less (pos a) (negsuc b) = false
less (negsuc a) (pos b) = true
less (negsuc a) (negsuc b) = ltb b a

-- A value of `int`.
unfoldable pub checked : ℤ → Option ℤ
checked (pos n) = if ltb n (2 ^ 31) then some (pos n) else none
checked (negsuc n) = if ltb n (2 ^ 31) then some (negsuc n) else none

-- `n == 0`
unfoldable pub is_zero : ℤ → Bool
is_zero (pos n) = n == 0
is_zero (negsuc n) = false

-- `max(a, b)`
unfoldable pub maximum : ℤ → ℤ → ℤ
maximum a b = if less a b then b else a

-- `min_price` and `max_profit` after one more price.
unfoldable pub step : ℤ → ℤ → ℤ → Option (ℤ × ℤ)
step min_price max_profit price =
    if less price min_price
    then some (price, max_profit)
    else (do profit ← checked (price -ℤ min_price); some (min_price, maximum max_profit profit))

-- `int n = prices.size()`: the 32 bits of the size, read with a sign.
unfoldable pub to_int : ℕ → ℤ
to_int size =
    let word = size % 2 ^ 32 in if ltb word (2 ^ 31) then pos word else negsuc (2 ^ 32 - 1 - word)

-- How many passes a loop from 1 on makes while `i < n`.
unfoldable pub passes : ℤ → ℕ
passes (pos n) = n - 1
passes (negsuc n) = 0

-- The loop.
unfoldable pub profit_from : ℤ → ℤ → List ℤ → Option ℤ
profit_from min_price max_profit [] = some max_profit
profit_from min_price max_profit (price ∷ prices) = do
  (lowest, best) ← step min_price max_profit price
  profit_from lowest best prices

-- Behind the test of `n`: `prices[0]`, and the loop over the prices from 1 to `n - 1`.
unfoldable pub profit_of : ℤ → List ℤ → Option ℤ
profit_of n [] = none
profit_of n (price ∷ prices) = profit_from price (pos 0) (take (passes n) prices)

unfoldable pub max_profit : List ℤ → Option ℤ
max_profit prices =
    let n = to_int (length prices) in if is_zero n then some (pos 0) else profit_of n prices
