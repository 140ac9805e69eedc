-- ===== src/Sandwich/Profit.antt =====
-- utils/profit_calculator.go: the amounts of a sandwich. `none` is a nil pointer. The pool has the
-- reserves that the calculator reads of it.
use profit_monopoly.Prelude.{Option, Run, none, ok, or_err, some, ℕ, ◌>>=◌}
use profit_monopoly.Int.{div, pos, ℤ, ◌*ℤ◌, ◌+ℤ◌, ◌-ℤ◌}

pub record PoolConfig : Type 0 where
  pub token0 : ℕ
  pub token1 : ℕ
  pub reserve0 : Option ℤ
  pub reserve1 : Option ℤ

-- The configuration, as far as the calculator reads it.
pub record ProfitCalculator : Type 0 where
  pub gas_price : Option ℤ

pub data ProfitError : Type 0 where
  not_initialized invalid_parameters : ProfitError
  price_impact_failed output_amount_failed gas_cost_failed : ProfitError

-- CalculateOptimalFrontrunAmount: 20 percent of the victim's amount.
unfoldable pub calculate_optimal_frontrun_amount :
    Option ProfitCalculator → Option PoolConfig → Option ℤ → Run ProfitError ℤ
calculate_optimal_frontrun_amount calculator pool victim_amount = do
  _ ← or_err calculator not_initialized
  _ ← or_err pool invalid_parameters
  victim ← or_err victim_amount invalid_parameters
  div (victim *ℤ pos 20) (pos 100)

-- calculatePriceImpact, for pointers that are not nil.
unfoldable pub calculate_price_impact : ℤ → ℤ → ℤ → Run ProfitError ℤ
calculate_price_impact reserve0 reserve1 amount = div (amount *ℤ pos 10000) reserve0

-- calculateOutputAmount, for pointers that are not nil.
unfoldable pub calculate_output_amount : ℤ → ℤ → ℤ → Run ProfitError ℤ
calculate_output_amount reserve0 reserve1 amount_in =
    div (amount_in *ℤ reserve1) (reserve0 +ℤ amount_in)

-- calculateGasCost
unfoldable pub calculate_gas_cost : Option ℤ → Option ℤ
calculate_gas_cost none = none
calculate_gas_cost (some gas_price) = some (gas_price *ℤ pos 300000)

-- CalculateExpectedProfit. A nil reserve makes the price impact nil.
unfoldable pub calculate_expected_profit :
    Option ProfitCalculator → Option PoolConfig → Option ℤ → Option ℤ → Run ProfitError ℤ
unfolding calculate_price_impact calculate_output_amount calculate_gas_cost
calculate_expected_profit calculator pool frontrun_amount victim_amount = do
  c ← or_err calculator not_initialized
  p ← or_err pool invalid_parameters
  amount ← or_err frontrun_amount invalid_parameters
  _ ← or_err victim_amount invalid_parameters
  reserve0 ← or_err p.reserve0 price_impact_failed
  reserve1 ← or_err p.reserve1 price_impact_failed
  _ ← calculate_price_impact reserve0 reserve1 amount
  output_amount ← calculate_output_amount reserve0 reserve1 amount
  gas_cost ← or_err (calculate_gas_cost c.gas_price) gas_cost_failed
  ok (output_amount -ℤ amount -ℤ gas_cost)
