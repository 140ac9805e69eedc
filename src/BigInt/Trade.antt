-- ===== src/BigInt/Trade.antt =====
-- utils/math/bigint.go: price impact, trade sizing, profit estimates and flash loan fees.
pub mod Bounds
use profit_monopoly.Prelude.{Bool, false, if◌then◌else◌, ◌||◌}
use profit_monopoly.Int.{euclid, is_zero, ltb_ℤ, pos, ℤ, ◌*ℤ◌, ◌+ℤ◌, ◌-ℤ◌}

abbrev pub precision : ℤ
precision = pos 1000000000000000000

-- CalculatePriceImpact: amount * 100 * precision / poolDepth, and 0 for an empty pool.
unfoldable pub calculate_price_impact : ℤ → ℤ → ℤ
calculate_price_impact amount pool_depth =
    if is_zero pool_depth then pos 0 else euclid (amount *ℤ pos 100 *ℤ precision) pool_depth

-- The estimated gas limit of one swap.
abbrev pub swap_gas : ℤ
swap_gas = pos 500000

-- What CalculateOptimalAmount has left after slippage and gas.
unfoldable pub amount_after_costs : ℤ → ℤ → ℤ → ℤ
amount_after_costs balance gas_price slippage_tolerance =
    euclid (balance *ℤ (pos 100 -ℤ slippage_tolerance)) (pos 100) -ℤ gas_price *ℤ swap_gas

-- CalculateOptimalAmount
unfoldable pub calculate_optimal_amount : ℤ → ℤ → ℤ → ℤ → ℤ
calculate_optimal_amount balance gas_price slippage_tolerance min_profit =
    if is_zero balance
    then pos 0
    else let max_amount = amount_after_costs balance gas_price slippage_tolerance in
      if ltb_ℤ max_amount min_profit then pos 0 else max_amount

-- EstimateProfitability
unfoldable pub estimate_profitability : ℤ → ℤ → ℤ → ℤ → ℤ → ℤ
estimate_profitability amount buy_price sell_price gas_price pool_depth =
    if is_zero amount || is_zero buy_price || is_zero sell_price
    then pos 0
    else let buy_amount = amount *ℤ buy_price in
      let price_impact = calculate_price_impact amount pool_depth in
      let sell_amount = amount *ℤ sell_price -ℤ price_impact in
      sell_amount -ℤ buy_amount -ℤ gas_price *ℤ swap_gas

-- IsArbitrageProfitable
unfoldable pub is_arbitrage_profitable : ℤ → ℤ → ℤ → Bool
is_arbitrage_profitable profit gas_price min_profit =
    if is_zero profit then false else ltb_ℤ (gas_price *ℤ swap_gas +ℤ min_profit) profit

-- CalculateFlashLoanFee: the rate is in basis points.
unfoldable pub calculate_flash_loan_fee : ℤ → ℤ → ℤ
calculate_flash_loan_fee amount fee_rate =
    if is_zero amount then pos 0 else euclid (amount *ℤ fee_rate) (pos 10000)

-- CrossExchangeArbitrage
unfoldable pub cross_exchange_arbitrage : ℤ → ℤ → ℤ → ℤ → ℤ → ℤ → ℤ
cross_exchange_arbitrage amount_in source_price target_price source_liquidity target_liquidity
      gas_price =
    if is_zero amount_in || is_zero source_price || is_zero target_price
    then pos 0
    else let source_impact = calculate_price_impact amount_in source_liquidity in
      let source_output = amount_in *ℤ source_price -ℤ source_impact in
      let target_impact = calculate_price_impact source_output target_liquidity in
      let target_output = source_output *ℤ target_price -ℤ target_impact in
      target_output -ℤ amount_in -ℤ gas_price *ℤ pos 1000000

-- JustInTimeLiquidation: the bid and the expected profit.
unfoldable pub just_in_time_liquidation : ℤ → ℤ → ℤ → ℤ → ℤ → ℤ × ℤ
just_in_time_liquidation debt_amount collateral_amount collateral_price liquidation_bonus
      gas_price =
    if is_zero debt_amount || is_zero collateral_amount || is_zero collateral_price
    then (pos 0, pos 0)
    else let collateral_value = collateral_amount *ℤ collateral_price in
      let bonus = euclid (collateral_value *ℤ liquidation_bonus) (pos 10000) in
      let bid_amount = debt_amount +ℤ pos 1 in
      (bid_amount, collateral_value +ℤ bonus -ℤ bid_amount -ℤ gas_price *ℤ swap_gas)
