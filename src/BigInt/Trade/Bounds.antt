-- ===== src/BigInt/Trade/Bounds.antt =====
-- utils/math/bigint.go: what the trade calculations guarantee on amounts that are not negative.
use profit_monopoly.Prelude.{
  arith, if◌then◌else◌, leb, suc, true, zero, ℕ, ◌*◌, ◌+◌, ◌-◌, ◌/◌, ◌<◌, ◌==◌, ◌||◌, ◌↔◌, ◌≡◌, ◌≤◌,
}
use profit_monopoly.Int.{euclid, pos, sub_ℕ, ◌+ℤ◌, ◌-ℤ◌, ◌<ℤ◌, ◌≤ℤ◌}
use profit_monopoly.BigInt.Trade.{
  amount_after_costs, calculate_flash_loan_fee, calculate_optimal_amount, calculate_price_impact,
  estimate_profitability, is_arbitrage_profitable, just_in_time_liquidation,
}
use profit_monopoly.Int.Laws.{*ℤ-pos, +ℤ-pos, -ℤ-pos, -ℤ-sub_ℕ, -ℤ_parts, pos-eq-sub_ℕ}

-- On a balance, a gas price and a minimal profit that are not negative, and a slippage of at most
-- 100 percent, CalculateOptimalAmount is the balance less slippage and gas if that reaches the
-- minimal profit, and 0 otherwise; no difference is ever taken below 0.
pub calculate_optimal_amount_lem :
    (balance gas_price slippage min_profit : ℕ)
    → slippage ≤ 100
    → calculate_optimal_amount (pos balance) (pos gas_price) (pos slippage) (pos min_profit) ≡ (
        let kept = balance * (100 - slippage) / 100 in
        let gas = gas_price * 500000 in pos (if leb (gas + min_profit) kept then kept - gas else 0))
unfolding calculate_optimal_amount amount_after_costs ◌-ℤ◌ euclid
calculate_optimal_amount_lem balance gas_price slippage min_profit h =
    simp (-ℤ-pos 100 slippage h, *ℤ-pos) (ground arith)

-- The price impact of an amount, as a natural number.
abbrev pub impact : ℕ → ℕ → ℕ
impact amount pool_depth =
    if pool_depth == 0 then 0 else amount * 100 * 1000000000000000000 / pool_depth

pub calculate_price_impact-pos :
    (amount pool_depth : ℕ)
    → calculate_price_impact (pos amount) (pos pool_depth) ≡ pos (impact amount pool_depth)
unfolding calculate_price_impact euclid
calculate_price_impact-pos amount pool_depth = simp *ℤ-pos (ground arith)

-- The estimate as one difference of natural numbers.
pub estimate_profitability-pos :
    (amount buy_price sell_price gas_price pool_depth : ℕ)
    → estimate_profitability
        (pos amount)
        (pos buy_price)
        (pos sell_price)
        (pos gas_price)
        (pos pool_depth)
      ≡ (if amount == 0 || buy_price == 0 || sell_price == 0
          then pos 0
          else sub_ℕ
              (amount * sell_price)
              (impact amount pool_depth + amount * buy_price + gas_price * 500000))
unfolding estimate_profitability
estimate_profitability-pos amount buy_price sell_price gas_price pool_depth =
    simp (calculate_price_impact-pos, *ℤ-pos)
      (rw (pos-eq-sub_ℕ (amount * sell_price)) (simp -ℤ-sub_ℕ (ground arith)))

-- The estimate for an empty pool is at least that for any other pool: the price impact of a trade
-- in a pool without liquidity is taken to be 0.
pub estimate_profitability-le_empty :
    (amount buy_price sell_price gas_price pool_depth : ℕ)
    → estimate_profitability
        (pos amount)
        (pos buy_price)
        (pos sell_price)
        (pos gas_price)
        (pos pool_depth)
      ≤ℤ estimate_profitability
          (pos amount)
          (pos buy_price)
          (pos sell_price)
          (pos gas_price)
          (pos 0)
estimate_profitability-le_empty amount buy_price sell_price gas_price pool_depth =
    simp estimate_profitability-pos (ground arith)

calculate_flash_loan_fee-pos :
    (amount rate : ℕ)
    → calculate_flash_loan_fee (pos amount) (pos rate) ≡ pos (amount * rate / 10000)
unfolding calculate_flash_loan_fee euclid
calculate_flash_loan_fee-pos zero rate = grind arith
calculate_flash_loan_fee-pos (suc amount) rate = rw *ℤ-pos (ground arith)

-- Splitting a loan never raises its fee, and saves at most one unit.
pub calculate_flash_loan_fee_split :
    (a b rate : ℕ)
    → (calculate_flash_loan_fee (pos a) (pos rate) +ℤ calculate_flash_loan_fee (pos b) (pos rate)
        ≤ℤ calculate_flash_loan_fee (pos (a + b)) (pos rate))
      × (calculate_flash_loan_fee (pos (a + b)) (pos rate)
          ≤ℤ calculate_flash_loan_fee (pos a) (pos rate)
            +ℤ calculate_flash_loan_fee (pos b) (pos rate)
            +ℤ pos 1)
calculate_flash_loan_fee_split a b rate =
    rw
      (
        calculate_flash_loan_fee-pos, calculate_flash_loan_fee-pos, calculate_flash_loan_fee-pos,
        +ℤ-pos, +ℤ-pos,
      )
      (omega arith, omega arith)

-- A trade that passes both tests earns more than its cost, the minimal profit and twice the gas:
-- EstimateProfitability has already subtracted the gas that IsArbitrageProfitable adds again.
pub is_arbitrage_profitable-estimate :
    (amount buy_price sell_price gas_price pool_depth min_profit : ℕ)
    → is_arbitrage_profitable
        (estimate_profitability
          (pos amount)
          (pos buy_price)
          (pos sell_price)
          (pos gas_price)
          (pos pool_depth))
        (pos gas_price)
        (pos min_profit)
      ≡ true
    → amount * buy_price + 2 * (gas_price * 500000) + min_profit < amount * sell_price
unfolding is_arbitrage_profitable
is_arbitrage_profitable-estimate amount buy_price sell_price gas_price pool_depth min_profit h =
    let h' = simp (estimate_profitability-pos, *ℤ-pos, +ℤ-pos) at h in ground arith

-- For a debt and a collateral that are not 0, JustInTimeLiquidation bids one more than the debt,
-- and expects a profit exactly if the collateral with its bonus is worth more than bid and gas.
pub just_in_time_liquidation-pays :
    (debt collateral price bonus gas_price : ℕ)
    → 0 < debt
    → 0 < collateral
    → 0 < price
    → let value = collateral * price in
      let (bid, profit) =
        just_in_time_liquidation
          (pos debt)
          (pos collateral)
          (pos price)
          (pos bonus)
          (pos gas_price) in
      (bid ≡ pos (debt + 1))
      × ((pos 0 <ℤ profit) ↔ (debt + 1 + gas_price * 500000 < value + value * bonus / 10000))
unfolding just_in_time_liquidation euclid
just_in_time_liquidation-pays debt collateral price bonus gas_price hd hc hp = ground (
  arith,
  *ℤ-pos collateral price,
  *ℤ-pos (collateral * price) bonus,
  *ℤ-pos gas_price 500000,
  +ℤ-pos debt 1,
  +ℤ-pos (collateral * price) (collateral * price * bonus / 10000),
  -ℤ_parts (pos (collateral * price + collateral * price * bonus / 10000)) (pos (debt + 1)),
  -ℤ_parts (pos (collateral * price + collateral * price * bonus / 10000) -ℤ pos (debt + 1))
      (pos (gas_price * 500000)),
  nonzero,
)
  where
    nonzero : 0 < collateral * price
    nonzero = grind arith
