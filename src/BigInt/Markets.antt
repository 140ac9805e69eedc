-- ===== src/BigInt/Markets.antt =====
-- utils/math/bigint.go: sandwich sizing, bundle profit, NFT and lending analysis.
pub mod Bounds
use profit_monopoly.Prelude.{
  Bool, Option, Run, err, false, if◌then◌else◌, none, ok, or_err, panic, some, true, ◌&&◌, ◌>>=◌,
  ◌>>◌, ◌||◌,
}
use profit_monopoly.Int.{div, euclid, is_zero, leb_ℤ, ltb_ℤ, pos, ℤ, ◌*ℤ◌, ◌+ℤ◌, ◌-ℤ◌}
use profit_monopoly.BigInt.Trade.{calculate_price_impact}

pub record SandwichAttackParams : Type 0 where
  pub target_amount : ℤ
  pub pool_liquidity : ℤ
  pub frontrun_gas_price : ℤ
  pub backrun_gas_price : ℤ
  pub max_block_delay : ℤ
  pub competitor_factor : ℤ

-- CalculateSandwichProfitability: the front-run amount, the back-run amount, the profit.
unfoldable pub calculate_sandwich_profitability : SandwichAttackParams → ℤ × ℤ × ℤ
calculate_sandwich_profitability params =
    if is_zero params.target_amount || is_zero params.pool_liquidity
    then (pos 0, pos 0, pos 0)
    else let frontrun_amount = euclid (params.target_amount *ℤ pos 30) (pos 100) in
      let frontrun_impact = calculate_price_impact frontrun_amount params.pool_liquidity in
      let new_pool_state = params.pool_liquidity +ℤ frontrun_amount in
      let target_impact = calculate_price_impact params.target_amount new_pool_state in
      let backrun_amount = frontrun_amount +ℤ params.target_amount in
      let total_gas =
        params.frontrun_gas_price *ℤ pos 500000 +ℤ params.backrun_gas_price *ℤ pos 500000 in
      let profit = target_impact *ℤ backrun_amount -ℤ frontrun_impact in
      let adjustment = euclid (profit *ℤ params.competitor_factor) (pos 100) in
      (frontrun_amount, backrun_amount, profit -ℤ adjustment -ℤ total_gas)

pub record BundleParams : Type 0 where
  pub block_builder_fee : Option ℤ
  pub priority : Option ℤ
  pub block_number : Option ℤ
  pub deadline : Option ℤ
  pub gas_limit : Option ℤ
  pub revert_protected : Bool

-- The cost of a bundle, with the premium of a tenth for revert protection.
unfoldable pub bundle_cost : Bool → ℤ → ℤ
bundle_cost protected base_cost =
    if protected then base_cost +ℤ euclid base_cost (pos 10) else base_cost

-- OptimizeMEVBundle: the profit and the gas.
unfoldable pub optimize_mev_bundle : BundleParams → ℤ × ℤ
unfolding bundle_cost
optimize_mev_bundle params = elim params.block_builder_fee [
  | none ↦ (pos 0, pos 0)
  | some fee ↦ elim params.priority [
    | none ↦ (pos 0, pos 0)
    | some priority ↦ elim params.gas_limit [
      | none ↦ (pos 0, pos 0)
      | some gas_limit ↦
          (priority *ℤ fee -ℤ bundle_cost params.revert_protected (gas_limit *ℤ fee), gas_limit)
    ]
  ]
]

pub record NftMevParams : Type 0 where
  pub floor_price : Option ℤ
  pub listing_price : Option ℤ
  pub rarity_score : Option ℤ
  pub historical_vol : Option ℤ
  pub gas_cost : Option ℤ
  pub min_profit_bps : Option ℤ

-- The part of CalculateNFTMEV after the nil checks.
unfoldable pub nft_mev : ℤ → ℤ → ℤ → ℤ → ℤ → ℤ → Bool × ℤ
nft_mev floor_price listing_price rarity_score historical_vol gas_cost min_profit_bps =
    let rare = euclid (floor_price *ℤ rarity_score) (pos 100) in
    let volatility = euclid (floor_price *ℤ historical_vol) (pos 100) in
    let profit = rare +ℤ volatility -ℤ listing_price -ℤ gas_cost in
    let min_profit = euclid (floor_price *ℤ min_profit_bps) (pos 10000) in
    if leb_ℤ min_profit profit then (true, profit) else (false, pos 0)

-- The nil checks of CalculateNFTMEV, then the rest.
unfoldable pub checked_nft_mev : NftMevParams → Run (Unit {0}) (Bool × ℤ)
unfolding nft_mev
checked_nft_mev params = do
  floor ← or_err params.floor_price tt
  rarity ← or_err params.rarity_score tt
  vol ← or_err params.historical_vol tt
  listing ← or_err params.listing_price tt
  gas ← or_err params.gas_cost tt
  bps ← or_err params.min_profit_bps tt
  ok (nft_mev floor listing rarity vol gas bps)

-- CalculateNFTMEV: a nil parameter is reported as not profitable, with profit 0.
unfoldable pub calculate_nft_mev : NftMevParams → Bool × ℤ
unfolding checked_nft_mev
calculate_nft_mev params = elim (checked_nft_mev params) [
  | ok r ↦ r
  | err _ ↦ (false, pos 0)
  | panic ↦ (false, pos 0)
]

pub record LendingProtocolParams : Type 0 where
  pub borrow_rate : Option ℤ
  pub supply_rate : Option ℤ
  pub utilization : Option ℤ
  pub collateral_value : Option ℤ
  pub debt_value : Option ℤ
  pub liquidation_threshold : Option ℤ

-- The part of AnalyzeLendingProtocol after the nil checks.
unfoldable pub lending : ℤ → ℤ → ℤ → ℤ → ℤ → ℤ → Run ⊥ (Bool × ℤ)
lending borrow_rate supply_rate utilization collateral_value debt_value threshold = do
  health_factor ← div (collateral_value *ℤ threshold) debt_value
  let max_borrow = euclid (collateral_value *ℤ threshold) (pos 10000) -ℤ debt_value
  let rate_spread = supply_rate -ℤ borrow_rate
  let should_borrow = ltb_ℤ (pos 0) rate_spread && ltb_ℤ (pos 12000) health_factor
  ok (
    should_borrow,
    (if should_borrow then euclid (max_borrow *ℤ utilization) (pos 10000) else pos 0),
  )

-- The nil checks of AnalyzeLendingProtocol, then the rest.
unfoldable pub checked_lending : LendingProtocolParams → Run (Unit {0}) (Run ⊥ (Bool × ℤ))
unfolding lending
checked_lending params = do
  borrow ← or_err params.borrow_rate tt
  supply ← or_err params.supply_rate tt
  utilization ← or_err params.utilization tt
  collateral ← or_err params.collateral_value tt
  debt ← or_err params.debt_value tt
  threshold ← or_err params.liquidation_threshold tt
  ok (lending borrow supply utilization collateral debt threshold)

-- AnalyzeLendingProtocol: a nil parameter is answered by no borrowing.
unfoldable pub analyze_lending_protocol : LendingProtocolParams → Run ⊥ (Bool × ℤ)
unfolding checked_lending
analyze_lending_protocol params = elim (checked_lending params) [
  | ok r ↦ r
  | err _ ↦ ok (false, pos 0)
  | panic ↦ ok (false, pos 0)
]
