-- ===== src/BigInt/Metrics.antt =====
-- utils/math/bigint.go: StrategyMetrics and UpdateMetrics. A calculation with one receiver writes
-- its field in place; the fields do not share a big integer (NewStrategyMetrics makes five).
use profit_monopoly.Prelude.{
  Bool, Run, arith, false, if◌then◌else◌, ok, true, ℕ, ◌*◌, ◌+◌, ◌/◌, ◌>>=◌, ◌≡◌,
}
use profit_monopoly.Int.{div, euclid, ltb_ℤ, negsuc, pos, ℤ, ◌*ℤ◌, ◌+ℤ◌, ◌≤ℤ◌}
use profit_monopoly.Int.Laws.{*ℤ-pos, +ℤ-pos, +ℤ_parts}

-- MEVStrategyType
pub data MevStrategyType : Type 0 where
  arbitrage sandwich liquidation just_in_time : MevStrategyType

pub record StrategyMetrics : Type 0 where
  pub success_rate : ℤ
  pub average_profit : ℤ
  pub failure_rate : ℤ
  pub gas_efficiency : ℤ
  pub competitor_wins : ℤ

-- NewStrategyMetrics
unfoldable pub new_strategy_metrics : StrategyMetrics
new_strategy_metrics = record {
  success_rate = pos 0;
  average_profit = pos 0;
  failure_rate = pos 0;
  gas_efficiency = pos 0;
  competitor_wins = pos 0;
}

-- A rate after one more hit among `total_attempts` attempts before it.
unfoldable pub updated_rate : ℤ → ℤ → Run ⊥ ℤ
updated_rate rate total_attempts = div (rate *ℤ total_attempts +ℤ pos 100) (total_attempts +ℤ pos 1)

-- The first branch of UpdateMetrics.
unfoldable pub record_outcome : Bool → ℤ → ℤ → StrategyMetrics → Run ⊥ StrategyMetrics
unfolding updated_rate
record_outcome true profit total_attempts m = do
  rate ← updated_rate m.success_rate total_attempts
  ok (record m {
    success_rate = rate;
    average_profit = euclid (m.average_profit +ℤ profit) (pos 2);
  })
record_outcome false profit total_attempts m = do
  rate ← updated_rate m.failure_rate total_attempts
  ok (record m { failure_rate = rate })

unfoldable pub record_gas : ℤ → ℤ → StrategyMetrics → StrategyMetrics
record_gas profit gas_used m =
    if ltb_ℤ (pos 0) gas_used
    then record m {
      gas_efficiency = euclid (m.gas_efficiency +ℤ euclid (profit *ℤ pos 100) gas_used) (pos 2);
    }
    else m

unfoldable pub record_competitor : Bool → StrategyMetrics → StrategyMetrics
record_competitor won m =
    if won then record m { competitor_wins = m.competitor_wins +ℤ pos 1 } else m

-- UpdateMetrics
unfoldable pub update_metrics : Bool → ℤ → ℤ → Bool → ℤ → StrategyMetrics → Run ⊥ StrategyMetrics
unfolding record_outcome record_gas record_competitor
update_metrics success profit gas_used competitor_won total_attempts m = do
  m' ← record_outcome success profit total_attempts m
  ok (record_competitor competitor_won (record_gas profit gas_used m'))

-- Rates are percentages, and wins are counted from 0.
pub record IsValid (m : StrategyMetrics) : Type 0 where
  pub success_low : pos 0 ≤ℤ m.success_rate
  pub success_high : m.success_rate ≤ℤ pos 100
  pub failure_low : pos 0 ≤ℤ m.failure_rate
  pub failure_high : m.failure_rate ≤ℤ pos 100
  pub wins : pos 0 ≤ℤ m.competitor_wins

-- A rate that is a percentage stays one, and does not fall.
updated_rate_bounds :
    (rate : ℤ) (n : ℕ)
    → pos 0 ≤ℤ rate
    → rate ≤ℤ pos 100
    → (r : ℤ) × (updated_rate rate (pos n) ≡ ok r) × (rate ≤ℤ r) × (r ≤ℤ pos 100)
unfolding updated_rate euclid
updated_rate_bounds (pos a) n low high =
    (pos ((a * n + 100) / (n + 1)), simp (*ℤ-pos, +ℤ-pos) (ground arith), grind arith, grind arith)
updated_rate_bounds (negsuc a) n low high = absurd (omega arith)

-- One update from valid metrics, after any number of attempts, returns valid metrics; neither the
-- success rate nor the number of competitors' wins falls, whether the attempt succeeded or failed.
pub update_metrics-IsValid :
    (success : Bool) (profit gas_used : ℤ) (won : Bool) (attempts : ℕ) (m : StrategyMetrics)
    → IsValid m
    → (m' : StrategyMetrics) × (update_metrics success profit gas_used won (pos attempts) m ≡ ok m')
      × IsValid m'
      × (m.success_rate ≤ℤ m'.success_rate)
      × (m.competitor_wins ≤ℤ m'.competitor_wins)
unfolding update_metrics
update_metrics-IsValid true profit gas_used won attempts m v =
    let (r, p, up, high) =
      updated_rate_bounds m.success_rate attempts v.success_low v.success_high in
    let average = euclid (m.average_profit +ℤ profit) (pos 2) in
    let m' = record m { success_rate = r; average_profit = average } in
    (
      record_competitor won (record_gas profit gas_used m'),
      rw p,
      ground (arith, +ℤ_parts m.competitor_wins (pos 1)),
      ground arith,
      ground (arith, +ℤ_parts m.competitor_wins (pos 1)),
    )
update_metrics-IsValid false profit gas_used won attempts m v =
    let (r, p, up, high) =
      updated_rate_bounds m.failure_rate attempts v.failure_low v.failure_high in
    let m' = record m { failure_rate = r } in
    (
      record_competitor won (record_gas profit gas_used m'),
      rw p,
      ground (arith, +ℤ_parts m.competitor_wins (pos 1)),
      ground arith,
      ground (arith, +ℤ_parts m.competitor_wins (pos 1)),
    )
