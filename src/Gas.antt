-- ===== src/Gas.antt =====
-- gas/estimator.go: Estimator. The node is what its calls answer, `none` for an error; a nil base fee
-- is `none` too. The lock holds for both fees, so an update is a whole step.
pub mod Latest
mod Tests
use profit_monopoly.Prelude.{
  List, Option, Run, [], deref, err, none, ok, some, ℕ, ◌%◌, ◌*◌, ◌+◌, ◌-◌, ◌^◌, ◌∷◌, ◌>>=◌,
}
use profit_monopoly.Int.{neg_part, pos, pos_part, ℤ, ◌*ℤ◌, ◌+ℤ◌}

pub record Estimator : Type 0 where
  pub base_gas_price : Option ℤ
  pub priority_fee : Option ℤ

pub data EstimatorError : Type 0 where
  block_failed tip_failed : EstimatorError

-- The answers of an update: the base fee of the latest block, and the suggested tip.
pub record Answer : Type 0 where
  pub block : Option (Option ℤ)
  pub tip : Option ℤ

-- NewEstimator
unfoldable pub new_estimator : Estimator
new_estimator = record { base_gas_price = none; priority_fee = none }

-- update
unfoldable pub update : Answer → Estimator → Run EstimatorError (Unit {0}) × Estimator
update a e = elim a.block [
  | none ↦ (err block_failed, e)
  | some base_fee ↦ elim a.tip [
    | none ↦ (err tip_failed, e)
    | some tip ↦ (ok tt, record { base_gas_price = base_fee; priority_fee = some tip })
  ]
]

-- The ticks of updateLoop, which only logs an error
unfoldable pub update_loop : List Answer → Estimator → Estimator
unfolding update
update_loop [] e = e
update_loop (a ∷ answers) e = update_loop answers (update a e).1

-- EstimateGasCost; `Set` of a nil number panics.
unfoldable pub estimate_gas_cost : ℕ → Estimator → Run EstimatorError ℤ
estimate_gas_cost gas_limit e = do
  base_fee ← deref e.base_gas_price
  tip ← deref e.priority_fee
  ok ((base_fee +ℤ tip) *ℤ pos gas_limit)

-- `uint64(n)` of an int
abbrev pub to_word : ℤ → ℕ
to_word n = (pos_part n + (2 ^ 64 - neg_part n)) % 2 ^ 64

-- EstimateArbitrageGas
unfoldable pub estimate_arbitrage_gas : ℤ → ℕ
estimate_arbitrage_gas num_hops = (21000 + (152000 * to_word num_hops) % 2 ^ 64) % 2 ^ 64
