-- ===== src/Frontrun.antt =====
-- strategies/frontrun/frontrun.go: the frontrunning strategy. The functions that the source leaves
-- to be implemented stand as the source has them, with the answers that they give. A float64 is a
-- value of a type with the order and the product that the code uses.
pub mod Outcome
mod Tests
use profit_monopoly.Prelude.{
  Bool, List, Option, [], ◌∷◌, if◌then◌else◌, false, true, none, some, ℕ, ◌%◌, ◌+◌, ◌^◌, Run, deref,
  err, ok, panic, ◌>>=◌,
}
use profit_monopoly.Int.{ltb_ℤ, pos, ℤ, ◌+ℤ◌}

-- What the strategy reads of a types.Transaction.
pub record PendingTx : Type 0 where
  pub hash : ℕ
  pub gas_price : ℤ

pub record FloatOrder : Type 1 where
  pub Value : Type 0
  pub zero_value : Value
  pub less : Value → Value → Bool
  pub product : Value → Value → Value

pub record AttackStats : Type 0 where
  pub total_attempts : ℕ
  pub successful_attacks : ℕ
  pub failed_attacks : ℕ
  pub total_profit : ℤ

pub data StrategyError : Type 0 where
  calculate_failed simulate_failed create_failed send_failed : StrategyError

-- ProfitCalculator.Calculate: a nil profit and no error.
unfoldable pub calculate : PendingTx → Run StrategyError (Option ℤ)
calculate tx = ok none

-- simulateAttack
unfoldable pub simulate_attack : PendingTx → Run StrategyError Bool
simulate_attack tx = ok true

-- createFrontrunTx: a nil transaction and no error.
unfoldable pub create_frontrun_tx : PendingTx → Run StrategyError (Option PendingTx)
create_frontrun_tx tx = ok none

-- sendTransaction
unfoldable pub send_transaction : Option PendingTx → Run StrategyError (Unit {0})
send_transaction tx = ok tt

-- waitForConfirmation: no success, and a nil profit.
unfoldable pub wait_for_confirmation : Option PendingTx → Bool × Option ℤ
wait_for_confirmation tx = (false, none)

-- NewStrategy: the statistics.
unfoldable pub new_stats : AttackStats
new_stats = record {
  total_attempts = 0;
  successful_attacks = 0;
  failed_attacks = 0;
  total_profit = pos 0;
}

-- `x++` of a uint64
abbrev pub increment : ℕ → ℕ
increment n = (n + 1) % 2 ^ 64

-- recordFailure and recordSuccess, less the time
unfoldable pub record_failure : AttackStats → AttackStats
record_failure s = record s { failed_attacks = increment s.failed_attacks }

unfoldable pub record_success : ℤ → AttackStats → AttackStats
record_success profit s = record s {
  successful_attacks = increment s.successful_attacks;
  total_profit = s.total_profit +ℤ profit;
}

-- The end of Execute, after the confirmation; adding a nil profit panics.
unfoldable pub settle : Bool × Option ℤ → AttackStats → Run StrategyError (Unit {0}) × AttackStats
unfolding record_failure record_success
settle (false, _) s = (ok tt, record_failure s)
settle (true, none) s = (panic, record s { successful_attacks = increment s.successful_attacks })
settle (true, some profit) s = (ok tt, record_success profit s)

-- Execute
unfoldable pub execute : PendingTx → AttackStats → Run StrategyError (Unit {0}) × AttackStats
unfolding create_frontrun_tx send_transaction wait_for_confirmation record_failure settle
execute tx s =
    let attempted = record s { total_attempts = increment s.total_attempts } in
    elim (create_frontrun_tx tx) [
      | panic ↦ (panic, attempted)
      | err e ↦ (err e, record_failure attempted)
      | ok frontrun ↦ elim (send_transaction frontrun) [
        | panic ↦ (panic, attempted)
        | err e ↦ (err e, record_failure attempted)
        | ok _ ↦ settle (wait_for_confirmation frontrun) attempted
      ]
    ]

unfoldable pub execute_all : List PendingTx → AttackStats → AttackStats
unfolding execute
execute_all [] s = s
execute_all (tx ∷ txs) s = execute_all txs (execute tx s).1

module _ (f : FloatOrder) where
  pub record Config : Type 0 where
    pub min_profit_threshold : ℤ
    pub max_gas_price : ℤ
    pub simulation_enabled : Bool
    pub min_confidence : f.Value

  -- A Model: its success rate and its confidence.
  pub record Model : Type 0 where
    pub success_rate : f.Value
    pub confidence : f.Value

  -- getModel: nil
  unfoldable pub get_model : PendingTx → Option Model
  get_model tx = none

  -- GetSuccessProbability
  unfoldable pub get_success_probability : PendingTx → f.Value
  unfolding get_model
  get_success_probability tx = elim (get_model tx) [
    | none ↦ f.zero_value
    | some model ↦ f.product model.success_rate model.confidence
  ]

  -- The tests of Analyze once the profit is known
  unfoldable pub analyze_profit : Config → PendingTx → ℤ → Run StrategyError Bool
  unfolding get_success_probability simulate_attack
  analyze_profit c tx profit =
      if ltb_ℤ profit c.min_profit_threshold
      then ok false
      else if f.less (get_success_probability tx) c.min_confidence
      then ok false
      else if c.simulation_enabled
      then simulate_attack tx
      else ok true

  -- Analyze; a comparison with a nil profit panics.
  unfoldable pub analyze : Config → PendingTx → Run StrategyError Bool
  unfolding calculate analyze_profit
  analyze c tx =
      if ltb_ℤ c.max_gas_price tx.gas_price
      then ok false
      else do found ← calculate tx; profit ← deref found; analyze_profit c tx profit
