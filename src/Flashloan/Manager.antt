-- ===== src/Flashloan/Manager.antt =====
-- flashloan/manager.go: FlashLoanManager. Counters count in natural numbers; the gauge of the
-- success rate is a fraction, set to numerator and denominator. Latencies and logging are left out.
pub mod Selection
pub mod Rate
use profit_monopoly.Prelude.{
  List, Option, Run, [], err, if◌then◌else◌, ltb, none, ok, panic, some, ℕ, ◌++◌, ◌+◌, ◌-◌, ◌∷◌,
}
use profit_monopoly.Int.{ltb_ℤ, ℤ, ◌+ℤ◌}
use profit_monopoly.Flashloan.{FlashLoanParams}

-- Provider (flashloan/types.go). GetFlashLoanFee is called twice, in the selection and after it, and
-- may answer differently; `none` is an error.
pub record Provider (Tx : Type 0) : Type 0 where
  pub name : ℕ
  pub offered_fee : ℕ → Option ℤ
  pub current_fee : ℕ → Option ℤ
  pub execute_flash_loan : FlashLoanParams → Option Tx

-- `selections` logs the labels of providerSelections, `selection_errors` counts the errors of that
-- type, and `volumes` lists what is added to totalVolume, before its conversion to a float.
pub record Metrics : Type 0 where
  pub selections : List ℕ
  pub active_loans : ℕ
  pub success_rate : ℕ × ℕ
  pub success_count : ℕ
  pub total_count : ℕ
  pub selection_errors : ℕ
  pub volumes : List ℤ

pub record Manager (Tx : Type 0) : Type 0 where
  pub providers : List (Provider Tx)
  pub metrics : Metrics

pub data LoanError : Type 0 where
  no_providers no_suitable_provider : LoanError
  invalid_amount fee_failed execution_failed : LoanError

unfoldable pub new_metrics : Metrics
new_metrics = record {
  selections = [];
  active_loans = 0;
  success_rate = (0, 1);
  success_count = 0;
  total_count = 0;
  selection_errors = 0;
  volumes = [];
}

-- NewFlashLoanManager
unfoldable pub new_flash_loan_manager : (Tx : Type 0) → Manager Tx
unfolding new_metrics
new_flash_loan_manager Tx = record { providers = []; metrics = new_metrics }

-- updateSuccessRate
unfoldable pub update_success_rate : Metrics → Metrics
update_success_rate m =
    let counted = record m {
      success_count = m.success_count + 1;
      total_count = m.total_count + 1;
    } in
    if ltb 0 counted.total_count
    then record counted { success_rate = (counted.success_count, counted.total_count) }
    else counted

-- The best provider so far and its fee; `none` for the nil pointers at the start.
abbrev pub Best : Type 0 → Type 0
Best Tx = Option (Provider Tx × ℤ)

-- The metrics of a loan that succeeded: the counter is incremented here and again in
-- updateSuccessRate.
unfoldable pub record_loan : ℤ → Metrics → Metrics
unfolding update_success_rate
record_loan total_repayment m =
    update_success_rate (record m {
      volumes = m.volumes ++ total_repayment ∷ [];
      success_count = m.success_count + 1;
    })

-- The calls that change a manager, and what a history of them leaves.
pub data Call (Tx : Type 0) : Type 0 where
  adds : Provider Tx → Call Tx
  executes : FlashLoanParams → Call Tx

module _ {Tx : Type 0} where
  -- AddProvider
  unfoldable pub add_provider : Provider Tx → Manager Tx → Manager Tx
  add_provider p m = record m { providers = m.providers ++ p ∷ [] }

  -- `bestFee == nil || fee.Cmp(bestFee) < 0`
  unfoldable pub better : Best Tx → Provider Tx → ℤ → Best Tx
  better none p fee = some (p, fee)
  better (some (q, best_fee)) p fee =
      if ltb_ℤ fee best_fee then some (p, fee) else some (q, best_fee)

  -- The body of the loop; a provider that does not answer is passed over.
  unfoldable pub consider : Best Tx → Provider Tx → Option ℤ → Best Tx
  unfolding better
  consider best p none = best
  consider best p (some fee) = better best p fee

  unfoldable pub select_from : ℕ → Best Tx → List (Provider Tx) → Best Tx
  unfolding consider
  select_from token best [] = best
  select_from token best (p ∷ ps) = select_from token (consider best p (p.offered_fee token)) ps

  -- selectOptimalProvider
  unfoldable pub select_optimal_provider :
      FlashLoanParams → List (Provider Tx) → Run LoanError (Provider Tx)
  unfolding select_from
  select_optimal_provider params [] = err no_providers
  select_optimal_provider params (p ∷ ps) = elim (select_from params.token none (p ∷ ps)) [
    | none ↦ err no_suitable_provider
    | some (best, fee) ↦ ok best
  ]

  -- The part of ExecuteFlashLoan behind the fee.
  unfoldable pub execute_with_fee :
      Provider Tx → FlashLoanParams → ℤ → ℤ → Metrics → Run LoanError Tx × Metrics
  unfolding record_loan
  execute_with_fee p params loan_amount fee m = elim (p.execute_flash_loan params) [
    | none ↦ (err execution_failed, m)
    | some tx ↦ (ok tx, record_loan (loan_amount +ℤ fee) m)
  ]

  -- The part of ExecuteFlashLoan behind the amount. A nil amount prints as a text that no number
  -- is parsed from.
  unfoldable pub execute_selected :
      Provider Tx → FlashLoanParams → Metrics → Run LoanError Tx × Metrics
  unfolding execute_with_fee
  execute_selected p params m = elim params.amount [
    | none ↦ (err invalid_amount, m)
    | some loan_amount ↦ elim (p.current_fee params.token) [
      | none ↦ (err fee_failed, m)
      | some fee ↦ execute_with_fee p params loan_amount fee m
    ]
  ]

  -- The part of ExecuteFlashLoan between the two updates of activeLoans.
  unfoldable pub execute_active :
      List (Provider Tx) → FlashLoanParams → Metrics → Run LoanError Tx × Metrics
  unfolding select_optimal_provider execute_selected
  execute_active providers params m = elim (select_optimal_provider params providers) [
    | err e ↦ (err e, record m { selection_errors = m.selection_errors + 1 })
    | ok p ↦ execute_selected p params (record m { selections = m.selections ++ p.name ∷ [] })
    | panic ↦ (panic, m)
  ]

  -- ExecuteFlashLoan
  unfoldable pub execute_flash_loan : FlashLoanParams → Manager Tx → Run LoanError Tx × Manager Tx
  unfolding execute_active
  execute_flash_loan params m =
      let started = record m.metrics { active_loans = m.metrics.active_loans + 1 } in
      let (result, after) = execute_active m.providers params started in
      (result, record m { metrics = record after { active_loans = after.active_loans - 1 } })

  unfoldable pub call : Call Tx → Manager Tx → Manager Tx
  unfolding add_provider execute_flash_loan
  call (adds p) m = add_provider p m
  call (executes params) m = (execute_flash_loan params m).1

  unfoldable pub run_calls : List (Call Tx) → Manager Tx → Manager Tx
  unfolding call
  run_calls [] m = m
  run_calls (c ∷ cs) m = run_calls cs (call c m)
