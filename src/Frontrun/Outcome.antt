-- ===== src/Frontrun/Outcome.antt =====
-- strategies/frontrun/frontrun.go: what an analysis and an attack come to.
use profit_monopoly.Prelude.{
  Bool-cases, List, [], ◌∷◌, arith, true, inl, inr, length, ok, refl, ◌%◌, ◌+◌, ◌^◌, ◌<◌, ◌≡◌, ◌≢◌,
}
use profit_monopoly.Int.{ltb_ℤ}
use profit_monopoly.Frontrun.{
  AttackStats, Config, FloatOrder, PendingTx, analyze, calculate, create_frontrun_tx, execute,
  execute_all, send_transaction, settle, wait_for_confirmation,
}

analyze_never : (f : FloatOrder) (c : Config f) (tx : PendingTx) → analyze f c tx ≢ ok true
unfolding analyze calculate
analyze_never f c tx = elim (Bool-cases (ltb_ℤ c.max_gas_price tx.gas_price)) [
  | inl t ↦ rw (analyze, t) (λ h. absurd (cc h))
  | inr n ↦ rw (analyze, n) (λ h. absurd (cc h))
]

-- Analyze answers true for no transaction, whatever the configuration. And after any calls of
-- Execute the attempts and the failures have each grown by the number of the calls, modulo 2^64,
-- while the successes and the total profit are what they were, from counters below 2^64.
pub execute_all-fails :
    (f : FloatOrder) (c : Config f) (tx : PendingTx) (txs : List PendingTx) (s : AttackStats)
    → s.total_attempts < 2 ^ 64
    → s.failed_attacks < 2 ^ 64
    → (analyze f c tx ≢ ok true)
      × ((execute_all txs s).total_attempts ≡ (s.total_attempts + length txs) % 2 ^ 64)
      × ((execute_all txs s).failed_attacks ≡ (s.failed_attacks + length txs) % 2 ^ 64)
      × ((execute_all txs s).successful_attacks ≡ s.successful_attacks)
      × ((execute_all txs s).total_profit ≡ s.total_profit)
unfolding execute_all execute create_frontrun_tx send_transaction wait_for_confirmation settle
execute_all-fails f c tx [] s attempts failures =
    (analyze_never f c tx, omega arith, omega arith, refl, refl)
execute_all-fails f c tx (t ∷ txs) s attempts failures =
    let (never, all, failed, won, profit) =
      execute_all-fails f c tx txs (execute t s).1 (omega arith) (omega arith) in
    (never, omega (arith, all), omega (arith, failed), won, profit)
