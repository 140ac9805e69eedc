-- ===== src/Flashloan/Manager/Rate.antt =====
-- flashloan/manager.go: what the counters of a manager say after any history of calls.
use profit_monopoly.Prelude.{
  List, Option, Option-cases, Run-cases, Run, [], arith, err, inl, inr, none, refl, some, ℕ, ◌*◌,
  ◌+◌, ◌∷◌, lt→ltb, length-append, ◌++◌, ◌≡◌, ◌⊎◌, length,
}
use profit_monopoly.Int.{ℤ, ◌+ℤ◌}
use profit_monopoly.Flashloan.{FlashLoanParams}
use profit_monopoly.Flashloan.Manager.{
  Call, invalid_amount, fee_failed, LoanError, Manager, Metrics, Provider, adds, call, executes,
  execute_active, execute_flash_loan, execute_selected, execute_with_fee, new_flash_loan_manager,
  record_loan, run_calls, select_optimal_provider, update_success_rate, new_metrics, add_provider,
}

-- The gauge of active loans is at `active`, successes are counted twice, and the gauge of the rate
-- shows the two counters once there is a loan.
abbrev pub Counts : ℕ → Metrics → Type 0
Counts active m =
    (m.active_loans ≡ active)
    × (m.success_count ≡ 2 * m.total_count)
    × (length m.volumes ≡ m.total_count)
    × (m.total_count ≡ 0 ⊎ (m.success_rate ≡ (m.success_count, m.total_count)))

record_loan_lem :
    (v : ℤ) (m : Metrics)
    → record_loan v m ≡ record m {
      volumes = m.volumes ++ v ∷ [];
      success_count = m.success_count + 1 + 1;
      total_count = m.total_count + 1;
      success_rate = (m.success_count + 1 + 1, m.total_count + 1);
    }
unfolding record_loan update_success_rate
record_loan_lem v m = rw (lt→ltb 0 (m.total_count + 1) (omega arith)) refl

record_loan-Counts : (a : ℕ) (v : ℤ) (m : Metrics) → Counts a m → Counts a (record_loan v m)
record_loan-Counts a v m (active, doubled, volumes, rate) =
    rw (record_loan_lem v m)
      (active, omega arith, omega (arith, length-append m.volumes (v ∷ [])), inr refl)

module _ {Tx : Type 0} where
  execute_with_fee-Counts :
      (p : Provider Tx) (params : FlashLoanParams) (v fee : ℤ) (a : ℕ) (m : Metrics)
      → Counts a m
      → Counts a (execute_with_fee p params v fee m).1
  unfolding execute_with_fee
  execute_with_fee-Counts p params v fee a m h = elim (Option-cases (p.execute_flash_loan params)) [
    | inl n ↦ rw (execute_with_fee, n) h
    | inr (tx, t) ↦ rw (execute_with_fee, t) (record_loan-Counts a (v +ℤ fee) m h)
  ]

  execute_selected-Counts :
      (p : Provider Tx) (params : FlashLoanParams) (a : ℕ) (m : Metrics)
      → Counts a m
      → Counts a (execute_selected p params m).1
  unfolding execute_selected
  execute_selected-Counts p params a m h = with_amount params.amount (p.current_fee params.token)
    where
      with_amount :
          (amount fee : Option ℤ)
          → Counts a
              (elim amount as (λ _. Run LoanError Tx × Metrics) [
                | none ↦ (err invalid_amount, m)
                | some v ↦ elim fee as (λ _. Run LoanError Tx × Metrics) [
                  | none ↦ (err fee_failed, m)
                  | some f ↦ execute_with_fee p params v f m
                ]
              ]).1
      with_amount none fee = h
      with_amount (some v) none = h
      with_amount (some v) (some f) = execute_with_fee-Counts p params v f a m h

  execute_active-Counts :
      (ps : List (Provider Tx)) (params : FlashLoanParams) (a : ℕ) (m : Metrics)
      → Counts a m
      → Counts a (execute_active ps params m).1
  unfolding execute_active
  execute_active-Counts ps params a m h = elim (Run-cases (select_optimal_provider params ps)) [
    | inl (p, e) ↦
        rw (execute_active, e)
          (execute_selected-Counts p params a
            (record m { selections = m.selections ++ p.name ∷ [] }) h)
    | inr (inl (error, e)) ↦ rw (execute_active, e) h
    | inr (inr e) ↦ rw (execute_active, e) h
  ]

  call-Counts : (c : Call Tx) (m : Manager Tx) → Counts 0 m.metrics → Counts 0 (call c m).metrics
  unfolding call add_provider execute_flash_loan
  call-Counts (adds p) m h = h
  call-Counts (executes params) m (active, doubled, volumes, rate) =
      let (still, now_doubled, now_volumes, now_rate) =
        execute_active-Counts m.providers params 1
          (record m.metrics { active_loans = m.metrics.active_loans + 1 })
          (omega arith, doubled, volumes, rate) in
      (omega arith, now_doubled, now_volumes, now_rate)

  run_calls-Counts_from :
      (cs : List (Call Tx)) (m : Manager Tx)
      → Counts 0 m.metrics
      → Counts 0 (run_calls cs m).metrics
  unfolding run_calls
  run_calls-Counts_from [] m h = h
  run_calls-Counts_from (c ∷ cs) m h = run_calls-Counts_from cs (call c m) (call-Counts c m h)

  -- After any calls on a new manager no loan is active, one volume is recorded for each loan
  -- counted in totalCount, successCount is twice totalCount, and unless totalCount is 0 the gauge
  -- of the success rate shows the quotient of these two, which is 2: the counter of successes is
  -- incremented twice for a loan, and totalCount for loans that succeed only.
  pub run_calls-Counts :
      (cs : List (Call Tx)) → Counts 0 (run_calls cs (new_flash_loan_manager Tx)).metrics
  unfolding new_flash_loan_manager new_metrics
  run_calls-Counts cs =
      run_calls-Counts_from cs (new_flash_loan_manager Tx) (refl, refl, refl, inl refl)
