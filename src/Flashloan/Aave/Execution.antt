-- ===== src/Flashloan/Aave/Execution.antt =====
-- flashloan/aave/provider.go: what ExecuteFlashLoan sends and counts.
use profit_monopoly.Prelude.{Run, err, ok, panic, some, ◌+◌, ◌≡◌}
use profit_monopoly.Flashloan.{FlashLoanParams}
use profit_monopoly.Flashloan.Aave.{
  ProviderConfig, AaveError, AaveMetrics, Chain, LoanTx, count_loan,
}
use profit_monopoly.Flashloan.Aave.Bounds.{IsCovered}

module _ (chain : Chain) (config : ProviderConfig) (params : FlashLoanParams) where
  -- A transaction to the lending pool with the gas that the parameters give.
  abbrev pub Sends : LoanTx → Type 0
  Sends tx =
      (tx.to ≡ config.contract_address)
      × (tx.gas_limit ≡ params.gas_limit)
      × (params.gas_price ≡ some tx.gas_price)
      × (chain.pack_flash_loan params ≡ some tx.data_)
      × (chain.pending_nonce config.contract_address ≡ some tx.nonce)

  -- What one call may answer, and how the metrics have changed.
  abbrev pub IsExecution : AaveMetrics → Run AaveError LoanTx → AaveMetrics → Type 0
  IsExecution m (ok tx) after =
      IsCovered chain config params
      × Sends tx
      × (after ≡ count_loan chain config params.amount m)
      × (after.errors ≡ m.errors)
      × (after.loan_count ≡ m.loan_count + 1)
  IsExecution m (err e) after = after ≡ record m { errors = m.errors + 1 }
  IsExecution m panic after = after ≡ m
