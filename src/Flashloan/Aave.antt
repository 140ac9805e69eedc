-- ===== src/Flashloan/Aave.antt =====
-- flashloan/aave/provider.go: the Aave provider. Latencies, logging and the gauge of the liquidity
-- are left out.
pub mod Bounds
pub mod Execution
use profit_monopoly.Prelude.{
  Bool, false, List, Option, Run, [], deref, err, guard, if◌then◌else◌, leb, length, ltb, none, ok,
  or_err, panic, some, take, wrap, ℕ, ◌&&◌, ◌*◌, ◌++◌, ◌+◌, ◌==◌, ◌>>=◌, ◌>>◌, ◌∷◌, ◌-◌, ◌%◌, ◌^◌,
}
use profit_monopoly.Int.{div, is_zero, leb_ℤ, ltb_ℤ, ℤ, ◌*ℤ◌, pos, pos_part, neg_part}
use profit_monopoly.Flashloan.{FlashLoanParams}

-- ProviderConfig (flashloan/types.go), with the amounts as the numbers that their texts say.
pub record ProviderConfig : Type 0 where
  pub contract_address : ℕ
  pub min_loan_amount : ℤ
  pub max_loan_amount : ℤ
  pub max_loan_percentage : ℕ
  pub base_fee : ℕ

-- What the provider calls: the packing of the two calls, the contract and the account's nonce.
-- `none` is an error.
pub record Chain : Type 0 where
  pub pack_reserve_data : ℕ → Option (List ℕ)
  pub pack_flash_loan : FlashLoanParams → Option (List ℕ)
  pub call_contract : ℕ → List ℕ → Option (List ℕ)
  pub pending_nonce : ℕ → Option ℕ

-- What is counted; `volume` and `fees` list what is added, before the conversion to a float.
pub record AaveMetrics : Type 0 where
  pub errors : ℕ
  pub loan_count : ℕ
  pub volume : List ℕ
  pub fees : List ℕ

pub data AaveError : Type 0 where
  pack_failed call_failed : AaveError
  liquidity_failed : AaveError → AaveError
  invalid_loan_amount : AaveError
  nil_params below_minimum above_maximum empty_path bad_gas_price bad_gas_limit : AaveError
  max_loan_failed repayment_failed creation_failed : AaveError → AaveError
  nonce_failed : AaveError

-- types.NewTransaction
pub record LoanTx : Type 0 where
  pub nonce : ℕ
  pub to : ℕ
  pub gas_limit : ℕ
  pub gas_price : ℤ
  pub data_ : List ℕ

-- SetBytes
unfoldable pub set_bytes_from : ℕ → List ℕ → ℕ
set_bytes_from n [] = n
set_bytes_from n (b ∷ bs) = set_bytes_from (256 * n + b) bs

-- Uint64: the low 64 bits of the magnitude.
unfoldable pub uint64 : ℤ → ℕ
uint64 a = (pos_part a + neg_part a) % 2 ^ 64

unfoldable pub amount_of : Option FlashLoanParams → Option ℤ
amount_of none = none
amount_of (some params) = params.amount

module _ (chain : Chain) (config : ProviderConfig) where
  -- GetPoolLiquidity. `result[:32]` panics on a shorter result.
  unfoldable pub get_pool_liquidity : ℕ → Run AaveError ℤ
  unfolding set_bytes_from
  get_pool_liquidity token = do
    call_data ← or_err (chain.pack_reserve_data token) pack_failed
    result ← or_err (chain.call_contract config.contract_address call_data) call_failed
    if leb 32 (length result) then ok (pos (set_bytes_from 0 (take 32 result))) else panic

  -- GetMaxLoanAmount
  unfoldable pub get_max_loan_amount : ℕ → Run AaveError ℤ
  unfolding get_pool_liquidity
  get_max_loan_amount token = do
    liquidity ← wrap liquidity_failed (get_pool_liquidity token)
    max_loan ← div (liquidity *ℤ pos config.max_loan_percentage) (pos 100)
    ok (if ltb_ℤ config.max_loan_amount max_loan then config.max_loan_amount else max_loan)

  -- GetLoanFee
  unfoldable pub get_loan_fee : Option ℤ → Run AaveError ℤ
  get_loan_fee none = err invalid_loan_amount
  get_loan_fee (some amount) = do
    guard (ltb_ℤ (pos 0) amount) invalid_loan_amount
    div (amount *ℤ pos config.base_fee) (pos 10000)

  unfoldable pub is_positive : Option ℤ → Bool
  is_positive none = false
  is_positive (some price) = ltb_ℤ (pos 0) price

  -- ValidateRepayment behind the test for nil.
  unfoldable pub validate_params : FlashLoanParams → Run AaveError (Unit {0})
  unfolding get_max_loan_amount is_positive
  validate_params params = do
    amount ← deref params.amount
    guard (leb_ℤ config.min_loan_amount amount) below_minimum
    max_amount ← wrap max_loan_failed (get_max_loan_amount params.token)
    guard (leb_ℤ amount max_amount) above_maximum
    guard (ltb 0 (length params.repayment_path)) empty_path
    guard (is_positive params.gas_price) bad_gas_price
    guard (ltb 0 params.gas_limit) bad_gas_limit

  -- ValidateRepayment
  unfoldable pub validate_repayment : Option FlashLoanParams → Run AaveError (Unit {0})
  unfolding validate_params
  validate_repayment none = err nil_params
  validate_repayment (some params) = validate_params params

  -- createFlashLoanTx. NewTransaction copies the gas price; a nil price stays nil there, and is
  -- refused before.
  unfoldable pub create_flash_loan_tx : List ℕ → FlashLoanParams → Run AaveError LoanTx
  create_flash_loan_tx call_data params = do
    n ← or_err (chain.pending_nonce config.contract_address) nonce_failed
    price ← deref params.gas_price
    ok (record {
      nonce = n;
      to = config.contract_address;
      gas_limit = params.gas_limit;
      gas_price = price;
      data_ = call_data;
    })

  -- The calls of ExecuteFlashLoan that may fail, in their order.
  unfoldable pub prepare : Option FlashLoanParams → Run AaveError LoanTx
  unfolding validate_repayment create_flash_loan_tx
  prepare none = err (repayment_failed nil_params)
  prepare (some params) = do
    wrap repayment_failed (validate_repayment (some params))
    call_data ← or_err (chain.pack_flash_loan params) pack_failed
    wrap creation_failed (create_flash_loan_tx call_data params)

  -- The fee of a loan, as Uint64 reads it; a fee that is refused is not counted.
  unfoldable pub count_fee : Run AaveError ℤ → AaveMetrics → AaveMetrics
  unfolding uint64
  count_fee (ok fee) m = record m { fees = m.fees ++ uint64 fee ∷ [] }
  count_fee _ m = m

  unfoldable pub count_loan : Option ℤ → AaveMetrics → AaveMetrics
  unfolding count_fee get_loan_fee uint64
  count_loan none m = m
  count_loan (some amount) m =
      count_fee (get_loan_fee (some amount))
        (record m { loan_count = m.loan_count + 1; volume = m.volume ++ uint64 amount ∷ [] })

  -- ExecuteFlashLoan. The parameters that pass the validation have an amount.
  unfoldable pub execute_flash_loan :
      Option FlashLoanParams → AaveMetrics → Run AaveError LoanTx × AaveMetrics
  unfolding prepare count_loan amount_of
  execute_flash_loan params m = elim (prepare params) [
    | ok tx ↦ (ok tx, count_loan (amount_of params) m)
    | err e ↦ (err e, record m { errors = m.errors + 1 })
    | panic ↦ (panic, m)
  ]
