-- ===== src/Sandwich/Loan.antt =====
-- utils/flashloan.go: the loan of a sandwich. createTransaction is not written yet and answers nil.
use profit_monopoly.Prelude.{Option, Run, guard, not, none, ok, or_err, ℕ, ◌==◌, ◌>>=◌, ◌>>◌}
use profit_monopoly.Int.{euclid, leb_ℤ, ltb_ℤ, pos, ℤ, ◌*ℤ◌}

-- FlashLoanParams of utils; the address 0 is the empty one.
pub record LoanParams : Type 0 where
  pub token : ℕ
  pub amount : Option ℤ
  pub max_fee : Option ℤ
  pub recipient : ℕ

pub data LoanError : Type 0 where
  invalid_amount max_fee_not_specified token_not_specified recipient_not_specified : LoanError
  fee_exceeds_maximum : LoanError

-- calculateFee: 0.09 percent.
unfoldable pub calculate_fee : ℤ → ℤ
calculate_fee amount = euclid (amount *ℤ pos 9) (pos 10000)

-- validateParams, with the pointers that it has tested.
unfoldable pub validate_loan : LoanParams → Run LoanError (ℤ × ℤ)
validate_loan params = do
  amount ← or_err params.amount invalid_amount
  guard (ltb_ℤ (pos 0) amount) invalid_amount
  max_fee ← or_err params.max_fee max_fee_not_specified
  guard (not (params.token == 0)) token_not_specified
  guard (not (params.recipient == 0)) recipient_not_specified
  ok (amount, max_fee)

-- createTransaction
unfoldable pub create_transaction : (Tx : Type 0) → LoanParams → ℤ → Option Tx
create_transaction Tx params fee = none

-- Execute
unfoldable pub execute_loan : (Tx : Type 0) → LoanParams → Run LoanError (Option Tx)
unfolding validate_loan calculate_fee create_transaction
execute_loan Tx params = do
  (amount, max_fee) ← validate_loan params
  guard (leb_ℤ (calculate_fee amount) max_fee) fee_exceeds_maximum
  ok (create_transaction Tx params (calculate_fee amount))
