-- ===== src/Flashloan.antt =====
-- flashloan/: the providers of flash loans and the manager that chooses one. The manager takes a
-- provider as the values that its methods answer; the node is a parameter.
pub mod Manager
pub mod Aave
pub mod Balancer
mod Tests
use profit_monopoly.Prelude.{List, Option, ℕ}
use profit_monopoly.Int.{ℤ}

-- FlashLoanParams (flashloan/types.go); `none` is a nil pointer.
pub record FlashLoanParams : Type 0 where
  pub target : ℕ
  pub token : ℕ
  pub amount : Option ℤ
  pub calldata : List ℕ
  pub repayment_path : List ℕ
  pub gas_price : Option ℤ
  pub gas_limit : ℕ
