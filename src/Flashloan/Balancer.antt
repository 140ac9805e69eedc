-- ===== src/Flashloan/Balancer.antt =====
-- flashloan/balancer/provider.go: the provider of Balancer. The vault, the node, the packing and the
-- signer are parameters: each answers `none` for an error, the signer for the nil key that the
-- provider gives it as well.
pub mod Chosen
use profit_monopoly.Prelude.{
  Bool, List, Option, Run, [], err, if◌then◌else◌, length, none, ok, or_err, panic, some, ℕ, ◌==◌,
  ◌∷◌, ◌>>=◌,
}
use profit_monopoly.Int.{ltb_ℤ, pos, ℤ, ◌-ℤ◌}
use profit_monopoly.Flashloan.{FlashLoanParams}
use profit_monopoly.Flashloan.Manager.{Provider}

-- A value that a call of the vault gives back: a big.Int or something else.
pub data Output : Type 0 where
  integer : ℤ → Output
  other : Output

pub data BalancerError : Type 0 where
  pack_failed gas_price_failed auth_failed transact_failed : BalancerError
  call_failed unexpected_number unexpected_cash unexpected_reserved : BalancerError

pub record Vault (Tx : Type 0) : Type 0 where
  pub token_info : ℕ → Option (List Output)
  -- the amount, the token and the data
  pub pack : Option ℤ → ℕ → List ℕ → Option (List ℕ)
  pub suggest_gas_price : Option ℤ
  pub signer : Run (Unit {0}) ℕ
  -- the signer, the gas price and the gas limit, and the arguments of flashLoan
  pub transact : ℕ → ℤ → ℕ → ℕ → ℕ → Option ℤ → List ℕ → Option Tx

-- GetFlashLoanFee
unfoldable pub get_flash_loan_fee : ℕ → Run BalancerError ℤ
get_flash_loan_fee token = ok (pos 0)

-- `liquidity.Sign() < 0`
unfoldable pub available : ℤ → ℤ → ℤ
available cash reserved =
    let liquidity = cash -ℤ reserved in if ltb_ℤ liquidity (pos 0) then pos 0 else liquidity

-- The part of GetLiquidity behind the call: three values, of which the first and the last count.
unfoldable pub liquidity_of : List Output → Run BalancerError ℤ
unfolding available
liquidity_of (integer cash ∷ _ ∷ integer reserved ∷ []) = ok (available cash reserved)
liquidity_of (integer cash ∷ _ ∷ other ∷ []) = err unexpected_reserved
liquidity_of (other ∷ _ ∷ _ ∷ []) = err unexpected_cash
liquidity_of _ = err unexpected_number

module _ {Tx : Type 0} (v : Vault Tx) where
  -- GetLiquidity
  unfoldable pub get_liquidity : ℕ → Run BalancerError ℤ
  unfolding liquidity_of
  get_liquidity token = or_err (v.token_info token) call_failed >>= liquidity_of

  -- The signer for a nil key
  unfoldable pub new_auth : Run BalancerError ℕ
  new_auth = elim v.signer [ ok auth ↦ ok auth | err _ ↦ err auth_failed | panic ↦ panic ]

  -- ExecuteFlashLoan
  unfoldable pub execute_flash_loan : FlashLoanParams → Run BalancerError Tx
  unfolding new_auth
  execute_flash_loan params = do
    user_data ← or_err (v.pack params.amount params.token params.calldata) pack_failed
    gas_price ← or_err v.suggest_gas_price gas_price_failed
    auth ← new_auth
    or_err (v.transact auth gas_price 1000000 params.target params.token params.amount user_data)
        transact_failed

-- `none` for an error, as the manager takes it
abbrev pub answered {ℓ} : {A : Type ℓ} → Run BalancerError A → Option A
answered (ok a) = some a
answered (err _) = none
answered panic = none

-- The provider as the manager of flash loans sees it, with what its ExecuteFlashLoan answers.
unfoldable pub balancer_provider : {Tx : Type 0} → ℕ → (FlashLoanParams → Option Tx) → Provider Tx
unfolding get_flash_loan_fee
balancer_provider name execute = record {
  name = name;
  offered_fee = λ token. answered (get_flash_loan_fee token);
  current_fee = λ token. answered (get_flash_loan_fee token);
  execute_flash_loan = execute;
}
