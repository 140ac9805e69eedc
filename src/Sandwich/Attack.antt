-- ===== src/Sandwich/Attack.antt =====
-- strategies/sandwich/sandwich.go: SandwichAttack. The decoder, the encoder of a swap and the
-- construction of a transaction are parameters.
use profit_monopoly.Prelude.{
  Bool, List, Option, Run, [], deref, err, false, guard, if◌then◌else◌, none, ok, or_err, panic,
  some, wrap, ℕ, ◌%◌, ◌&&◌, ◌+◌, ◌==◌, ◌>>=◌, ◌>>◌, ◌^◌, ◌||◌, ◌∷◌,
}
use profit_monopoly.Int.{leb_ℤ, ltb_ℤ, pos, ℤ}
use profit_monopoly.Sandwich.Bundle.{BundleError, Network, Tx, submit_bundle}
use profit_monopoly.Sandwich.Loan.{LoanError, LoanParams, execute_loan}
use profit_monopoly.Sandwich.Profit.{
  PoolConfig, ProfitCalculator, ProfitError, calculate_expected_profit,
  calculate_optimal_frontrun_amount,
}

-- The SwapParams that are read; the decoder answers no nil amount.
pub record Swap : Type 0 where
  pub token_in : ℕ
  pub token_out : ℕ
  pub amount_in : ℤ

pub record Config : Type 0 where
  pub pools : List PoolConfig
  pub calculator : ProfitCalculator
  pub min_profit_threshold : ℤ
  pub max_flash_loan_fee : Option ℤ
  pub sandwich_executor : ℕ
  pub max_gas_price : Option ℤ

-- DecodeSwapParams, the encoding of a swap with its deadline, PendingNonceAt of the executor, and
-- NewTransaction for a nonce, a gas price and the data.
pub record Environment : Type 0 where
  pub network : Network
  pub decode_swap_params : List ℕ → Option Swap
  pub encode_swap : ℕ → ℕ → ℤ → Option (List ℕ)
  pub pending_nonce : Option ℕ
  pub new_transaction : ℕ → ℤ → List ℕ → Tx

pub data AttackError : Type 0 where
  decode_failed pool_is_nil invalid_pool_reserves : AttackError
  calculation_failed : ProfitError → AttackError
  flash_loan_failed : LoanError → AttackError
  encode_failed nonce_failed : AttackError
  submit_failed : BundleError → AttackError

-- getTargetPool
unfoldable pub get_target_pool : List PoolConfig → ℕ → ℕ → Option PoolConfig
get_target_pool [] token0 token1 = none
get_target_pool (pool ∷ pools) token0 token1 =
    if (pool.token0 == token0 && pool.token1 == token1)
      || (pool.token0 == token1 && pool.token1 == token0)
    then some pool
    else get_target_pool pools token0 token1

-- validatePool; a nil reserve is dereferenced, the second one only if the first is positive.
unfoldable pub validate_pool : Option PoolConfig → Run AttackError (Unit {0})
validate_pool pool = do
  p ← or_err pool pool_is_nil
  reserve0 ← deref p.reserve0
  guard (ltb_ℤ (pos 0) reserve0) invalid_pool_reserves
  reserve1 ← deref p.reserve1
  guard (ltb_ℤ (pos 0) reserve1) invalid_pool_reserves

-- `profit.Cmp(threshold) >= 0`; an error is logged and answers false.
unfoldable pub exceeds : ℤ → Run AttackError ℤ → Run ⊥ Bool
exceeds threshold (ok profit) = ok (leb_ℤ threshold profit)
exceeds threshold (err e) = ok false
exceeds threshold panic = panic

abbrev pub loan_params : Config → Swap → ℤ → LoanParams
loan_params config swap frontrun_amount = record {
  token = swap.token_in;
  amount = some frontrun_amount;
  max_fee = config.max_flash_loan_fee;
  recipient = config.sandwich_executor;
}

module _ (config : Config) (env : Environment) where
  -- The calls of IsProfitable up to the profit.
  unfoldable pub expected_profit : List ℕ → Run AttackError ℤ
  unfolding get_target_pool validate_pool
  expected_profit data_ = do
    swap ← or_err (env.decode_swap_params data_) decode_failed
    let pool = get_target_pool config.pools swap.token_in swap.token_out
    validate_pool pool
    frontrun_amount ←
        wrap calculation_failed
          (calculate_optimal_frontrun_amount (some config.calculator) pool (some swap.amount_in))
    wrap calculation_failed (
        calculate_expected_profit (some config.calculator) pool (some frontrun_amount)
          (some swap.amount_in))

  -- IsProfitable
  unfoldable pub is_profitable : List ℕ → Run ⊥ Bool
  unfolding expected_profit exceeds
  is_profitable data_ = exceeds config.min_profit_threshold (expected_profit data_)

  -- createFrontrunTx with 0 and createBackrunTx with 1 and the tokens exchanged.
  unfoldable pub create_swap_tx : ℕ → ℕ → ℕ → ℤ → Run AttackError Tx
  create_swap_tx ahead token_in token_out amount = do
    call_data ← or_err (env.encode_swap token_in token_out amount) encode_failed
    nonce ← or_err env.pending_nonce nonce_failed
    gas_price ← deref config.max_gas_price
    ok (env.new_transaction ((nonce + ahead) % 2 ^ 64) gas_price call_data)

  -- The part of Execute behind the frontrun amount.
  unfoldable pub after_amount : ℕ → Tx → Swap → ℤ → Run AttackError (Unit {0})
  unfolding create_swap_tx
  after_amount now victim_tx swap amount = do
    flash_loan_tx ← wrap flash_loan_failed (execute_loan Tx (loan_params config swap amount))
    frontrun_tx ← create_swap_tx 0 swap.token_in swap.token_out amount
    backrun_tx ← create_swap_tx 1 swap.token_out swap.token_in amount
    wrap submit_failed (
        submit_bundle env.network now
          (flash_loan_tx ∷ some frontrun_tx ∷ some victim_tx ∷ some backrun_tx ∷ []))

  -- Execute
  unfoldable pub execute : ℕ → List ℕ → Tx → Run AttackError (Unit {0})
  unfolding get_target_pool validate_pool after_amount
  execute now data_ victim_tx = do
    swap ← or_err (env.decode_swap_params data_) decode_failed
    let pool = get_target_pool config.pools swap.token_in swap.token_out
    validate_pool pool
    frontrun_amount ←
        wrap calculation_failed
          (calculate_optimal_frontrun_amount (some config.calculator) pool (some swap.amount_in))
    after_amount now victim_tx swap frontrun_amount
