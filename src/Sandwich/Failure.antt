-- ===== src/Sandwich/Failure.antt =====
-- strategies/sandwich/sandwich.go: how Execute ends.
use profit_monopoly.Prelude.{
  arith, lt→ltb, length, Bool, List, Option, Option-cases, Run, [], bind_ok, deref, err, false,
  guard, inl, inr, none, ok, ok_inj, or_err, panic, refl, some, sym, true, wrap, wrap_ok, ℕ, ◌>>=◌,
  ◌≡◌, ◌∷◌,
}
use profit_monopoly.Int.{ℤ, leb_ℤ, ltb_ℤ, pos}
use profit_monopoly.Sandwich.Bundle.{
  Network, Tx, block_number_failed, submit_bundle, calculate_bundle_hash, tx_hashes,
}
use profit_monopoly.Sandwich.Loan.{
  fee_exceeds_maximum, LoanParams, execute_loan, create_transaction, calculate_fee, validate_loan,
}
use profit_monopoly.Sandwich.Profit.{PoolConfig, calculate_optimal_frontrun_amount}
use profit_monopoly.Sandwich.Attack.{
  AttackError, Config, Environment, Swap, after_amount, loan_params, calculation_failed,
  create_swap_tx, decode_failed, encode_failed, execute, flash_loan_failed, get_target_pool,
  invalid_pool_reserves, nonce_failed, pool_is_nil, submit_failed, validate_pool,
}

-- An outcome before the bundle is submitted.
abbrev Quiet : {A : Type 0} → Run AttackError A → Type 0
Quiet (err (submit_failed e)) = ⊥
Quiet _ = Unit

-- An outcome that submits nothing: no success, and an error of the submission only from a node that
-- does not answer its block number.
abbrev pub IsFailure : Option ℕ → Run AttackError (Unit {0}) → Type 0
IsFailure block (ok _) = ⊥
IsFailure block (err (submit_failed e)) = (e ≡ block_number_failed) × (block ≡ none)
IsFailure block _ = Unit

bind-IsFailure :
    {A : Type 0} (block : Option ℕ) (r : Run AttackError A) (f : A → Run AttackError (Unit {0}))
    → Quiet r
    → ((a : A) → r ≡ ok a → IsFailure block (f a))
    → IsFailure block (r >>= f)
bind-IsFailure block (ok a) f q h = h a refl
bind-IsFailure block panic f q h = tt
bind-IsFailure block (err decode_failed) f q h = tt
bind-IsFailure block (err pool_is_nil) f q h = tt
bind-IsFailure block (err invalid_pool_reserves) f q h = tt
bind-IsFailure block (err (calculation_failed e)) f q h = tt
bind-IsFailure block (err (flash_loan_failed e)) f q h = tt
bind-IsFailure block (err encode_failed) f q h = tt
bind-IsFailure block (err nonce_failed) f q h = tt
bind-IsFailure block (err (submit_failed e)) f q h = absurd q

bind-Quiet :
    {A B : Type 0} (r : Run AttackError A) (f : A → Run AttackError B)
    → Quiet r
    → ((a : A) → Quiet (f a))
    → Quiet (r >>= f)
bind-Quiet (ok a) f q h = h a
bind-Quiet panic f q h = tt
bind-Quiet (err decode_failed) f q h = tt
bind-Quiet (err pool_is_nil) f q h = tt
bind-Quiet (err invalid_pool_reserves) f q h = tt
bind-Quiet (err (calculation_failed e)) f q h = tt
bind-Quiet (err (flash_loan_failed e)) f q h = tt
bind-Quiet (err encode_failed) f q h = tt
bind-Quiet (err nonce_failed) f q h = tt
bind-Quiet (err (submit_failed e)) f q h = absurd q

or_err-Quiet :
    {A : Type 0} (o : Option A) (e : AttackError) → Quiet {A = A} (err e) → Quiet (or_err o e)
or_err-Quiet none e q = q
or_err-Quiet (some a) e q = tt

deref-Quiet : {A : Type 0} (o : Option A) → Quiet (deref o)
deref-Quiet none = tt
deref-Quiet (some a) = tt

guard-Quiet : (b : Bool) (e : AttackError) → Quiet {A = Unit {0}} (err e) → Quiet (guard b e)
guard-Quiet true e q = tt
guard-Quiet false e q = q

wrap-Quiet :
    {A E : Type 0} (f : E → AttackError) (r : Run E A)
    → ((e : E) → Quiet {A = A} (err (f e)))
    → Quiet (wrap f r)
wrap-Quiet f (ok a) q = tt
wrap-Quiet f (err e) q = q e
wrap-Quiet f panic q = tt

validate_pool-Quiet : (pool : Option PoolConfig) → Quiet (validate_pool pool)
unfolding validate_pool
validate_pool-Quiet pool =
    bind-Quiet (or_err pool pool_is_nil) _ (or_err-Quiet pool pool_is_nil tt) (λ p.
      bind-Quiet (deref p.reserve0) _ (deref-Quiet p.reserve0) (λ reserve0.
        bind-Quiet (guard (ltb_ℤ (pos 0) reserve0) invalid_pool_reserves) _
          (guard-Quiet _ invalid_pool_reserves tt)
          (λ _.
            bind-Quiet (deref p.reserve1) _ (deref-Quiet p.reserve1)
              (λ reserve1. guard-Quiet _ invalid_pool_reserves tt))))

create_swap_tx-Quiet :
    (config : Config) (env : Environment) (ahead token_in token_out : ℕ) (amount : ℤ)
    → Quiet (create_swap_tx config env ahead token_in token_out amount)
unfolding create_swap_tx
create_swap_tx-Quiet config env ahead token_in token_out amount =
    bind-Quiet (or_err (env.encode_swap token_in token_out amount) encode_failed) _
      (or_err-Quiet _ encode_failed tt)
      (λ call_data.
        bind-Quiet (or_err env.pending_nonce nonce_failed) _ (or_err-Quiet _ nonce_failed tt)
          (λ nonce. bind-Quiet (deref config.max_gas_price) _ (deref-Quiet _) (λ price. tt)))

-- The loan that Execute of utils answers is always nil.
execute_loan_nil :
    (params : LoanParams) (tx : Option Tx) → execute_loan Tx params ≡ ok tx → tx ≡ none
unfolding execute_loan create_transaction
execute_loan_nil params tx h =
    let (pair, _, h1) = bind_ok (validate_loan params) _ tx h in
    let (_, _, h2) =
      bind_ok (guard (leb_ℤ (calculate_fee pair.0) pair.1) fee_exceeds_maximum) _ tx h1 in
    sym (ok_inj none tx h2)

-- A bundle that starts with a nil transaction ends in a panic once the block number is there.
submit_nil-IsFailure :
    (net : Network) (now : ℕ) (txs : List (Option Tx))
    → IsFailure net.block_number (wrap submit_failed (submit_bundle net now (none ∷ txs)))
unfolding submit_bundle calculate_bundle_hash tx_hashes
submit_nil-IsFailure net now txs = elim (Option-cases net.block_number) [
  | inl missing ↦
      rw (submit_bundle, lt→ltb 0 (length (none ∷ txs)) (omega arith), missing) (refl, refl)
  | inr (block, there) ↦
      rw (submit_bundle, calculate_bundle_hash, lt→ltb 0 (length (none ∷ txs)) (omega arith), there)
        tt
]

-- Execute of a sandwich never succeeds: it ends in a panic or an error, and in an error of the
-- submission only if the node does not answer its block number; where it does, the bundle is never
-- submitted, since its first transaction, the flash loan, is nil.
pub execute-IsFailure :
    (config : Config) (env : Environment) (now : ℕ) (data_ : List ℕ) (victim_tx : Tx)
    → IsFailure env.network.block_number (execute config env now data_ victim_tx)
unfolding execute after_amount
execute-IsFailure config env now data_ victim_tx =
    let block = env.network.block_number in
    bind-IsFailure block (or_err (env.decode_swap_params data_) decode_failed) _
      (or_err-Quiet _ decode_failed tt)
      (λ swap _.
        let pool = get_target_pool config.pools swap.token_in swap.token_out in
        bind-IsFailure block (validate_pool pool) _ (validate_pool-Quiet pool) (λ _ _.
          let computed =
            calculate_optimal_frontrun_amount (some config.calculator) pool (some swap.amount_in) in
          bind-IsFailure block (wrap calculation_failed computed) _
            (wrap-Quiet calculation_failed computed (λ e. tt)) (λ amount _. lent swap amount)))
  where
    submitted :
        (loan : Option Tx)
        → loan ≡ none
        → (txs : List (Option Tx))
        → IsFailure env.network.block_number
            (wrap submit_failed (submit_bundle env.network now (loan ∷ txs)))
    submitted loan missing txs = rw missing (submit_nil-IsFailure env.network now txs)

    lent :
        (swap : Swap) (amount : ℤ)
        → IsFailure env.network.block_number (after_amount config env now victim_tx swap amount)
    lent swap amount =
        let loan = execute_loan Tx (loan_params config swap amount) in
        let front = create_swap_tx config env 0 swap.token_in swap.token_out amount in
        let back = create_swap_tx config env 1 swap.token_out swap.token_in amount in
        bind-IsFailure env.network.block_number (wrap flash_loan_failed loan) _
          (wrap-Quiet flash_loan_failed loan (λ e. tt))
          (λ tx taken.
            bind-IsFailure env.network.block_number front _
              (create_swap_tx-Quiet config env 0 swap.token_in swap.token_out amount)
              (λ frontrun _.
                bind-IsFailure env.network.block_number back _
                  (create_swap_tx-Quiet config env 1 swap.token_out swap.token_in amount)
                  (λ backrun _.
                    submitted tx
                      (execute_loan_nil (loan_params config swap amount) tx
                        (wrap_ok flash_loan_failed loan tx taken))
                      (some frontrun ∷ some victim_tx ∷ some backrun ∷ []))))
