-- ===== src/Flashloan/Tests.antt =====
-- flashloan/: the theorems at concrete providers and loans.
use profit_monopoly.Prelude.{
  arith, List, Option, [], none, ok, some, ℕ, ◌∷◌, ◌≡◌, ◌↔◌, replicate, refl, ◌++◌,
}
use profit_monopoly.Int.{euclid, pos, ℤ, ◌*ℤ◌}
use profit_monopoly.Flashloan.{FlashLoanParams}
use profit_monopoly.Flashloan.Balancer.{balancer_provider, get_flash_loan_fee}
use profit_monopoly.Flashloan.Balancer.Chosen.{select_optimal_provider-balancer}
use profit_monopoly.Flashloan.Manager.{
  Provider, Call, adds, executes, new_flash_loan_manager, run_calls, select_optimal_provider,
}
use profit_monopoly.Flashloan.Manager.Selection.{IsSelection, select_optimal_provider-IsSelection}
use profit_monopoly.Flashloan.Manager.Rate.{Counts, run_calls-Counts}
use profit_monopoly.Flashloan.Aave.{
  ProviderConfig, AaveMetrics, Chain, execute_flash_loan, validate_repayment,
}
use profit_monopoly.Flashloan.Aave.Bounds.{IsCovered, validate_repayment_iff}

abbrev loan : FlashLoanParams
loan = record {
  target = 7;
  token = 1;
  amount = some (pos 200);
  calldata = 9 ∷ [];
  repayment_path = 1 ∷ 2 ∷ [];
  gas_price = some (pos 30);
  gas_limit = 500000;
}

-- Providers with a fixed fee; the first one does not know the token.
abbrev provider : ℕ → Option ℤ → Provider ℕ
provider n fee = record {
  name = n;
  offered_fee = λ _. fee;
  current_fee = λ _. fee;
  execute_flash_loan = λ _. some n;
}

abbrev market : List (Provider ℕ)
market = provider 1 none ∷ provider 2 (some (pos 9)) ∷ provider 3 (some (pos 4)) ∷ []

cheapest_is_selected : select_optimal_provider loan market ≡ ok (provider 3 (some (pos 4)))
unfolding select_optimal_provider
cheapest_is_selected = refl

select_optimal_provider-IsSelection_example :
    IsSelection loan.token market (select_optimal_provider loan market)
select_optimal_provider-IsSelection_example = select_optimal_provider-IsSelection loan market

abbrev with_balancer : List (Provider ℕ)
with_balancer = provider 2 (some (pos 9)) ∷ balancer_provider 5 (λ _. some 8) ∷ []

select_optimal_provider-balancer_example :
    (p : Provider ℕ) × (select_optimal_provider loan with_balancer ≡ ok p)
    × (p.offered_fee loan.token ≡ some (pos 0))
unfolding balancer_provider get_flash_loan_fee
select_optimal_provider-balancer_example =
    select_optimal_provider-balancer loan with_balancer 1 5 (λ _. some 8) refl
      (omega arith, (omega arith, tt))

abbrev two_loans : List (Call ℕ)
two_loans = adds (provider 2 (some (pos 9))) ∷ executes loan ∷ executes loan ∷ []

run_calls-Counts_example : Counts 0 (run_calls two_loans (new_flash_loan_manager ℕ)).metrics
run_calls-Counts_example = run_calls-Counts two_loans

rate_of_two_loans : (run_calls two_loans (new_flash_loan_manager ℕ)).metrics.success_rate ≡ (4, 2)
unfolding run_calls new_flash_loan_manager
rate_of_two_loans = refl

-- A pool of 1000 units of every token.
abbrev node : Chain
node = record {
  pack_reserve_data = λ token. some (token ∷ []);
  pack_flash_loan = λ params. some params.calldata;
  call_contract = λ _ _. some (replicate 30 0 ++ 3 ∷ 232 ∷ []);
  pending_nonce = λ _. some 12;
}

abbrev pool_config : ProviderConfig
pool_config = record {
  contract_address = 5;
  min_loan_amount = pos 10;
  max_loan_amount = pos 800;
  max_loan_percentage = 30;
  base_fee = 9;
}

validate_repayment_iff_example :
    (validate_repayment node pool_config (some loan) ≡ ok tt) ↔ IsCovered node pool_config loan
validate_repayment_iff_example = validate_repayment_iff node pool_config loan

loan_is_valid : validate_repayment node pool_config (some loan) ≡ ok tt
unfolding validate_repayment euclid ◌*ℤ◌
loan_is_valid = refl

abbrev no_loans : AaveMetrics
no_loans = record { errors = 0; loan_count = 0; volume = []; fees = [] }

loan_is_sent : execute_flash_loan node pool_config (some loan) no_loans ≡ (
  ok (record { nonce = 12; to = 5; gas_limit = 500000; gas_price = pos 30; data_ = 9 ∷ [] }),
  record { errors = 0; loan_count = 1; volume = 200 ∷ []; fees = 0 ∷ [] },
)
unfolding execute_flash_loan euclid ◌*ℤ◌
loan_is_sent = refl
