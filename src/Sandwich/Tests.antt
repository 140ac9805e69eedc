-- ===== src/Sandwich/Tests.antt =====
-- strategies/sandwich/: the theorems for one pool and one swap.
use profit_monopoly.Sandwich.Hash.{calculate_bundle_hash_last, ending}
use profit_monopoly.Prelude.{
  List, leb, length, length-append, false, if◌then◌else◌, suc, sym, ◌∙◌, ◌++◌, ◌≤◌, replicate, [],
  arith, ok, panic, refl, some, true, ℕ, ◌+◌, ◌*◌, ◌/◌, ◌<◌, ◌≡◌, ◌∷◌,
}
use profit_monopoly.Int.{euclid, pos, ◌*ℤ◌, ◌+ℤ◌, ◌-ℤ◌}
use profit_monopoly.Sandwich.Attack.{
  Config, Environment, Swap, execute, get_target_pool, is_profitable,
}
use profit_monopoly.Sandwich.Bundle.{calculate_bundle_hash, Network, Tx, submit_bundle}
use profit_monopoly.Sandwich.Loan.{execute_loan}
use profit_monopoly.Sandwich.Failure.{IsFailure, execute-IsFailure}
use profit_monopoly.Sandwich.Profit.{
  PoolConfig, calculate_expected_profit, calculate_optimal_frontrun_amount,
}
use profit_monopoly.Sandwich.Threshold.{is_profitable_reserves}

abbrev victim : Tx
victim = record { hash = 1 ∷ []; gas = 21000; value = pos 0 }

abbrev net : Network
net = record {
  int_bytes = λ n. n ∷ [];
  bytes_to_hash = λ bytes. bytes;
  block_number = some 100;
  sign = λ hash. some hash;
}

abbrev swap : Swap
swap = record { token_in = 1; token_out = 2; amount_in = pos 5000000 }

abbrev env : Environment
env = record {
  network = net;
  decode_swap_params = λ _. some swap;
  encode_swap = λ token_in token_out _. some (token_in ∷ token_out ∷ []);
  pending_nonce = some 3;
  new_transaction =
      λ nonce _ call_data. record { hash = nonce ∷ call_data; gas = 300000; value = pos 0 };
}

abbrev pool : PoolConfig
pool = record {
  token0 = 2;
  token1 = 1;
  reserve0 = some (pos 1000000);
  reserve1 = some (pos 9000000);
}

abbrev config : Config
config = record {
  pools = pool ∷ [];
  calculator = record { gas_price = some (pos 2) };
  min_profit_threshold = pos 10;
  max_flash_loan_fee = some (pos 900);
  sandwich_executor = 77;
  max_gas_price = some (pos 50);
}

execute-IsFailure_example : IsFailure (some 100) (execute config env 5 (0 ∷ []) victim)
execute-IsFailure_example = execute-IsFailure config env 5 (0 ∷ []) victim

-- Nothing fails before the bundle, whose hash dereferences the nil loan.
execute_panics : execute config env 5 (0 ∷ []) victim ≡ panic
unfolding execute euclid ◌*ℤ◌ calculate_optimal_frontrun_amount execute_loan submit_bundle
execute_panics = refl

swap_is_profitable : is_profitable config env (0 ∷ []) ≡ ok true
unfolding is_profitable euclid ◌*ℤ◌ ◌+ℤ◌ ◌-ℤ◌ calculate_optimal_frontrun_amount
    calculate_expected_profit
swap_is_profitable = refl

is_profitable_reserves_example :
    (p : PoolConfig) × (r0 r1 : ℕ) × (get_target_pool (pool ∷ []) 1 2 ≡ some p)
    × (p.reserve0 ≡ some (pos r0))
    × (p.reserve1 ≡ some (pos r1))
    × (0 < r0)
    × (r0 + (5000000 * 20) / 100 < r1)
is_profitable_reserves_example =
    is_profitable_reserves config env (0 ∷ []) swap 2 10 5000000 refl refl refl refl (omega arith)
      swap_is_profitable

-- The last 32 bytes.
abbrev crop_to_hash : List ℕ → List ℕ
crop_to_hash [] = []
crop_to_hash (b ∷ bs) =
    let rest = crop_to_hash bs in if leb (length (b ∷ bs)) 32 then b ∷ bs else rest

crop_to_hash-append : (xs zs : List ℕ) → 32 ≤ length zs → crop_to_hash (xs ++ zs) ≡ crop_to_hash zs
crop_to_hash-append [] zs h = refl
crop_to_hash-append (x ∷ xs) zs h =
    rw (longer (length (xs ++ zs)) (omega (arith, length-append xs zs)))
      (crop_to_hash-append xs zs h)
  where
    longer : (n : ℕ) → 32 ≤ n → leb (suc n) 32 ≡ false
    longer n h = ground arith

abbrev cropping_net : Network
cropping_net = record net { bytes_to_hash = crop_to_hash }

abbrev last_tx : Tx
last_tx = record { hash = replicate 32 7; gas = 21000; value = pos 0 }

calculate_bundle_hash_last_example :
    (hash : List ℕ) × (calculate_bundle_hash cropping_net (ending (victim ∷ []) last_tx 101 5)
      ≡ ok hash)
    × (calculate_bundle_hash cropping_net (ending [] last_tx 101 5) ≡ ok hash)
calculate_bundle_hash_last_example =
    calculate_bundle_hash_last cropping_net (victim ∷ []) [] last_tx 101 5
      (λ xs ys zs h. crop_to_hash-append xs zs h ∙ sym (crop_to_hash-append ys zs h)) (omega arith)
