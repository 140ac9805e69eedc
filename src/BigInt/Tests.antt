-- ===== src/BigInt/Tests.antt =====
-- utils/math/bigint.go: the theorems at inputs that meet their hypotheses.
use profit_monopoly.Prelude.{List, Option, [], arith, none, ok, refl, some, ℕ, ◌∷◌, ◌≡◌}
use profit_monopoly.Int.{negsuc, pos, ℤ}
use profit_monopoly.BigInt.Metrics.{IsValid, new_strategy_metrics}
use profit_monopoly.BigInt.MultiHop.{MultiHopParams, calculate_multi_hop_arbitrage}
use profit_monopoly.BigInt.MultiHop.Choice.{IsChoice, calculate_multi_hop_arbitrage-IsChoice}
use profit_monopoly.BigInt.Compare.{
  compare_arrays_simd, compare_arrays_simd-eq-compare_each, compare_each,
}

abbrev left_slice : List (Option ℤ)
left_slice = some (pos 3) ∷ none ∷ some (negsuc 4) ∷ some (pos 0) ∷ some (pos 9) ∷ []

abbrev right_slice : List (Option ℤ)
right_slice = some (pos 5) ∷ some (pos 1) ∷ some (negsuc 4) ∷ none ∷ some (pos 2) ∷ []

compare_arrays_simd-eq-compare_each_example :
    compare_arrays_simd left_slice right_slice ≡ ok (some (compare_each left_slice right_slice))
compare_arrays_simd-eq-compare_each_example =
    compare_arrays_simd-eq-compare_each left_slice right_slice refl

abbrev three_hops : MultiHopParams
three_hops = record {
  amounts = some (pos 1000) ∷ none ∷ some (pos 7) ∷ [];
  prices = some (pos 10) ∷ some (pos 12) ∷ some (pos 15) ∷ [];
  gas_costs = some (pos 5) ∷ some (pos 5) ∷ some (pos 5) ∷ [];
  max_hops = pos 3;
  min_profit_bps = some (pos 100);
}

calculate_multi_hop_arbitrage-IsChoice_example :
    (r : Option (List ℕ) × ℤ) × (calculate_multi_hop_arbitrage three_hops ≡ ok r)
    × IsChoice three_hops r
calculate_multi_hop_arbitrage-IsChoice_example =
    calculate_multi_hop_arbitrage-IsChoice three_hops (omega arith) (omega arith) (pos 10) (pos 100)
      refl (omega arith) refl

new_strategy_metrics-IsValid : IsValid new_strategy_metrics
unfolding new_strategy_metrics
new_strategy_metrics-IsValid = omega arith
