-- ===== src/Frontrun/Tests.antt =====
-- strategies/frontrun/frontrun.go: the theorem on two attacks.
use profit_monopoly.Prelude.{refl, panic, ◌≡◌, List, [], ◌∷◌, ltb, true, ℕ, ◌*◌}
use profit_monopoly.Int.{pos}
use profit_monopoly.Frontrun.{
  analyze, calculate, execute_all, new_stats, Config, FloatOrder, PendingTx,
}

abbrev percents : FloatOrder
percents = record { Value = ℕ; zero_value = 0; less = ltb; product = λ a b. a * b }

abbrev config : Config percents
config = record {
  min_profit_threshold = pos 10;
  max_gas_price = pos 100;
  simulation_enabled = true;
  min_confidence = 60;
}

abbrev swap : PendingTx
swap = record { hash = 3; gas_price = pos 40 }

abbrev swaps : List PendingTx
swaps = swap ∷ swap ∷ []

two_failures : (execute_all swaps new_stats).failed_attacks ≡ 2
unfolding execute_all new_stats
two_failures = refl

nil_profit : analyze percents config swap ≡ panic
unfolding analyze calculate
nil_profit = refl
