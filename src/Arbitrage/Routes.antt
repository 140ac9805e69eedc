-- ===== src/Arbitrage/Routes.antt =====
-- strategies/arbitrage/detector.go: what FindArbitrage tries. What the node
-- answers to a simulation is a parameter.
use profit_monopoly.Prelude.{
  Bool, List, Option, [], false, if◌then◌else◌, ltb, none, some, true, ℕ, ◌++◌, ◌+◌, ◌-◌, ◌==◌, ◌^◌,
  ◌∷◌,
}
use profit_monopoly.Int.{ltb_ℤ, negsuc, pos, ℤ, ◌*ℤ◌, ◌+ℤ◌, ◌-ℤ◌}

-- Exchange (dex/interfaces.go), as far as the detector calls it; `none` is an error.
pub record Exchange : Type 0 where
  pub get_name : ℕ
  pub get_price : ℕ → ℕ → Option ℤ

-- Route; the flash loan pool and token are never set.
pub record Route : Type 0 where
  pub path : List ℕ
  pub exchanges : List Exchange
  pub input_amount : ℤ
  pub output_amount : ℤ
  pub profit : ℤ
  pub gas_cost : Option ℤ
  pub simulated : Bool
  pub simulation_gas : ℕ

-- simulator.SimulationResult: a simulation that fails at the node is a result with `success` false
-- and the error, not an error of SimulateArbitrage. FindArbitrage reads `gas_used` only.
pub record SimResult : Type 0 where
  pub success : Bool
  pub gas_used : ℕ
  pub error : Option ℕ

-- SimulateArbitrage, `none` for an error that it returns, and the gas price that FindArbitrage takes
-- from a result. The struct of the results has no such field, so what it holds is a parameter.
pub record Simulator : Type 0 where
  pub simulate_arbitrage : Route → Option SimResult
  pub gas_price : SimResult → ℤ

pub record Detector : Type 0 where
  pub exchanges : List Exchange
  pub tokens : List ℕ
  pub min_profit : ℤ

-- `int64(x)` of a uint64.
abbrev pub to_int64 : ℕ → ℤ
to_int64 n = if ltb n (2 ^ 63) then pos n else negsuc (2 ^ 64 - 1 - n)

unfoldable pub new_route : ℕ → ℕ → Exchange → Exchange → ℤ → Route
new_route token0 token1 exchange0 exchange1 profit = record {
  path = token0 ∷ token1 ∷ [];
  exchanges = exchange0 ∷ exchange1 ∷ [];
  input_amount = pos (10 ^ 18);
  output_amount = pos (10 ^ 18) +ℤ profit;
  profit = profit;
  gas_cost = none;
  simulated = false;
  simulation_gas = 0;
}

unfoldable pub with_gas : Simulator → Route → SimResult → Route
with_gas simulator route result = record route {
  simulated = true;
  simulation_gas = result.gas_used;
  gas_cost = some (to_int64 result.gas_used *ℤ simulator.gas_price result);
}

-- `for i, x := range xs` that appends what each round finds.
unfoldable pub collect {ℓ κ} : {A : Type ℓ} {B : Type κ} → (ℕ → A → List B) → ℕ → List A → List B
collect f i [] = []
collect f i (x ∷ xs) = f i x ++ collect f (i + 1) xs

module _ (simulator : Simulator) (min_profit : ℤ) where
  unfoldable pub after_gas : Route → SimResult → List Route
  unfolding with_gas
  after_gas route result =
      if ltb_ℤ min_profit (route.profit -ℤ (to_int64 result.gas_used *ℤ simulator.gas_price result))
      then with_gas simulator route result ∷ []
      else []

  unfoldable pub simulate_route : Route → List Route
  unfolding after_gas
  simulate_route route = elim (simulator.simulate_arbitrage route) [
    | none ↦ []
    | some result ↦ after_gas route result
  ]

  unfoldable pub compare_prices : ℕ → ℕ → Exchange → Exchange → ℤ → ℤ → List Route
  unfolding new_route simulate_route
  compare_prices token0 token1 exchange0 exchange1 price0 price1 =
      let profit = price1 -ℤ price0 in
      if ltb_ℤ min_profit profit
      then simulate_route (new_route token0 token1 exchange0 exchange1 profit)
      else []

  -- One pair of exchanges.
  unfoldable pub try_pair : ℕ → ℕ → Exchange → Exchange → List Route
  unfolding compare_prices
  try_pair token0 token1 exchange0 exchange1 = elim (exchange0.get_price token0 token1) [
    | none ↦ []
    | some price0 ↦ elim (exchange1.get_price token1 token0) [
      | none ↦ []
      | some price1 ↦ compare_prices token0 token1 exchange0 exchange1 price0 price1
    ]
  ]

  unfoldable pub try_exchanges : List Exchange → ℕ → ℕ → List Route
  unfolding collect try_pair
  try_exchanges exchanges token0 token1 =
      collect
        (λ i exchange0.
          collect (λ j exchange1. if i == j then [] else try_pair token0 token1 exchange0 exchange1)
            0 exchanges)
        0 exchanges

-- FindArbitrage
unfoldable pub find_arbitrage : Simulator → Detector → List Route
unfolding collect try_exchanges
find_arbitrage simulator d =
    collect
      (λ _ token0.
        collect
          (λ _ token1.
            if token0 == token1
            then []
            else try_exchanges simulator d.min_profit d.exchanges token0 token1)
          0 d.tokens)
      0 d.tokens
