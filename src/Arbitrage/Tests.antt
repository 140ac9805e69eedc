-- ===== src/Arbitrage/Tests.antt =====
-- strategies/arbitrage/ and mempool/analyzer.go: the theorems for two exchanges and two tokens.
use profit_monopoly.Arbitrage.Rates.{Rates, detect_opportunities}
use profit_monopoly.Arbitrage.Spreads.{Answers, AnySpread, detect_opportunities-Answers}
use profit_monopoly.Prelude.{
  arith, inl, inr, List, [], ◌∷◌, ℕ, ◌≡◌, ◌↔◌, none, some, true, false, refl, length,
}
use profit_monopoly.Int.{pos, ◌-ℤ◌, ◌*ℤ◌}
use profit_monopoly.Arbitrage.Routes.{
  Detector, Exchange, Route, SimResult, Simulator, find_arbitrage, new_route, with_gas,
}
use profit_monopoly.Arbitrage.Elements.{Elem}
use profit_monopoly.Arbitrage.Detector.{IsOpportunity, find_arbitrage_iff}
use profit_monopoly.Arbitrage.Analyzer.{Analyzer, Node, analyze_transaction}
use profit_monopoly.Arbitrage.Best.{IsReport, analyze_transaction-IsReport}

-- An exchange with one price for every pair.
abbrev flat_exchange : ℕ → ℕ → Exchange
flat_exchange name price = record { get_name = name; get_price = λ _ _. some (pos price) }

abbrev five_gas : SimResult
five_gas = record { success = true; gas_used = 5; error = none }

abbrev gas_of_500 : Simulator
gas_of_500 = record { simulate_arbitrage = λ _. some five_gas; gas_price = λ _. pos 100 }

-- The node refuses every call, which SimulateArbitrage reports in its result.
abbrev reverts : Simulator
reverts = record {
  simulate_arbitrage = λ _. some (record { success = false; gas_used = 0; error = some 3 });
  gas_price = λ _. pos 100;
}

abbrev two_exchanges : List Exchange
two_exchanges = flat_exchange 1 1000 ∷ flat_exchange 2 3000 ∷ []

abbrev detector : Detector
detector = record { exchanges = two_exchanges; tokens = 7 ∷ 8 ∷ []; min_profit = pos 1000 }

abbrev expected : Route
expected =
    with_gas gas_of_500 (new_route 7 8 (flat_exchange 1 1000) (flat_exchange 2 3000) (pos 2000))
      five_gas

find_arbitrage_iff_example :
    Elem expected (find_arbitrage gas_of_500 detector)
    ↔ IsOpportunity gas_of_500 (pos 1000) (7 ∷ 8 ∷ []) two_exchanges expected
find_arbitrage_iff_example = find_arbitrage_iff gas_of_500 detector expected

-- Both directions of the pair of tokens, from the cheap exchange to the dear one.
two_routes_found : length (find_arbitrage gas_of_500 detector) ≡ 2
unfolding find_arbitrage ◌-ℤ◌ ◌*ℤ◌
two_routes_found = refl

-- Two opportunities also if each simulation failed.
failures_found : length (find_arbitrage reverts detector) ≡ 2
unfolding find_arbitrage ◌-ℤ◌ ◌*ℤ◌
failures_found = refl

abbrev node : Node
node = record { dials = true; new_exchanges = none; simulator = gas_of_500 }

analyze_transaction-IsReport_example :
    let a : Analyzer = record {
      exchanges = some two_exchanges;
      tokens = 7 ∷ 8 ∷ [];
      detector = some detector;
    } in
    let (reported, after) = analyze_transaction node 42 a in
    IsReport (IsOpportunity gas_of_500 (pos 1000) (7 ∷ 8 ∷ []) two_exchanges) 42 reported
    × (after ≡ a)
analyze_transaction-IsReport_example =
    analyze_transaction-IsReport node detector 42 two_exchanges (7 ∷ 8 ∷ [])

-- Token 7 in token 8 on the first exchange, and back on the second.
abbrev first_rates : Rates
first_rates = (7, (8, pos 100) ∷ (7, pos 1) ∷ []) ∷ []

abbrev second_rates : Rates
second_rates = (8, (7, pos 130) ∷ []) ∷ []

detect_opportunities-Answers_example :
    Answers second_rates
      (pos 0)
      (detect_opportunities second_rates (pos 0) first_rates)
      (AnySpread second_rates (pos 0) first_rates)
detect_opportunities-Answers_example =
    detect_opportunities-Answers second_rates (pos 0) first_rates
      ((inr ((λ e. absurd (omega arith)), pos 130, refl), (inl refl, tt)), tt)
