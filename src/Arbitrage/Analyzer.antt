-- ===== src/Arbitrage/Analyzer.antt =====
-- mempool/analyzer.go: what an analysis reports. The connection to the node is a parameter; the
-- priority, a quotient of floating-point numbers, is left out. The detector is made once.
use profit_monopoly.Prelude.{Bool, List, Option, [], if◌then◌else◌, none, some, ℕ, ◌++◌, ◌^◌, ◌∷◌}
use profit_monopoly.Int.{ltb_ℤ, pos, ℤ}
use profit_monopoly.Arbitrage.Routes.{Detector, Exchange, Route, Simulator, find_arbitrage}

-- What Dial and the constructors of the exchanges answer, and the simulator.
pub record Node : Type 0 where
  pub dials : Bool
  pub new_exchanges : Option (List Exchange)
  pub simulator : Simulator

pub record Opportunity : Type 0 where
  pub tx : ℕ
  pub profit : ℤ
  pub gas_cost : Option ℤ

pub record Analyzer : Type 0 where
  pub exchanges : Option (List Exchange)
  pub tokens : List ℕ
  pub detector : Option Detector

-- NewAnalyzer
unfoldable pub new_analyzer : List ℕ → Analyzer
new_analyzer tokens = record { exchanges = none; tokens = tokens; detector = none }

-- `bestRoute == nil || route.Profit.Cmp(bestRoute.Profit) > 0`
unfoldable pub better_route : Option Route → Route → Route
better_route none route = route
better_route (some best) route = if ltb_ℤ best.profit route.profit then route else best

unfoldable pub best_route : Option Route → List Route → Option Route
unfolding better_route
best_route best [] = best
best_route best (route ∷ routes) = best_route (some (better_route best route)) routes

-- The part of checkArbitrage behind the detector.
unfoldable pub report_best : ℕ → Option Route → Option Opportunity
report_best tx none = none
report_best tx (some route) =
    some (record { tx = tx; profit = route.profit; gas_cost = route.gas_cost })

unfoldable pub new_detector : List Exchange → List ℕ → Detector
new_detector exchanges tokens = record {
  exchanges = exchanges;
  tokens = tokens;
  min_profit = pos (10 ^ 16);
}

module _ (node : Node) where
  -- initExchanges
  unfoldable pub init_exchanges : Option (List Exchange)
  init_exchanges = if node.dials then node.new_exchanges else none

  unfoldable pub detect : ℕ → Detector → Option Opportunity
  unfolding report_best best_route
  detect tx d = report_best tx (best_route none (find_arbitrage node.simulator d))

  -- checkArbitrage, with the exchanges that are there by then.
  unfoldable pub check_arbitrage : ℕ → List Exchange → Analyzer → Option Opportunity × Analyzer
  unfolding detect new_detector
  check_arbitrage tx exchanges a = elim a.detector [
    | some d ↦ (detect tx d, a)
    | none ↦
        if node.dials
        then (
          detect tx (new_detector exchanges a.tokens),
          record a { detector = some (new_detector exchanges a.tokens) },
        )
        else (none, a)
  ]

  -- checkLiquidation is a stub that finds nothing.
  unfoldable pub check_liquidation : ℕ → Option Opportunity
  check_liquidation tx = none

  unfoldable pub report : Option Opportunity → List Opportunity
  report none = []
  report (some opportunity) = opportunity ∷ []

  unfoldable pub analyze_with : ℕ → List Exchange → Analyzer → List Opportunity × Analyzer
  unfolding check_arbitrage check_liquidation report
  analyze_with tx exchanges a =
      let (found, after) = check_arbitrage tx exchanges a in
      (report found ++ report (check_liquidation tx), after)

  -- AnalyzeTransaction
  unfoldable pub analyze_transaction : ℕ → Analyzer → List Opportunity × Analyzer
  unfolding analyze_with init_exchanges
  analyze_transaction tx a = elim a.exchanges [
    | some exchanges ↦ analyze_with tx exchanges a
    | none ↦ elim init_exchanges [
      | none ↦ ([], a)
      | some exchanges ↦ analyze_with tx exchanges (record a { exchanges = some exchanges })
    ]
  ]
