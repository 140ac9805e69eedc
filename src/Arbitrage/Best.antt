-- ===== src/Arbitrage/Best.antt =====
-- mempool/analyzer.go: the route that an analysis reports is the best there is.
use mathlib.Core.Path.{subst⁻¹}
use profit_monopoly.Prelude.{
  ◌++◌, Bool-cases, List, Option, [], arith, inl, inr, none, refl, some, ap, ◌∙◌, ℕ, ◌≡◌, ◌⊎◌, ◌∷◌,
}
use profit_monopoly.Int.{ltb_ℤ, ◌≤ℤ◌}
use profit_monopoly.Arbitrage.Routes.{Detector, Exchange, Route, find_arbitrage}
use profit_monopoly.Arbitrage.Elements.{Elem}
use profit_monopoly.Arbitrage.Detector.{IsOpportunity, find_arbitrage_iff}
use profit_monopoly.Arbitrage.Analyzer.{
  Analyzer, Node, Opportunity, analyze_transaction, analyze_with, best_route, better_route,
  check_arbitrage, check_liquidation, detect, report, report_best,
}

-- The best of a list: one of its elements that no other exceeds in profit.
abbrev IsBest : Route → List Route → Type 0
IsBest best routes =
    Elem best routes × ((route : Route) → Elem route routes → route.profit ≤ℤ best.profit)

better_route-cases :
    (b r : Route)
    → ((better_route (some b) r ≡ r) ⊎ (better_route (some b) r ≡ b))
      × (b.profit ≤ℤ (better_route (some b) r).profit)
      × (r.profit ≤ℤ (better_route (some b) r).profit)
unfolding better_route
better_route-cases b r = elim (Bool-cases (ltb_ℤ b.profit r.profit)) [
  | inl t ↦ rw t (inl refl, ground arith, omega arith)
  | inr n ↦ rw n (inr refl, omega arith, ground arith)
]

best_route_from :
    (b : Route) (routes : List Route)
    → (best : Route) × (best_route (some b) routes ≡ some best) × IsBest best (b ∷ routes)
unfolding best_route
best_route_from b [] = (b, refl, (inl refl, only))
  where
    only : (route : Route) → Elem route (b ∷ []) → route.profit ≤ℤ b.profit
    only route (inl e) = rw e (omega arith)
    only route (inr h) = absurd h
best_route_from b (r ∷ routes) =
    let (from, over_b, over_r) = better_route-cases b r in
    let (best, found, (there, most)) = best_route_from (better_route (some b) r) routes in
    let over = most (better_route (some b) r) (inl refl) in
    (best, found, (place from there, λ route h. dominates best over_b over_r over most route h))
  where
    place :
        {best : Route}
        → (better_route (some b) r ≡ r) ⊎ (better_route (some b) r ≡ b)
        → Elem best (better_route (some b) r ∷ routes)
        → Elem best (b ∷ r ∷ routes)
    place (inl e) (inl same) = inr (inl (same ∙ e))
    place (inr e) (inl same) = inl (same ∙ e)
    place _ (inr h) = inr (inr h)

    dominates :
        (best : Route)
        → b.profit ≤ℤ (better_route (some b) r).profit
        → r.profit ≤ℤ (better_route (some b) r).profit
        → (better_route (some b) r).profit ≤ℤ best.profit
        → ((route : Route)
            → Elem route (better_route (some b) r ∷ routes)
            → route.profit ≤ℤ best.profit)
        → (route : Route) → Elem route (b ∷ r ∷ routes)
        → route.profit ≤ℤ best.profit
    dominates best ob or o most route (inl e) = rw e (omega arith)
    dominates best ob or o most route (inr (inl e)) = rw e (omega arith)
    dominates best ob or o most route (inr (inr h)) = most route (inr h)

best_route_lem :
    (routes : List Route)
    → ((best_route none routes ≡ none) × ((route : Route) → Elem route routes → ⊥))
      ⊎ ((best : Route) × (best_route none routes ≡ some best) × IsBest best routes)
unfolding best_route better_route
best_route_lem [] = inl (refl, λ route h. h)
best_route_lem (r ∷ routes) = inr (best_route_from r routes)

-- What an analysis reports, by the opportunities that there are.
abbrev pub IsReport : (Route → Type 0) → ℕ → List Opportunity → Type 0
IsReport opportunity tx reported =
    ((reported ≡ []) × ((route : Route) → opportunity route → ⊥))
    ⊎ ((best : Route) × (reported
          ≡ record { tx = tx; profit = best.profit; gas_cost = best.gas_cost } ∷ [])
        × opportunity best
        × ((route : Route) → opportunity route → route.profit ≤ℤ best.profit))

module _ (node : Node) (d : Detector) where
  detect-IsReport :
      (tx : ℕ)
      → IsReport
          (IsOpportunity node.simulator d.min_profit d.tokens d.exchanges)
          tx
          (report node (detect node tx d))
  unfolding detect report report_best
  detect-IsReport tx = elim (best_route_lem (find_arbitrage node.simulator d)) [
    | inl (nothing, missing) ↦ inl (
      ap (λ b. report node (report_best tx b)) nothing,
      λ route h. missing route ((find_arbitrage_iff node.simulator d route).1 h),
    )
    | inr (best, found, (there, most)) ↦ inr (
      best,
      ap (λ b. report node (report_best tx b)) found,
      (find_arbitrage_iff node.simulator d best).0 there,
      λ route h. most route ((find_arbitrage_iff node.simulator d route).1 h),
    )
  ]

  report_append : (found : Option Opportunity) → report node found ++ [] ≡ report node found
  unfolding report
  report_append none = refl
  report_append (some opportunity) = refl

  -- Once its exchanges and its detector are there, AnalyzeTransaction changes nothing in the
  -- analyzer and reports no opportunity exactly if the detector's tokens and exchanges have none,
  -- and otherwise one, with the profit and the gas of an opportunity whose profit no other
  -- exceeds; the gas plays no part in the choice, and the transaction is only passed on.
  pub analyze_transaction-IsReport :
      (tx : ℕ) (exchanges : List Exchange) (tokens : List ℕ)
      → let a : Analyzer = record {
        exchanges = some exchanges;
        tokens = tokens;
        detector = some d;
      } in
        let (reported, after) = analyze_transaction node tx a in
        IsReport (IsOpportunity node.simulator d.min_profit d.tokens d.exchanges) tx reported
        × (after ≡ a)
  unfolding analyze_transaction analyze_with check_arbitrage check_liquidation report
  analyze_transaction-IsReport tx exchanges tokens = (
    subst⁻¹ (IsReport (IsOpportunity node.simulator d.min_profit d.tokens d.exchanges) tx)
        (report_append (detect node tx d)) (detect-IsReport tx),
    refl,
  )
