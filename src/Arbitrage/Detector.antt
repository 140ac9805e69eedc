-- ===== src/Arbitrage/Detector.antt =====
-- strategies/arbitrage/detector.go: which routes FindArbitrage answers.
use profit_monopoly.Prelude.{
  List, Option, [], get_elem?, inl, none, refl, some, ℕ, ◌==◌, ◌≡◌, ◌≢◌, ◌↔◌, ==-ne,
}
use profit_monopoly.Int.{ltb_ℤ, ℤ, ◌*ℤ◌, ◌-ℤ◌, ◌<ℤ◌}
use profit_monopoly.Int.Laws.{ltb_ℤ→<ℤ}
use profit_monopoly.Arbitrage.Routes.{
  Detector, Exchange, Route, SimResult, Simulator, after_gas, compare_prices, find_arbitrage,
  new_route, simulate_route, to_int64, try_exchanges, try_pair, with_gas,
}
use profit_monopoly.Arbitrage.Elements.{
  Elem, Elem-collect, collect-Elem, if-Elem, unless-Elem, singleton-Elem, if_false, ne_of_==, above,
}

module _ (simulator : Simulator) (min_profit : ℤ) where
  -- The prices, the simulation and the two tests that a route between two exchanges passes.
  abbrev pub Pays : ℕ → ℕ → Exchange → Exchange → Route → Type 0
  Pays token0 token1 exchange0 exchange1 route =
      (price0 : ℤ) × (price1 : ℤ) × (result : SimResult) × (exchange0.get_price token0 token1
        ≡ some price0)
      × (exchange1.get_price token1 token0 ≡ some price1)
      × (min_profit <ℤ price1 -ℤ price0)
      × (simulator.simulate_arbitrage
            (new_route token0 token1 exchange0 exchange1 (price1 -ℤ price0))
          ≡ some result)
      × (min_profit <ℤ price1 -ℤ price0 -ℤ (to_int64 result.gas_used *ℤ simulator.gas_price result))
      × (route
          ≡ with_gas simulator (new_route token0 token1 exchange0 exchange1 (price1 -ℤ price0))
              result)

  after_gas-Elem :
      (route r : Route) (result : SimResult)
      → Elem route (after_gas simulator min_profit r result)
      → (min_profit <ℤ r.profit -ℤ (to_int64 result.gas_used *ℤ simulator.gas_price result))
        × (route ≡ with_gas simulator r result)
  unfolding after_gas
  after_gas-Elem route r result h =
      let cost = to_int64 result.gas_used *ℤ simulator.gas_price result in
      let (t, there) = if-Elem route (ltb_ℤ min_profit (r.profit -ℤ cost)) _ h in
      (ltb_ℤ→<ℤ min_profit (r.profit -ℤ cost) t, singleton-Elem there)

  simulate_route-Elem :
      (route r : Route)
      → Elem route (simulate_route simulator min_profit r)
      → (result : SimResult) × (simulator.simulate_arbitrage r ≡ some result)
        × Elem route (after_gas simulator min_profit r result)
  unfolding simulate_route
  simulate_route-Elem route r h = simulated (simulator.simulate_arbitrage r) refl h
    where
      simulated :
          (o : Option SimResult)
          → simulator.simulate_arbitrage r ≡ o
          → Elem route (elim o as (λ _. List Route) [
            | none ↦ []
            | some result ↦ after_gas simulator min_profit r result
          ])
          → (result : SimResult) × (simulator.simulate_arbitrage r ≡ some result)
            × Elem route (after_gas simulator min_profit r result)
      simulated none e h = absurd h
      simulated (some result) e h = (result, e, h)

  try_pair-Pays :
      (token0 token1 : ℕ) (exchange0 exchange1 : Exchange) (route : Route)
      → Elem route (try_pair simulator min_profit token0 token1 exchange0 exchange1)
      → Pays token0 token1 exchange0 exchange1 route
  unfolding try_pair compare_prices new_route
  try_pair-Pays token0 token1 exchange0 exchange1 route h =
      priced (exchange0.get_price token0 token1) (exchange1.get_price token1 token0) refl refl h
    where
      priced :
          (price0 price1 : Option ℤ)
          → exchange0.get_price token0 token1 ≡ price0
          → exchange1.get_price token1 token0 ≡ price1
          → Elem route (elim price0 as (λ _. List Route) [
            | none ↦ []
            | some p0 ↦ elim price1 as (λ _. List Route) [
              | none ↦ []
              | some p1 ↦
                  compare_prices simulator min_profit token0 token1 exchange0 exchange1 p0 p1
            ]
          ])
          → Pays token0 token1 exchange0 exchange1 route
      priced none _ e0 e1 h = absurd h
      priced (some p0) none e0 e1 h = absurd h
      priced (some p0) (some p1) e0 e1 h =
          let (t, there) = if-Elem route (ltb_ℤ min_profit (p1 -ℤ p0)) _ h in
          let (result, s, kept) =
            simulate_route-Elem route (new_route token0 token1 exchange0 exchange1 (p1 -ℤ p0))
              there in
          let (pays, e) =
            after_gas-Elem route (new_route token0 token1 exchange0 exchange1 (p1 -ℤ p0)) result
              kept in
          (p0, p1, result, e0, e1, ltb_ℤ→<ℤ min_profit (p1 -ℤ p0) t, s, pays, e)

  Pays-try_pair :
      (token0 token1 : ℕ) (exchange0 exchange1 : Exchange) (route : Route)
      → Pays token0 token1 exchange0 exchange1 route
      → Elem route (try_pair simulator min_profit token0 token1 exchange0 exchange1)
  unfolding try_pair compare_prices simulate_route after_gas new_route
  Pays-try_pair token0 token1 exchange0 exchange1 route (p0, p1, result, e0, e1, gain, s, pays, e) =
      rw
        (
          try_pair,
          e0,
          e1,
          compare_prices,
          above min_profit (p1 -ℤ p0) gain,
          simulate_route,
          s,
          after_gas,
          above min_profit (p1 -ℤ p0 -ℤ (to_int64 result.gas_used *ℤ simulator.gas_price result))
              pays,
        )
        (inl e)

  -- An opportunity: two different tokens, exchanges at two positions, and a route that pays.
  abbrev pub IsOpportunity : List ℕ → List Exchange → Route → Type 0
  IsOpportunity tokens exchanges route =
      (k0 k1 i j token0 token1 : ℕ) × (exchange0 exchange1 : Exchange) × (get_elem? tokens k0
        ≡ some token0)
      × (get_elem? tokens k1 ≡ some token1)
      × (token0 ≢ token1)
      × (get_elem? exchanges i ≡ some exchange0)
      × (get_elem? exchanges j ≡ some exchange1)
      × (i ≢ j)
      × Pays token0 token1 exchange0 exchange1 route

module _ (simulator : Simulator) (d : Detector) where
  find_arbitrage-IsOpportunity :
      (route : Route)
      → Elem route (find_arbitrage simulator d)
      → IsOpportunity simulator d.min_profit d.tokens d.exchanges route
  unfolding find_arbitrage try_exchanges
  find_arbitrage-IsOpportunity route h =
      let (k0, token0, at0, h0) = Elem-collect _ d.tokens route h in
      let (k1, token1, at1, h1) = Elem-collect _ d.tokens route h0 in
      let (differ, h2) = unless-Elem route (token0 == token1) _ h1 in
      let (i, exchange0, at2, h3) = Elem-collect _ d.exchanges route h2 in
      let (j, exchange1, at3, h4) = Elem-collect _ d.exchanges route h3 in
      let (apart, h5) = unless-Elem route (i == j) _ h4 in
      (
        k0,
        k1,
        i,
        j,
        token0,
        token1,
        exchange0,
        exchange1,
        at0,
        at1,
        ne_of_== token0 token1 differ,
        at2,
        at3,
        ne_of_== i j apart,
        try_pair-Pays simulator d.min_profit token0 token1 exchange0 exchange1 route h5,
      )

  IsOpportunity-find_arbitrage :
      (route : Route)
      → IsOpportunity simulator d.min_profit d.tokens d.exchanges route
      → Elem route (find_arbitrage simulator d)
  unfolding find_arbitrage try_exchanges
  IsOpportunity-find_arbitrage route
        (
          k0, k1, i, j, token0, token1, exchange0, exchange1, at0, at1, differ, at2, at3, apart,
          pays,
        ) =
      collect-Elem _ d.tokens k0 token0 route at0 (
        collect-Elem _ d.tokens k1 token1 route at1 (
          if_false (token0 == token1) _ route (==-ne token0 token1 differ) (
            collect-Elem _ d.exchanges i exchange0 route at2 (
              collect-Elem _ d.exchanges j exchange1 route at3 (
                if_false (i == j) _ route (==-ne i j apart) (
                  Pays-try_pair simulator d.min_profit token0 token1 exchange0 exchange1 route
                    pays))))))

  -- FindArbitrage answers exactly the opportunities: a route is in its answer if and only if it
  -- goes between two different tokens of the list on exchanges at two different positions, both
  -- give their price, the difference of the prices is above the minimum, the call of the
  -- simulator returns a result and no error, and the difference less the gas used in that result at
  -- its gas price is still above the minimum. Nothing is asked of the result's Success: a route whose
  -- simulation failed at the node, which is a result too, is answered on the same conditions.
  pub find_arbitrage_iff :
      (route : Route)
      → Elem route (find_arbitrage simulator d)
        ↔ IsOpportunity simulator d.min_profit d.tokens d.exchanges route
  find_arbitrage_iff route =
      (find_arbitrage-IsOpportunity route, IsOpportunity-find_arbitrage route)
