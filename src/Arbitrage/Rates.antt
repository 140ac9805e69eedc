-- ===== src/Arbitrage/Rates.antt =====
-- strategies/arbitrage/detector.go: DetectOpportunities over the rates of two exchanges.
use profit_monopoly.Prelude.{
  List, Option, Run, [], deref, if◌then◌else◌, lookup, none, ok, some, ℕ, ◌++◌, ◌==◌, ◌>>=◌, ◌∷◌,
}
use profit_monopoly.Int.{ltb_ℤ, ℤ, ◌-ℤ◌}

-- map[common.Address]map[common.Address]*big.Int, without nil rates.
abbrev pub Rates : Type 0
Rates = List (ℕ × List (ℕ × ℤ))

-- The fields of an opportunity that the detector sets.
pub record ArbitrageOpportunity : Type 0 where
  pub token0 : ℕ
  pub token1 : ℕ
  pub price0 : ℤ
  pub price1 : ℤ
  pub profit : ℤ

-- `rates[token1][token0]`; a missing row is a nil map, a missing rate a nil pointer.
abbrev pub rate_back : Rates → ℕ → ℕ → Option ℤ
rate_back rates token1 token0 = elim (lookup token1 rates) [
  | none ↦ none
  | some row ↦ lookup token0 row
]

module _ (rates : Rates) (min_profit_threshold : ℤ) where
  unfoldable pub spread_of : ℕ → ℕ → ℤ → ℤ → List ArbitrageOpportunity
  spread_of token0 token1 price0 price1 =
      if ltb_ℤ min_profit_threshold (price1 -ℤ price0)
      then record {
        token0 = token0;
        token1 = token1;
        price0 = price0;
        price1 = price1;
        profit = price1 -ℤ price0;
      }
        ∷ []
      else []

  -- The body of the inner loop; Sub of a nil rate panics.
  unfoldable pub compare_rates : ℕ → ℕ → ℤ → Run ⊥ (List ArbitrageOpportunity)
  unfolding spread_of
  compare_rates token0 token1 price0 =
      if token0 == token1
      then ok []
      else (deref (rate_back rates token1 token0) >>= λ price1.
          ok (spread_of token0 token1 price0 price1))

  unfoldable pub detect_row : ℕ → List (ℕ × ℤ) → Run ⊥ (List ArbitrageOpportunity)
  unfolding compare_rates
  detect_row token0 [] = ok []
  detect_row token0 ((token1, price0) ∷ row) = do
    found ← compare_rates token0 token1 price0
    rest ← detect_row token0 row
    ok (found ++ rest)

  -- DetectOpportunities, by the rates of the first exchange.
  unfoldable pub detect_opportunities : Rates → Run ⊥ (List ArbitrageOpportunity)
  unfolding detect_row
  detect_opportunities [] = ok []
  detect_opportunities ((token0, row) ∷ others) = do
    found ← detect_row token0 row
    rest ← detect_opportunities others
    ok (found ++ rest)
