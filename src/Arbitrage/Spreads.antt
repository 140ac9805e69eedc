-- ===== src/Arbitrage/Spreads.antt =====
-- strategies/arbitrage/detector.go: which opportunities DetectOpportunities answers.
use profit_monopoly.Prelude.{
  List, Run, [], ==-ne, inl, inr, ok, refl, some, true, ℕ, ==-self, ◌++◌, ◌==◌, ◌>>=◌, ◌≡◌, ◌≢◌,
  ◌⊎◌, ◌↔◌, ◌∷◌,
}
use profit_monopoly.Int.{ltb_ℤ, ℤ, ◌-ℤ◌, ◌<ℤ◌}
use profit_monopoly.Int.Laws.{ltb_ℤ→<ℤ}
use profit_monopoly.Arbitrage.Elements.{
  Elem, Elem-append, Elem-left, Elem-right, above, if-Elem, singleton-Elem,
}
use profit_monopoly.Arbitrage.Rates.{
  ArbitrageOpportunity, Rates, compare_rates, detect_opportunities, detect_row, rate_back,
  spread_of,
}

module _ (rates : Rates) (threshold : ℤ) where
  -- What makes a rate of the first exchange an opportunity.
  abbrev pub Spread : ℕ → ℕ → ℤ → ArbitrageOpportunity → Type 0
  Spread token0 token1 price0 o =
      (price1 : ℤ) × (token0 ≢ token1)
      × (rate_back rates token1 token0 ≡ some price1)
      × (threshold <ℤ price1 -ℤ price0)
      × (o ≡ record {
        token0 = token0;
        token1 = token1;
        price0 = price0;
        price1 = price1;
        profit = price1 -ℤ price0;
      })

  -- The second exchange has the rate back, unless the tokens are the same.
  abbrev pub Covered : ℕ → ℕ × ℤ → Type 0
  Covered token0 (token1, price0) =
      (token0 ≡ token1)
      ⊎ ((token0 ≢ token1) × (price1 : ℤ) × (rate_back rates token1 token0 ≡ some price1))

  abbrev pub RowCovered : ℕ → List (ℕ × ℤ) → Type 0
  RowCovered token0 [] = Unit
  RowCovered token0 (rate ∷ row) = Covered token0 rate × RowCovered token0 row

  abbrev pub AllCovered : Rates → Type 0
  AllCovered [] = Unit
  AllCovered ((token0, row) ∷ others) = RowCovered token0 row × AllCovered others

  -- An opportunity of a row, and of the rates.
  abbrev pub RowSpread : ℕ → List (ℕ × ℤ) → ArbitrageOpportunity → Type 0
  RowSpread token0 [] o = ⊥
  RowSpread token0 ((token1, price0) ∷ row) o =
      Spread token0 token1 price0 o ⊎ RowSpread token0 row o

  abbrev pub AnySpread : Rates → ArbitrageOpportunity → Type 0
  AnySpread [] o = ⊥
  AnySpread ((token0, row) ∷ others) o = RowSpread token0 row o ⊎ AnySpread others o

  -- A run that answers the list of those that P describes.
  abbrev pub Answers : Run ⊥ (List ArbitrageOpportunity) → (ArbitrageOpportunity → Type 0) → Type 0
  Answers r P =
      (found : List ArbitrageOpportunity) × (r ≡ ok found)
      × ((o : ArbitrageOpportunity) → Elem o found ↔ P o)

  both-Answers :
      (r s : Run ⊥ (List ArbitrageOpportunity)) (P Q : ArbitrageOpportunity → Type 0)
      → Answers r P
      → Answers s Q
      → Answers (r >>= λ found. s >>= λ rest. ok (found ++ rest)) (λ o. P o ⊎ Q o)
  both-Answers r s P Q (found, e, p) (rest, f, q) = (found ++ rest, rw (e, f) refl, members)
    where
      members : (o : ArbitrageOpportunity) → Elem o (found ++ rest) ↔ (P o ⊎ Q o)
      members o = (split, join)
        where
          split : Elem o (found ++ rest) → P o ⊎ Q o
          split h = elim (Elem-append o found rest h) [
            | inl l ↦ inl ((p o).0 l)
            | inr r ↦ inr ((q o).0 r)
          ]

          join : P o ⊎ Q o → Elem o (found ++ rest)
          join (inl h) = Elem-left o found rest ((p o).1 h)
          join (inr h) = Elem-right o found rest ((q o).1 h)

  compare_rates-Answers :
      (token0 token1 : ℕ) (price0 : ℤ)
      → Covered token0 (token1, price0)
      → Answers (compare_rates rates threshold token0 token1 price0) (Spread token0 token1 price0)
  unfolding compare_rates spread_of
  compare_rates-Answers token0 token1 price0 (inl same) =
      let test : (token0 == token1) ≡ true = rw same (==-self token1) in
      (
        [],
        rw (compare_rates, test) refl,
        λ o. ((λ h. absurd h), λ (_, differ, _, _, _). absurd (differ same)),
      )
  compare_rates-Answers token0 token1 price0 (inr (differ, price1, back)) = (
    spread_of rates threshold token0 token1 price0 price1,
    rw (compare_rates, ==-ne token0 token1 differ, back) refl,
    spreads,
  )
    where
      spreads :
          (o : ArbitrageOpportunity)
          → Elem o (spread_of rates threshold token0 token1 price0 price1)
            ↔ Spread token0 token1 price0 o
      spreads o = (split, join)
        where
          split :
              Elem o (spread_of rates threshold token0 token1 price0 price1)
              → Spread token0 token1 price0 o
          split h =
              let (t, there) = if-Elem o (ltb_ℤ threshold (price1 -ℤ price0)) _ h in
              (price1, differ, back, ltb_ℤ→<ℤ threshold (price1 -ℤ price0) t, singleton-Elem there)

          placed :
              (other : ℤ)
              → other ≡ price1
              → threshold <ℤ other -ℤ price0
              → o ≡ record {
                token0 = token0;
                token1 = token1;
                price0 = price0;
                price1 = other;
                profit = other -ℤ price0;
              }
              → Elem o (spread_of rates threshold token0 token1 price0 price1)
          placed other same gain e =
              rw⁻¹ same (rw (spread_of, above threshold (other -ℤ price0) gain) (inl e))

          join :
              Spread token0 token1 price0 o
              → Elem o (spread_of rates threshold token0 token1 price0 price1)
          join (other, _, found, gain, e) =
              let same : other ≡ price1 = cc in placed other same gain e

  detect_row-Answers :
      (token0 : ℕ) (row : List (ℕ × ℤ))
      → RowCovered token0 row
      → Answers (detect_row rates threshold token0 row) (RowSpread token0 row)
  unfolding detect_row
  detect_row-Answers token0 [] covered = ([], refl, λ o. ((λ h. h), λ h. h))
  detect_row-Answers token0 ((token1, price0) ∷ row) (covered, rest) =
      both-Answers _ _ (Spread token0 token1 price0) (RowSpread token0 row)
        (compare_rates-Answers token0 token1 price0 covered) (detect_row-Answers token0 row rest)

  -- When the second exchange has the rate back of every rate of the first one between different
  -- tokens, DetectOpportunities does not panic, and it answers exactly the opportunities: a rate of
  -- the first exchange, the rate back, and their difference, if that is above the threshold.
  pub detect_opportunities-Answers :
      (first : Rates)
      → AllCovered first
      → Answers (detect_opportunities rates threshold first) (AnySpread first)
  unfolding detect_opportunities
  detect_opportunities-Answers [] covered = ([], refl, λ o. ((λ h. h), λ h. h))
  detect_opportunities-Answers ((token0, row) ∷ others) (covered, rest) =
      both-Answers _ _ (RowSpread token0 row) (AnySpread others)
        (detect_row-Answers token0 row covered) (detect_opportunities-Answers others rest)
