-- ===== src/Flashloan/Manager/Selection.antt =====
-- flashloan/manager.go: which provider selectOptimalProvider chooses.
use profit_monopoly.Prelude.{
  Bool-cases, List, Option, Option-cases, Run, [], arith, err, get_elem?, inl, inr, none, ok, refl,
  some, suc, ℕ, ◌∷◌, ◌≡◌, ◌≢◌, ◌⊎◌, sym, ap,
}
use profit_monopoly.Int.{ltb_ℤ, ℤ, ◌≤ℤ◌}
use profit_monopoly.Flashloan.{FlashLoanParams}
use profit_monopoly.Flashloan.Manager.{
  Best, LoanError, Provider, better, consider, no_providers, no_suitable_provider, select_from,
  select_optimal_provider,
}

-- A fee is not below an offer; a provider that does not answer makes none.
abbrev pub AtMost : ℤ → Option ℤ → Type 0
AtMost fee none = Unit
AtMost fee (some offer) = fee ≤ℤ offer

AtMost-trans : (f g : ℤ) (o : Option ℤ) → f ≤ℤ g → AtMost g o → AtMost f o
AtMost-trans f g none h k = tt
AtMost-trans f g (some offer) h k = omega arith

module _ {Tx : Type 0} where
  -- The fee is at most what any of the providers offers for the token.
  abbrev pub Lowest : ℕ → ℤ → List (Provider Tx) → Type 0
  Lowest token fee [] = Unit
  Lowest token fee (p ∷ ps) = AtMost fee (p.offered_fee token) × Lowest token fee ps

  -- None of the providers offers a fee.
  abbrev pub NoOffer : ℕ → List (Provider Tx) → Type 0
  NoOffer token [] = Unit
  NoOffer token (p ∷ ps) = (p.offered_fee token ≡ none) × NoOffer token ps

  -- The provider is one of the list, and offers the fee.
  abbrev pub Offers : ℕ → Provider Tx → ℤ → List (Provider Tx) → Type 0
  Offers token p fee ps = (i : ℕ) × (get_elem? ps i ≡ some p) × (p.offered_fee token ≡ some fee)

  better-cases :
      (q p : Provider Tx) (g f : ℤ)
      → ((better (some (q, g)) p f ≡ some (p, f)) × (f ≤ℤ g))
        ⊎ ((better (some (q, g)) p f ≡ some (q, g)) × (g ≤ℤ f))
  unfolding better
  better-cases q p g f = elim (Bool-cases (ltb_ℤ f g)) [
    | inl t ↦ inl (rw t refl, ground arith)
    | inr n ↦ inr (rw n refl, ground arith)
  ]

  select_from-some :
      (token : ℕ) (q : Provider Tx) (g : ℤ) (ps : List (Provider Tx))
      → (p : Provider Tx) × (f : ℤ) × (select_from token (some (q, g)) ps ≡ some (p, f))
        × (f ≤ℤ g)
        × Lowest token f ps
        × (((p ≡ q) × (f ≡ g)) ⊎ Offers token p f ps)
  unfolding select_from consider
  select_from-some token q g [] = (q, g, refl, omega arith, tt, inl (refl, refl))
  select_from-some token q g (p ∷ ps) = elim (Option-cases (p.offered_fee token)) [
    | inl n ↦
        let (r, f, e, le, low, from) = select_from-some token q g ps in
        (r, f, rw n e, le, (rw n tt, low), later from)
    | inr (o, s) ↦ elim (better-cases q p g o) [
      | inl (b, le') ↦
          let (r, f, e, le, low, from) = select_from-some token p o ps in
          (r, f, rw (s, b) e, omega arith, (rw s le, low), inr (found o s from))
      | inr (b, le') ↦
          let (r, f, e, le, low, from) = select_from-some token q g ps in
          (r, f, rw (s, b) e, le, (rw s (omega arith), low), later from)
    ]
  ]
    where
      later :
          {r : Provider Tx} {f : ℤ}
          → ((r ≡ q) × (f ≡ g)) ⊎ Offers token r f ps
          → ((r ≡ q) × (f ≡ g)) ⊎ Offers token r f (p ∷ ps)
      later (inl same) = inl same
      later (inr (i, e, o)) = inr (suc i, e, o)

      found :
          {r : Provider Tx} {f : ℤ} (o : ℤ)
          → p.offered_fee token ≡ some o
          → ((r ≡ p) × (f ≡ o)) ⊎ Offers token r f ps
          → Offers token r f (p ∷ ps)
      found o s (inl (same, fee)) = (0, ap some (sym same), rw (same, fee) s)
      found o s (inr (i, e, h)) = (suc i, e, h)

  -- What the search over a list finds: the offer of one of its providers that no other undercuts,
  -- or nothing where none of them offers.
  abbrev pub Found : ℕ → List (Provider Tx) → Best Tx → Type 0
  Found token ps none = NoOffer token ps
  Found token ps (some (p, f)) = Lowest token f ps × Offers token p f ps

  select_from-Found :
      (token : ℕ) (ps : List (Provider Tx)) → Found token ps (select_from token none ps)
  unfolding select_from consider better
  select_from-Found token [] = tt
  select_from-Found token (p ∷ ps) = elim (Option-cases (p.offered_fee token)) [
    | inl n ↦ rw n (later n (select_from token none ps) (select_from-Found token ps))
    | inr (o, s) ↦
        let (r, f, e, le, low, from) = select_from-some token p o ps in
        rw (s, e) ((rw s le, low), origin s from)
  ]
    where
      later : p.offered_fee token ≡ none → (b : Best Tx) → Found token ps b → Found token (p ∷ ps) b
      later n none h = (n, h)
      later n (some (q, f)) (low, (i, e, o)) = ((rw n tt, low), (suc i, e, o))

      origin :
          {o : ℤ} {r : Provider Tx} {f : ℤ}
          → p.offered_fee token ≡ some o
          → ((r ≡ p) × (f ≡ o)) ⊎ Offers token r f ps
          → Offers token r f (p ∷ ps)
      origin s (inl (same, fee)) = (0, ap some (sym same), rw (same, fee) s)
      origin s (inr (i, e, h)) = (suc i, e, h)

  -- What may come out of the selection.
  abbrev pub IsSelection : ℕ → List (Provider Tx) → Run LoanError (Provider Tx) → Type 0
  IsSelection token ps (ok p) = (f : ℤ) × Lowest token f ps × Offers token p f ps
  IsSelection token ps (err no_providers) = ps ≡ []
  IsSelection token ps (err no_suitable_provider) = (ps ≢ []) × NoOffer token ps
  IsSelection token ps _ = ⊥

  -- selectOptimalProvider never panics: it answers a provider of the list whose offered fee no
  -- other offer for the token undercuts, whatever the liquidity, or the error for a list without
  -- providers, or the error for a list of which no provider makes an offer; each error comes in its
  -- case only.
  pub select_optimal_provider-IsSelection :
      (params : FlashLoanParams) (ps : List (Provider Tx))
      → IsSelection params.token ps (select_optimal_provider params ps)
  unfolding select_optimal_provider
  select_optimal_provider-IsSelection params [] = refl
  select_optimal_provider-IsSelection params (p ∷ ps) =
      chosen (select_from params.token none (p ∷ ps)) (select_from-Found params.token (p ∷ ps))
    where
      chosen :
          (b : Best Tx)
          → Found params.token (p ∷ ps) b
          → IsSelection params.token
              (p ∷ ps)
              (elim b [ none ↦ err no_suitable_provider | some (best, fee) ↦ ok best ])
      chosen none h = (λ e. cc e, h)
      chosen (some (q, f)) (low, from) = (f, low, from)
