-- ===== src/Flashloan/Balancer/Chosen.antt =====
-- flashloan/balancer/provider.go and flashloan/manager.go: a manager that has the provider of
-- Balancer.
use mathlib.Core.Path.{subst}
use profit_monopoly.Prelude.{
  List, Option, Run, [], arith, err, get_elem?, none, ok, refl, some, suc, zero, ℕ, ◌∷◌, ◌≡◌, ap,
  sym, ◌∙◌,
}
use profit_monopoly.Int.{pos, ℤ, ◌≤ℤ◌}
use profit_monopoly.Int.Laws.{eq_of_parts}
use profit_monopoly.Flashloan.{FlashLoanParams}
use profit_monopoly.Flashloan.Manager.{
  LoanError, Provider, no_providers, no_suitable_provider, select_optimal_provider,
}
use profit_monopoly.Flashloan.Manager.Selection.{
  AtMost, IsSelection, Lowest, NoOffer, select_optimal_provider-IsSelection,
}
use profit_monopoly.Flashloan.Balancer.{balancer_provider, get_flash_loan_fee}

module _ {Tx : Type 0} where
  -- No provider pays for being used.
  abbrev pub Costs : ℕ → List (Provider Tx) → Type 0
  Costs token [] = Unit
  Costs token (p ∷ ps) = AtMost (pos 0) (p.offered_fee token) × Costs token ps

  Lowest-offer :
      (token i : ℕ) (fee offer : ℤ) (ps : List (Provider Tx)) (p : Provider Tx)
      → Lowest token fee ps
      → get_elem? ps i ≡ some p
      → p.offered_fee token ≡ some offer
      → fee ≤ℤ offer
  Lowest-offer token i fee offer [] p low found offered = absurd (cc found)
  Lowest-offer token zero fee offer (q ∷ ps) p (le, low) found offered =
      let same : q ≡ p = cc found in
      let at : q.offered_fee token ≡ some offer = ap (λ r. r.offered_fee token) same ∙ offered in
      subst (λ o. AtMost fee o) at le
  Lowest-offer token (suc i) fee offer (q ∷ ps) p (le, low) found offered =
      Lowest-offer token i fee offer ps p low found offered

  Costs-Lowest : (token : ℕ) (ps : List (Provider Tx)) → Costs token ps → Lowest token (pos 0) ps
  Costs-Lowest token [] costs = tt
  Costs-Lowest token (p ∷ ps) (le, costs) = (le, Costs-Lowest token ps costs)

  NoOffer-none :
      (token i : ℕ) (ps : List (Provider Tx)) (p : Provider Tx)
      → NoOffer token ps
      → get_elem? ps i ≡ some p
      → p.offered_fee token ≡ none
  NoOffer-none token i [] p none_offers found = absurd (cc found)
  NoOffer-none token zero (q ∷ ps) p (n, rest) found =
      let same : q ≡ p = cc found in sym (ap (λ r. r.offered_fee token) same) ∙ n
  NoOffer-none token (suc i) (q ∷ ps) p (n, rest) found = NoOffer-none token i ps p rest found

  -- A manager that has the provider of Balancer among its own, none of which offers a negative fee,
  -- always finds a provider, and one whose fee is 0.
  pub select_optimal_provider-balancer :
      (params : FlashLoanParams) (ps : List (Provider Tx)) (i name : ℕ)
      (execute : FlashLoanParams → Option Tx)
      → get_elem? ps i ≡ some (balancer_provider name execute)
      → Costs params.token ps
      → (p : Provider Tx) × (select_optimal_provider params ps ≡ ok p)
        × (p.offered_fee params.token ≡ some (pos 0))
  unfolding balancer_provider get_flash_loan_fee
  select_optimal_provider-balancer params ps i name execute found costs =
      by_selection (select_optimal_provider params ps) refl
        (select_optimal_provider-IsSelection params ps)
    where
      by_selection :
          (r : Run LoanError (Provider Tx))
          → select_optimal_provider params ps ≡ r
          → IsSelection params.token ps r
          → (p : Provider Tx) × (select_optimal_provider params ps ≡ ok p)
            × (p.offered_fee params.token ≡ some (pos 0))
      by_selection (ok p) e (fee, low, (j, at, offered)) =
          let below = Lowest-offer params.token i fee (pos 0) ps _ low found refl in
          let above =
            Lowest-offer params.token j (pos 0) fee ps p (Costs-Lowest params.token ps costs) at
              offered in
          let free : fee ≡ pos 0 = eq_of_parts fee (pos 0) (omega (arith, below, above)) in
          (p, e, offered ∙ ap some free)
      by_selection (err no_providers) e empty =
          absurd (cc (ap (λ l. get_elem? l i) (sym empty) ∙ found))
      by_selection (err no_suitable_provider) e (_, nothing) =
          absurd (cc (NoOffer-none params.token i ps _ nothing found))
      by_selection _ e h = absurd h
