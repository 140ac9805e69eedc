-- ===== src/BigInt/Markets/Bounds.antt =====
-- utils/math/bigint.go: what the sandwich, bundle, NFT and lending calculations guarantee.
use profit_monopoly.Prelude.{
  Bool, ap, arith, false, if◌then◌else◌, leb, ltb, none, panic, refl, some, true, ℕ, ◌&&◌, ◌*◌, ◌+◌,
  ◌-◌, ◌/◌, ◌<◌, ◌↔◌, ◌≡◌,
}
use profit_monopoly.Int.{euclid, is_zero, negsuc, pos, ℤ, ◌*ℤ◌, ◌+ℤ◌, ◌-ℤ◌, ◌<ℤ◌, ◌≤ℤ◌}
use profit_monopoly.BigInt.Markets.{
  BundleParams, LendingProtocolParams, NftMevParams, SandwichAttackParams, analyze_lending_protocol,
  calculate_nft_mev, calculate_sandwich_profitability, optimize_mev_bundle,
}
use profit_monopoly.Int.Laws.{*ℤ-pos, +ℤ-pos, -ℤ-twice, -ℤ_parts, int_laws}

euclid_exact : (x : ℤ) → euclid (x *ℤ pos 100) (pos 100) ≡ x
unfolding euclid ◌*ℤ◌
euclid_exact (pos n) = rw *ℤ-pos (ap pos (omega arith))
euclid_exact (negsuc n) = grind arith

-- With a competitor factor of 100 nothing of the profit is left: for a target and a pool that are
-- not 0 the expected profit is the gas of both transactions, as a loss.
pub calculate_sandwich_profitability_full :
    (params : SandwichAttackParams)
    → is_zero params.target_amount ≡ false
    → is_zero params.pool_liquidity ≡ false
    → params.competitor_factor ≡ pos 100
    → (calculate_sandwich_profitability params).2
      ≡ pos 0 -ℤ (params.frontrun_gas_price *ℤ pos 500000 +ℤ params.backrun_gas_price *ℤ pos 500000)
unfolding calculate_sandwich_profitability
calculate_sandwich_profitability_full params t p c = rw (t, p, c) (rw euclid_exact (omega int_laws))

abbrev pub bundle_at : ℕ → ℕ → ℕ → Bool → BundleParams
bundle_at fee priority gas_limit protected = record {
  block_builder_fee = some (pos fee);
  priority = some (pos priority);
  block_number = none;
  deadline = none;
  gas_limit = some (pos gas_limit);
  revert_protected = protected;
}

paid :
    (fee priority gas_limit : ℕ)
    → gas_limit * fee < priority * fee
    → (gas_limit < priority) × (0 < fee)
paid fee priority gas_limit h = (grind arith, grind arith)

costs :
    (fee priority gas_limit : ℕ) → gas_limit < priority → 0 < fee → gas_limit * fee < priority * fee
costs fee priority gas_limit h k = grind arith

-- An unprotected bundle makes a profit exactly if its priority exceeds its gas limit and its fee is
-- above 0, and revert protection never raises the profit.
pub optimize_mev_bundle_profit :
    (fee priority gas_limit : ℕ)
    → ((pos 0 <ℤ (optimize_mev_bundle (bundle_at fee priority gas_limit false)).0)
        ↔ ((gas_limit < priority) × (0 < fee)))
      × ((optimize_mev_bundle (bundle_at fee priority gas_limit true)).0
          ≤ℤ (optimize_mev_bundle (bundle_at fee priority gas_limit false)).0)
unfolding optimize_mev_bundle euclid
optimize_mev_bundle_profit fee priority gas_limit = (
  (
    λ h.
        let h' = simp (*ℤ-pos) at h in
        paid fee priority gas_limit
          (omega (arith, -ℤ_parts (pos (priority * fee)) (pos (gas_limit * fee)))),
    λ h.
        let below = costs fee priority gas_limit h.0 h.1 in
        simp (*ℤ-pos) (omega (arith, -ℤ_parts (pos (priority * fee)) (pos (gas_limit * fee)))),
  ),
  simp *ℤ-pos (simp +ℤ-pos (omega int_laws)),
)

abbrev pub nft_at : ℕ → ℕ → ℕ → ℕ → ℕ → ℕ → NftMevParams
nft_at floor listing rarity vol gas bps = record {
  floor_price = some (pos floor);
  listing_price = some (pos listing);
  rarity_score = some (pos rarity);
  historical_vol = some (pos vol);
  gas_cost = some (pos gas);
  min_profit_bps = some (pos bps);
}

-- On parameters that are not negative CalculateNFTMEV accepts exactly if the value covers listing,
-- gas and minimal profit; the profit is then what the value exceeds listing and gas by, else 0.
pub calculate_nft_mev_lem :
    (floor listing rarity vol gas bps : ℕ)
    → let value = floor * rarity / 100 + floor * vol / 100 in
      let accepted = leb (listing + gas + floor * bps / 10000) value in
      calculate_nft_mev (nft_at floor listing rarity vol gas bps)
      ≡ (accepted, pos (if accepted then value - (listing + gas) else 0))
unfolding calculate_nft_mev euclid
calculate_nft_mev_lem floor listing rarity vol gas bps =
    simp (*ℤ-pos, +ℤ-pos, -ℤ-twice) (ground arith)

abbrev pub lending_at : ℕ → ℕ → ℕ → ℕ → ℕ → ℕ → LendingProtocolParams
lending_at borrow supply utilization collateral debt threshold = record {
  borrow_rate = some (pos borrow);
  supply_rate = some (pos supply);
  utilization = some (pos utilization);
  collateral_value = some (pos collateral);
  debt_value = some (pos debt);
  liquidation_threshold = some (pos threshold);
}

-- The advice and the amount for a debt above 0, on natural numbers.
abbrev is_safe : ℕ → ℕ → ℕ → ℕ → Bool
is_safe borrow supply worth debt = ltb borrow supply && ltb 12000 (worth / debt)

-- A position without debt makes the call divide by 0.
pub analyze_lending_protocol_no_debt :
    (borrow supply utilization collateral threshold : ℕ)
    → analyze_lending_protocol (lending_at borrow supply utilization collateral 0 threshold) ≡ panic
unfolding analyze_lending_protocol
analyze_lending_protocol_no_debt borrow supply utilization collateral threshold = refl
