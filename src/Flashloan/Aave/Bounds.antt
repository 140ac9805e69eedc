-- ===== src/Flashloan/Aave/Bounds.antt =====
-- flashloan/aave/provider.go: which loans ValidateRepayment accepts, and what executing one counts.
use profit_monopoly.Prelude.{
  ltb→lt, lt→ltb, leb, bind_ok, guard_ok, deref_ok, wrap_ok, guard, deref, wrap, or_err, take, Bool,
  List, Option, Run, arith, length, ltb, none, ok, panic, refl, some, ℕ, ◌*◌, ◌/◌, ◌<◌, ◌≡◌, ◌≤◌,
  ◌↔◌, true, false, if◌then◌else◌,
}
use profit_monopoly.Int.{negsuc, leb_ℤ, ltb_ℤ, ℤ, ◌≤ℤ◌, ◌<ℤ◌, pos, pos_part, euclid}
use profit_monopoly.Int.Laws.{leb_ℤ→≤ℤ, ltb_ℤ→<ℤ, *ℤ-pos}
use profit_monopoly.Flashloan.{FlashLoanParams}
use profit_monopoly.Flashloan.Aave.{
  liquidity_failed, below_minimum, max_loan_failed, above_maximum, empty_path, bad_gas_price,
  bad_gas_limit, pack_failed, call_failed, set_bytes_from, ProviderConfig, AaveError, Chain,
  get_max_loan_amount, get_pool_liquidity, is_positive, validate_params, validate_repayment,
}

-- The smaller of the configured maximum and the share of the liquidity.
abbrev loan_limit : ℤ → ℕ → ℤ
loan_limit most share = if ltb_ℤ most (pos (share / 100)) then most else pos (share / 100)

-- Within the limit is within both of its parts.
le-loan_limit :
    (a most : ℤ) (share : ℕ)
    → (leb_ℤ a (loan_limit most share) ≡ true) ↔ ((a ≤ℤ most) × (pos_part a * 100 ≤ share))
le-loan_limit a most share = limit a most share (ltb_ℤ most (pos (share / 100))) refl
  where
    limit :
        (a most : ℤ) (share : ℕ) (b : Bool)
        → ltb_ℤ most (pos (share / 100)) ≡ b
        → (leb_ℤ a (if b then most else pos (share / 100)) ≡ true)
          ↔ ((a ≤ℤ most) × (pos_part a * 100 ≤ share))
    limit (pos n) most share true t = ((λ h. (ground arith, ground arith)), λ (h, k). ground arith)
    limit (pos n) most share false t = ((λ h. (ground arith, ground arith)), λ (h, k). ground arith)
    limit (negsuc n) most share true t =
        ((λ h. (ground arith, omega arith)), λ (h, k). ground arith)
    limit (negsuc n) most share false t =
        ((λ h. (ground arith, omega arith)), λ (h, k). ground arith)

-- A pool's liquidity is read as a natural number.
liquidity_pos :
    (chain : Chain) (config : ProviderConfig) (token : ℕ) (v : ℤ)
    → get_pool_liquidity chain config token ≡ ok v
    → (l : ℕ) × (v ≡ pos l)
unfolding get_pool_liquidity
liquidity_pos chain config token v h =
    let (call_data, _, h1) = bind_ok (or_err (chain.pack_reserve_data token) pack_failed) _ v h in
    let (result, _, h2) =
      bind_ok (or_err (chain.call_contract config.contract_address call_data) call_failed) _ v h1 in
    enough (leb 32 (length result)) result h2
  where
    enough :
        (b : Bool) (result : List ℕ)
        → ◌≡◌ {A = Run AaveError ℤ}
            (if b then ok (pos (set_bytes_from 0 (take 32 result))) else panic)
            (ok v)
        → (l : ℕ) × (v ≡ pos l)
    enough true result h = (set_bytes_from 0 (take 32 result), cc h)
    enough false result h = absurd (cc h)

module _ (chain : Chain) (config : ProviderConfig) where
  get_max_loan_amount_lem :
      (token l : ℕ)
      → get_pool_liquidity chain config token ≡ ok (pos l)
      → get_max_loan_amount chain config token
        ≡ ok (loan_limit config.max_loan_amount (l * config.max_loan_percentage))
  unfolding get_max_loan_amount euclid
  get_max_loan_amount_lem token l h = rw h (simp (*ℤ-pos) refl)

  limited :
      (token : ℕ) (a most : ℤ)
      → get_max_loan_amount chain config token ≡ ok most
      → leb_ℤ a most ≡ true
      → (l : ℕ) × (get_pool_liquidity chain config token ≡ ok (pos l))
        × ((a ≤ℤ config.max_loan_amount) × (pos_part a * 100 ≤ l * config.max_loan_percentage))
  unfolding get_max_loan_amount
  limited token a most limit high =
      let (v, liquidity, _) =
        bind_ok (wrap liquidity_failed (get_pool_liquidity chain config token)) _ most limit in
      let found = wrap_ok liquidity_failed _ v liquidity in
      let (l, e) = liquidity_pos chain config token v found in
      let read : get_pool_liquidity chain config token ≡ ok (pos l) = cc in
      let same : most ≡ loan_limit config.max_loan_amount (l * config.max_loan_percentage) =
        cc (limit, get_max_loan_amount_lem token l read) in
      (
        l,
        read,
        (le-loan_limit a config.max_loan_amount (l * config.max_loan_percentage)).0
            (rw⁻¹ same high),
      )

  priced :
      (price : Option ℤ)
      → is_positive chain config price ≡ true
      → (p : ℤ) × (price ≡ some p) × (pos 0 <ℤ p)
  unfolding is_positive
  priced none h = absurd (cc h)
  priced (some p) h = (p, refl, ltb_ℤ→<ℤ (pos 0) p h)

  -- What ValidateRepayment asks of a loan, with the pool's liquidity.
  abbrev pub IsCovered : FlashLoanParams → Type 0
  IsCovered params =
      (a : ℤ) × (l : ℕ) × (price : ℤ) × (params.amount ≡ some a)
      × (get_pool_liquidity chain config params.token ≡ ok (pos l))
      × (params.gas_price ≡ some price)
      × (config.min_loan_amount ≤ℤ a)
      × (a ≤ℤ config.max_loan_amount)
      × (pos_part a * 100 ≤ l * config.max_loan_percentage)
      × (0 < length params.repayment_path)
      × (pos 0 <ℤ price)
      × (0 < params.gas_limit)

  -- ValidateRepayment accepts a loan exactly if the amount, the liquidity and the gas price are
  -- there, the amount is at least the configured minimum, at most the configured maximum and at
  -- most the configured share of the liquidity in percent, the repayment path is not empty and
  -- the gas price and the gas limit are positive.
  pub validate_repayment_iff :
      (params : FlashLoanParams)
      → (validate_repayment chain config (some params) ≡ ok tt) ↔ IsCovered params
  unfolding validate_repayment validate_params is_positive
  validate_repayment_iff params = (forward, back)
    where
      forward : validate_params chain config params ≡ ok tt → IsCovered params
      forward h =
          let (a, amount, h1) = bind_ok (deref params.amount) _ tt h in
          let (_, low, h2) =
            bind_ok (guard (leb_ℤ config.min_loan_amount a) below_minimum) _ tt h1 in
          let (most, limit, h3) =
            bind_ok (wrap max_loan_failed (get_max_loan_amount chain config params.token)) _ tt
              h2 in
          let (_, high, h4) = bind_ok (guard (leb_ℤ a most) above_maximum) _ tt h3 in
          let (_, path, h5) =
            bind_ok (guard (ltb 0 (length params.repayment_path)) empty_path) _ tt h4 in
          let (_, price, gas) =
            bind_ok (guard (is_positive chain config params.gas_price) bad_gas_price) _ tt h5 in
          let (l, liquid, covered) =
            limited params.token a most (wrap_ok max_loan_failed _ most limit)
              (guard_ok _ above_maximum _ high) in
          let (gas_price, g, positive) =
            priced params.gas_price (guard_ok _ bad_gas_price _ price) in
          (
            a,
            l,
            gas_price,
            deref_ok params.amount a amount,
            liquid,
            g,
            leb_ℤ→≤ℤ config.min_loan_amount a (guard_ok _ below_minimum _ low),
            covered.0,
            covered.1,
            ltb→lt 0 (length params.repayment_path) (guard_ok _ empty_path _ path),
            positive,
            ltb→lt 0 params.gas_limit (guard_ok _ bad_gas_limit tt gas),
          )

      accepted : (a : ℤ) → config.min_loan_amount ≤ℤ a → leb_ℤ config.min_loan_amount a ≡ true
      accepted a low = ground arith

      paid : (price : ℤ) → pos 0 <ℤ price → ltb_ℤ (pos 0) price ≡ true
      paid price gas = ground arith

      back : IsCovered params → validate_params chain config params ≡ ok tt
      back (a, l, price, e, liquid, g, low, most, share, path, gas, limit) =
          rw
            (
              e,
              accepted a low,
              get_max_loan_amount_lem params.token l liquid,
              (le-loan_limit a config.max_loan_amount (l * config.max_loan_percentage)).1
                  (most, share),
              lt→ltb 0 (length params.repayment_path) path,
              g,
              paid price gas,
              lt→ltb 0 params.gas_limit limit,
            )
            refl
