-- ===== src/Sandwich/Threshold.antt =====
-- strategies/sandwich/sandwich.go and utils/profit_calculator.go: what IsProfitable asks of a pool.
use profit_monopoly.Prelude.{
  Bool-cases, ltb, ltb→lt, List, Option, Run, arith, bind_ok, deref, deref_ok, err, false, guard,
  guard_ok, inl, inr, ok, or_err, or_err_ok, panic, refl, some, true, wrap, wrap_ok, ap, ◌∙◌, ℕ,
  ◌≡◌, ◌+◌, ◌*◌, ◌/◌, ◌-◌, ◌<◌, ◌≤◌,
}
use profit_monopoly.Int.{sub_ℕ, ℤ, ltb_ℤ, pos, negsuc, div, euclid, is_zero, ◌-ℤ◌, ◌≤ℤ◌}
use profit_monopoly.Int.Laws.{*ℤ-pos, +ℤ-pos, leb_ℤ→≤ℤ, -ℤ-twice}
use profit_monopoly.Int.Division.{div-le}
use profit_monopoly.Sandwich.Profit.{
  PoolConfig, ProfitCalculator, ProfitError, calculate_expected_profit, calculate_gas_cost,
  calculate_optimal_frontrun_amount, calculate_output_amount, calculate_price_impact,
}
use profit_monopoly.Sandwich.Attack.{
  AttackError, exceeds, Config, Environment, Swap, calculation_failed, decode_failed,
  expected_profit, get_target_pool, invalid_pool_reserves, is_profitable, pool_is_nil,
  validate_pool,
}

-- An output above the input needs a second reserve above the first with the input.
output_above : (a r0 r1 : ℕ) → 0 < r0 → a < (a * r1) / (r0 + a) → r0 + a < r1
output_above a r0 r1 positive gain = elim (Bool-cases (ltb (r0 + a) r1)) [
  | inl t ↦ ltb→lt (r0 + a) r1 t
  | inr n ↦
      absurd (omega (arith, div-le (a * r1) (r0 + a) a (omega arith) (scaled a (not_above n))))
]
  where
    distributed : (a d : ℕ) → a * (r1 + d) ≡ a * r1 + a * d
    distributed a d = grind arith

    not_above : ltb (r0 + a) r1 ≡ false → r1 ≤ r0 + a
    not_above n = ground arith

    scaled : (a : ℕ) → r1 ≤ r0 + a → a * r1 ≤ a * (r0 + a)
    scaled a h =
        let e : r0 + a ≡ r1 + (r0 + a - r1) = omega arith in
        rw e (omega (arith, distributed a (r0 + a - r1)))

-- The threshold and the gas leave a gain.
gain_above : (t g o n : ℕ) → 0 < t + g → pos t ≤ℤ pos o -ℤ pos n -ℤ pos (g * 300000) → n < o
gain_above t g o n some_cost h = gained (rw⁻¹ (-ℤ-twice o n (g * 300000)) h)
  where
    gained : pos t ≤ℤ sub_ℕ o (n + g * 300000) → n < o
    gained h = ground arith

≤ℤ-cong : (a a' b b' : ℤ) → a ≡ a' → b ≡ b' → a ≤ℤ b → a' ≤ℤ b'
≤ℤ-cong a a' b b' e f h = rw⁻¹ (e, f) h

exceeds_ok :
    (threshold : ℤ) (r : Run AttackError ℤ)
    → exceeds threshold r ≡ ok true
    → (profit : ℤ) × (r ≡ ok profit) × (threshold ≤ℤ profit)
unfolding exceeds
exceeds_ok threshold (ok profit) h = (profit, refl, leb_ℤ→≤ℤ threshold profit (cc h))
exceeds_ok threshold (err e) h = absurd (false_ne_true (cc h))
  where
    false_ne_true : false ≡ true → ⊥
    false_ne_true e = cc e
exceeds_ok threshold panic h = absurd (cc h)

-- A validated pool has positive reserves.
validate_pool_ok :
    (pool : Option PoolConfig) (u : Unit {0})
    → validate_pool pool ≡ ok u
    → (p : PoolConfig) × (r0 r1 : ℕ) × (pool ≡ some p)
      × (p.reserve0 ≡ some (pos r0))
      × (p.reserve1 ≡ some (pos r1))
      × (0 < r0)
unfolding validate_pool
validate_pool_ok pool u h =
    let (p, found, h1) = bind_ok (or_err pool pool_is_nil) _ u h in
    let (reserve0, e0, h2) = bind_ok (deref p.reserve0) _ u h1 in
    let (_, t0, h3) = bind_ok (guard (ltb_ℤ (pos 0) reserve0) invalid_pool_reserves) _ u h2 in
    let (reserve1, e1, t1) = bind_ok (deref p.reserve1) _ u h3 in
    let (r0, s0, positive) = positive_pos reserve0 (guard_ok _ invalid_pool_reserves _ t0) in
    let (r1, s1, _) = positive_pos reserve1 (guard_ok _ invalid_pool_reserves u t1) in
    (
      p,
      r0,
      r1,
      or_err_ok pool pool_is_nil p found,
      deref_ok p.reserve0 reserve0 e0 ∙ ap some s0,
      deref_ok p.reserve1 reserve1 e1 ∙ ap some s1,
      positive,
    )
  where
    positive_pos : (z : ℤ) → ltb_ℤ (pos 0) z ≡ true → (n : ℕ) × (z ≡ pos n) × (0 < n)
    positive_pos (pos n) t = (n, refl, ground arith)
    positive_pos (negsuc n) t = absurd (ground arith)

div-pos : (a b : ℕ) → 0 < b → ◌≡◌ {A = Run ProfitError ℤ} (div (pos a) (pos b)) (ok (pos (a / b)))
unfolding euclid
div-pos a b h = let nonzero : is_zero (pos b) ≡ false = ground arith in rw nonzero refl

calculate_output_amount_lem :
    (r0 r1 n : ℕ)
    → 0 < r0
    → calculate_output_amount (pos r0) (pos r1) (pos n) ≡ ok (pos ((n * r1) / (r0 + n)))
unfolding calculate_output_amount
calculate_output_amount_lem r0 r1 n positive =
    rw (*ℤ-pos n r1, +ℤ-pos r0 n) (div-pos (n * r1) (r0 + n) (omega arith))

calculate_price_impact_lem :
    (r0 r1 n : ℕ)
    → 0 < r0
    → calculate_price_impact (pos r0) (pos r1) (pos n) ≡ ok (pos ((n * 10000) / r0))
unfolding calculate_price_impact
calculate_price_impact_lem r0 r1 n positive = rw (*ℤ-pos n 10000) (div-pos (n * 10000) r0 positive)

-- The profit for a pool with positive reserves, when there is a gas price.
expected_profit_lem :
    (g n v r0 r1 : ℕ) (p : PoolConfig)
    → 0 < r0
    → p.reserve0 ≡ some (pos r0)
    → p.reserve1 ≡ some (pos r1)
    → calculate_expected_profit
        (some (record { gas_price = some (pos g) }))
        (some p)
        (some (pos n))
        (some (pos v))
      ≡ ok (pos ((n * r1) / (r0 + n)) -ℤ pos n -ℤ pos (g * 300000))
unfolding calculate_expected_profit calculate_gas_cost
expected_profit_lem g n v r0 r1 p positive e0 e1 =
    rw
      (
        e0,
        e1,
        calculate_price_impact_lem r0 r1 n positive,
        calculate_output_amount_lem r0 r1 n positive,
        *ℤ-pos g 300000,
      )
      refl

frontrun_amount_lem :
    (c : ProfitCalculator) (p : PoolConfig) (v : ℕ)
    → calculate_optimal_frontrun_amount (some c) (some p) (some (pos v)) ≡ ok (pos ((v * 20) / 100))
unfolding calculate_optimal_frontrun_amount
frontrun_amount_lem c p v = rw (*ℤ-pos v 20) (div-pos (v * 20) 100 (omega arith))

-- IsProfitable of a decoded swap with the amount v, when v and the threshold are not negative, the
-- gas price is there and not negative, and it or the threshold is not 0, answers true only for a
-- pool with positive reserves of which the second is above the first by more than the frontrun
-- amount, a fifth of v: the calculator subtracts the amount paid in one token from the amount
-- received in the other.
pub is_profitable_reserves :
    (config : Config) (env : Environment) (data_ : List ℕ) (swap : Swap) (g t v : ℕ)
    → env.decode_swap_params data_ ≡ some swap
    → swap.amount_in ≡ pos v
    → config.calculator ≡ record { gas_price = some (pos g) }
    → config.min_profit_threshold ≡ pos t
    → 0 < t + g
    → is_profitable config env data_ ≡ ok true
    → (p : PoolConfig) × (r0 r1 : ℕ) × (get_target_pool config.pools swap.token_in swap.token_out
        ≡ some p)
      × (p.reserve0 ≡ some (pos r0))
      × (p.reserve1 ≡ some (pos r1))
      × (0 < r0)
      × (r0 + (v * 20) / 100 < r1)
unfolding is_profitable expected_profit
is_profitable_reserves config env data_ swap g t v decoded amount calc threshold some_cost h =
    let (profit, e, over) =
      exceeds_ok config.min_profit_threshold (expected_profit config env data_) h in
    let (s, d, h1) = bind_ok (or_err (env.decode_swap_params data_) decode_failed) _ profit e in
    let same : swap ≡ s = cc (decoded, or_err_ok _ decode_failed s d) in
    let pool = get_target_pool config.pools s.token_in s.token_out in
    let (u, valid, h2) = bind_ok (validate_pool pool) _ profit h1 in
    let (p, r0, r1, found, e0, e1, positive) = validate_pool_ok pool u valid in
    let frontrun =
      calculate_optimal_frontrun_amount (some config.calculator) pool (some s.amount_in) in
    let (n, computed, h3) = bind_ok (wrap calculation_failed frontrun) _ profit h2 in
    let expected = wrap_ok calculation_failed _ profit h3 in
    let amount_s : s.amount_in ≡ pos v = rw⁻¹ same amount in
    let drawn = wrap_ok calculation_failed frontrun n computed in
    let n_is : n ≡ pos ((v * 20) / 100) = cc (drawn, frontrun_amount_lem config.calculator p v) in
    let profit_is : profit
        ≡ pos ((((v * 20) / 100) * r1) / (r0 + (v * 20) / 100))
          -ℤ pos ((v * 20) / 100)
          -ℤ pos (g * 300000) =
      cc (expected, expected_profit_lem g ((v * 20) / 100) v r0 r1 p positive e0 e1) in
    (
      p,
      r0,
      r1,
      rw same found,
      e0,
      e1,
      positive,
      output_above ((v * 20) / 100) r0 r1 positive
          (gain_above t g _ ((v * 20) / 100) some_cost (≤ℤ-cong _ _ _ _ threshold profit_is over)),
    )
