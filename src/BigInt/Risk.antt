-- ===== src/BigInt/Risk.antt =====
-- utils/math/bigint.go: AssessReorgRisk.
pub mod Decay
use profit_monopoly.Prelude.{Option, if◌then◌else◌, ltb, none, some, suc, zero, ℕ, ◌^◌}
use profit_monopoly.Int.{euclid, is_zero, ltb_ℤ, modulus, pos, pos_part, sub_ℕ, ℤ, ◌*ℤ◌, ◌+ℤ◌}

pub record ReorgRiskParams : Type 0 where
  pub block_depth : Option ℤ
  pub hash_power : Option ℤ
  pub network_latency : Option ℤ
  pub competitor_count : Option ℤ

-- `x.Int64()`: the low 64 bits, as a signed number.
unfoldable pub int64_of : ℤ → ℤ
unfolding modulus
int64_of x =
    let low = pos_part (modulus x (pos (2 ^ 64))) in
    if ltb low (2 ^ 63) then pos low else sub_ℕ low (2 ^ 64)

-- The loop over the block depth: each round takes 90 percent of the factor.
unfoldable pub depth_factor : ℕ → ℤ → ℤ
depth_factor zero factor = factor
depth_factor (suc i) factor = depth_factor i (euclid (factor *ℤ pos 90) (pos 100))

-- The adjustment for the network latency.
unfoldable pub adjust_latency : Option ℤ → ℤ → ℤ
adjust_latency none risk = risk
adjust_latency (some latency) risk =
    if is_zero latency
    then risk
    else euclid (risk *ℤ (pos 100 +ℤ euclid (pos 550) latency)) (pos 100)

-- The adjustment for the number of competitors.
unfoldable pub adjust_competitors : Option ℤ → ℤ → ℤ
adjust_competitors none risk = risk
adjust_competitors (some count) risk =
    if ltb_ℤ (pos 0) count then euclid (risk *ℤ (pos 100 +ℤ count *ℤ pos 2)) (pos 100) else risk

-- The part of AssessReorgRisk after the nil checks. The loop runs while `i < BlockDepth.Int64()`.
unfoldable pub reorg_risk : ℤ → ℤ → Option ℤ → Option ℤ → ℤ
unfolding int64_of depth_factor adjust_latency adjust_competitors
reorg_risk block_depth hash_power network_latency competitor_count =
    let rounds = pos_part (int64_of block_depth) in
    let base = euclid (hash_power *ℤ depth_factor rounds (pos 90)) (pos 100) in
    adjust_competitors competitor_count (adjust_latency network_latency base)

-- AssessReorgRisk
unfoldable pub assess_reorg_risk : ReorgRiskParams → ℤ
assess_reorg_risk params = elim params.block_depth [
  | none ↦ pos 0
  | some depth ↦ elim params.hash_power [
    | none ↦ pos 0
    | some power ↦ reorg_risk depth power params.network_latency params.competitor_count
  ]
]
