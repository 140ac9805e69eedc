-- ===== src/BigInt/Risk/Decay.antt =====
-- utils/math/bigint.go: the reorg risk falls with the depth.
use profit_monopoly.Prelude.{
  Option, ap, arith, if◌then◌else◌, ltb, none, refl, some, suc, zero, ℕ, ◌*◌, ◌+◌, ◌/◌, ◌<◌, ◌==◌,
  ◌^◌, ◌≡◌, ◌≤◌,
}
use profit_monopoly.Int.{euclid, pos, ℤ, ◌≤ℤ◌}
use profit_monopoly.BigInt.Risk.{
  ReorgRiskParams, adjust_competitors, adjust_latency, assess_reorg_risk, depth_factor, int64_of,
  reorg_risk,
}
use profit_monopoly.Int.Division.{div_mono}
use profit_monopoly.Int.Laws.{*ℤ-pos, +ℤ-pos}

-- The loop over the depth on natural numbers.
abbrev pub decay : ℕ → ℕ → ℕ
decay zero factor = factor
decay (suc i) factor = decay i (factor * 90 / 100)

depth_factor-pos : (i factor : ℕ) → depth_factor i (pos factor) ≡ pos (decay i factor)
unfolding depth_factor euclid
depth_factor-pos zero factor = refl
depth_factor-pos (suc i) factor = rw (*ℤ-pos factor 90) (depth_factor-pos i (factor * 90 / 100))

decay-le : (i factor : ℕ) → decay i factor ≤ factor
decay-le zero factor = omega arith
decay-le (suc i) factor = omega (arith, decay-le i (factor * 90 / 100))

decay_antitone : (i j factor : ℕ) → i ≤ j → decay j factor ≤ decay i factor
decay_antitone zero j factor h = decay-le j factor
decay_antitone (suc i) zero factor h = absurd (omega arith)
decay_antitone (suc i) (suc j) factor h = decay_antitone i j (factor * 90 / 100) (omega arith)

int64_of-pos : (n : ℕ) → n < 2 ^ 63 → int64_of (pos n) ≡ pos n
unfolding int64_of
int64_of-pos n h = ground arith

euclid_mono : (a b c : ℕ) → a ≤ b → euclid (pos a) (pos c) ≤ℤ euclid (pos b) (pos c)
unfolding euclid
euclid_mono a b c h = omega (arith, div_mono a b c h)

-- A pointer to a natural number.
abbrev pub of_ℕ : Option ℕ → Option ℤ
of_ℕ none = none
of_ℕ (some n) = some (pos n)

-- The two adjustments on natural numbers.
abbrev latency_ℕ : Option ℕ → ℕ → ℕ
latency_ℕ none risk = risk
latency_ℕ (some latency) risk = if latency == 0 then risk else risk * (100 + 550 / latency) / 100

abbrev competitors_ℕ : Option ℕ → ℕ → ℕ
competitors_ℕ none risk = risk
competitors_ℕ (some count) risk = if ltb 0 count then risk * (100 + count * 2) / 100 else risk

adjust_latency-pos :
    (latency : Option ℕ) (risk : ℕ)
    → adjust_latency (of_ℕ latency) (pos risk) ≡ pos (latency_ℕ latency risk)
unfolding adjust_latency euclid
adjust_latency-pos none risk = refl
adjust_latency-pos (some latency) risk = simp (+ℤ-pos, *ℤ-pos) (ground arith)

adjust_competitors-pos :
    (count : Option ℕ) (risk : ℕ)
    → adjust_competitors (of_ℕ count) (pos risk) ≡ pos (competitors_ℕ count risk)
unfolding adjust_competitors euclid
adjust_competitors-pos none risk = refl
adjust_competitors-pos (some count) risk = simp (+ℤ-pos, *ℤ-pos) (ground arith)

scaled_mono : (a b c d : ℕ) → a ≤ b → a * c / d ≤ b * c / d
scaled_mono a b c d h = div_mono (a * c) (b * c) d (grind arith)

latency_ℕ_mono : (latency : Option ℕ) (a b : ℕ) → a ≤ b → latency_ℕ latency a ≤ latency_ℕ latency b
latency_ℕ_mono none a b h = h
latency_ℕ_mono (some latency) a b h = ground (arith, scaled_mono a b (100 + 550 / latency) 100 h)

competitors_ℕ_mono :
    (count : Option ℕ) (a b : ℕ) → a ≤ b → competitors_ℕ count a ≤ competitors_ℕ count b
competitors_ℕ_mono none a b h = h
competitors_ℕ_mono (some count) a b h = ground (arith, scaled_mono a b (100 + count * 2) 100 h)

adjusted_zero :
    (latency count : Option ℕ) (risk : ℕ)
    → risk ≡ 0
    → competitors_ℕ count (latency_ℕ latency risk) ≡ 0
adjusted_zero none none risk h = h
adjusted_zero none (some count) risk h = grind arith
adjusted_zero (some latency) none risk h = grind arith
adjusted_zero (some latency) (some count) risk h = rw h (ground arith)

-- The whole assessment on natural numbers.
abbrev risk_ℕ : ℕ → ℕ → Option ℕ → Option ℕ → ℕ
risk_ℕ depth power latency count =
    competitors_ℕ count (latency_ℕ latency (power * decay depth 90 / 100))

reorg_risk-pos :
    (depth power : ℕ) (latency count : Option ℕ)
    → depth < 2 ^ 63
    → reorg_risk (pos depth) (pos power) (of_ℕ latency) (of_ℕ count)
      ≡ pos (risk_ℕ depth power latency count)
unfolding reorg_risk euclid
reorg_risk-pos depth power latency count h =
    rw (int64_of-pos depth h)
      (simp (depth_factor-pos, *ℤ-pos, adjust_latency-pos, adjust_competitors-pos))

abbrev pub params_at : ℕ → ℕ → Option ℕ → Option ℕ → ReorgRiskParams
params_at depth power latency count = record {
  block_depth = some (pos depth);
  hash_power = some (pos power);
  network_latency = of_ℕ latency;
  competitor_count = of_ℕ count;
}

-- With the other parameters fixed and not negative, the risk assessed for a deeper block is at most
-- the risk assessed for a shallower one.
pub assess_reorg_risk_antitone :
    (i j power : ℕ) (latency count : Option ℕ)
    → i ≤ j
    → j < 2 ^ 63
    → assess_reorg_risk (params_at j power latency count)
      ≤ℤ assess_reorg_risk (params_at i power latency count)
unfolding assess_reorg_risk
assess_reorg_risk_antitone i j power latency count h k =
    let below = scaled_mono (decay j 90) (decay i 90) power 100 (decay_antitone i j 90 h) in
    rw (reorg_risk-pos j power latency count k, reorg_risk-pos i power latency count (omega arith))
      (omega (
        arith,
        competitors_ℕ_mono count _ _ (
            latency_ℕ_mono latency (power * decay j 90 / 100) (power * decay i 90 / 100)
              (omega (arith, below))),
      ))

-- From a depth of 27 blocks on the integer arithmetic assesses no risk at all, whatever the hash
-- power, the latency and the competitors.
pub assess_reorg_risk_deep :
    (depth power : ℕ) (latency count : Option ℕ)
    → 27 ≤ depth
    → depth < 2 ^ 63
    → assess_reorg_risk (params_at depth power latency count) ≡ pos 0
unfolding assess_reorg_risk
assess_reorg_risk_deep depth power latency count h k =
    let gone : decay depth 90 ≡ 0 = omega (arith, decay_antitone 27 depth 90 h) in
    rw (reorg_risk-pos depth power latency count k, gone)
      (ap pos (adjusted_zero latency count (power * 0 / 100) (omega arith)))
