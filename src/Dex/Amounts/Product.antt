-- ===== src/Dex/Amounts/Product.antt =====
-- dex/uniswap/pair.go, dex/uniswap/v2.go: what a swap's output guarantees.
use profit_monopoly.Prelude.{arith, ok, refl, zero, suc, ℕ, ◌*◌, ◌+◌, ◌-◌, ◌/◌, ◌<◌, ◌≡◌, ◌≤◌}
use profit_monopoly.Int.{euclid, pos}
use profit_monopoly.Int.Division.{div-le, div_bounds, le-div}
use profit_monopoly.Int.Laws.{*ℤ-pos, +ℤ-pos}
use profit_monopoly.Dex.Amounts.{amount_out, guarded_amount_out}

-- The output on natural numbers.
abbrev pub output : ℕ → ℕ → ℕ → ℕ
output x reserve_in reserve_out = x * 997 * reserve_out / (reserve_in * 1000 + x * 997)

pub amount_out-pos {ℓ} :
    {E : Type ℓ} (x reserve_in reserve_out : ℕ)
    → 0 < reserve_in
    → amount_out {E = E} (pos x) (pos reserve_in) (pos reserve_out)
      ≡ ok (pos (output x reserve_in reserve_out))
unfolding amount_out euclid
amount_out-pos x reserve_in reserve_out h = simp (*ℤ-pos, +ℤ-pos) (ground arith)

product_step :
    (out x r s : ℕ) → out * (r * 1000 + x * 997) ≤ x * 997 * s → out * r + out * x ≤ x * s
product_step out x r s h = grind arith

-- The output takes at most its share of the product of the reserves.
pub output_share : (x r s : ℕ) → 0 < r → output x r s * r + output x r s * x ≤ x * s
output_share x r s h =
    let (low, _) = div_bounds (x * 997 * s) (r * 1000 + x * 997) (omega arith) in
    product_step (output x r s) x r s low

output_below : (out x r s : ℕ) → 0 < r → 0 < s → out * r + out * x ≤ x * s → out < s
output_below out x r s h k le = grind arith

kept_from : (out d x r : ℕ) → out * r + out * x ≤ x * (out + d) → r * (out + d) ≤ (r + x) * d
kept_from out d x r le = grind arith

kept_product : (out x r s : ℕ) → out ≤ s → out * r + out * x ≤ x * s → r * s ≤ (r + x) * (s - out)
kept_product out x r s h le =
    let whole : s ≡ out + (s - out) = omega arith in
    let le' : out * r + out * x ≤ x * (out + (s - out)) = rw (← whole) le in
    let kept = kept_from out (s - out) x r le' in rw (← whole) at kept

-- On reserves and an amount that are not negative UniswapV2Pair.GetAmountOut returns an amount
-- that is not negative, without a panic. The product of the reserves after the swap is at least
-- the product before it, and the output stays below a reserve that is not 0.
pub guarded_amount_out_product {ℓ} :
    {E : Type ℓ} (x r s : ℕ)
    → (out : ℕ) × (guarded_amount_out {E = E} (pos x) (pos r) (pos s) ≡ ok (pos out))
      × (r * s ≤ (r + x) * (s - out))
      × (0 < s → out < s)
unfolding guarded_amount_out
guarded_amount_out_product {E} zero r s = (0, refl, ground arith, λ h. h)
guarded_amount_out_product {E} (suc x) zero s = (0, ground arith, ground arith, λ h. h)
guarded_amount_out_product {E} (suc x) (suc r) zero = (0, ground arith, ground arith, λ h. h)
guarded_amount_out_product {E} (suc x) (suc r) (suc s) =
    let share = output_share (suc x) (suc r) (suc s) (omega arith) in
    let out = output (suc x) (suc r) (suc s) in
    let below = output_below out (suc x) (suc r) (suc s) (omega arith) (omega arith) share in
    (
      output (suc x) (suc r) (suc s),
      ground (arith, amount_out-pos {E = E} (suc x) (suc r) (suc s) (omega arith)),
      kept_product (output (suc x) (suc r) (suc s)) (suc x) (suc r) (suc s) (omega arith) share,
      λ h. below,
    )

mono_from :
    (out d x k r : ℕ)
    → out * (r * 1000 + x * 997) ≤ x * 997 * (out + d)
    → out * (r * 1000 + (x + k) * 997) ≤ (x + k) * 997 * (out + d)
mono_from out d x k r le = grind arith

mono_step :
    (out x y r s : ℕ)
    → x ≤ y
    → out ≤ s
    → out * (r * 1000 + x * 997) ≤ x * 997 * s
    → out * (r * 1000 + y * 997) ≤ y * 997 * s
mono_step out x y r s h k le =
    let whole : s ≡ out + (s - out) = omega arith in
    let more : y ≡ x + (y - x) = omega arith in
    let le' : out * (r * 1000 + x * 997) ≤ x * 997 * (out + (s - out)) = rw (← whole) le in
    let step = mono_from out (s - out) x (y - x) r le' in rw (← whole, ← more) at step

output-le : (x r s : ℕ) → 0 < r → output x r s ≤ s
output-le x r s h = div-le (x * 997 * s) (r * 1000 + x * 997) s (omega arith) (grind arith)

-- A larger input gives at least as much output.
pub output_mono : (x y r s : ℕ) → 0 < r → x ≤ y → output x r s ≤ output y r s
output_mono x y r s p h =
    let (low, _) = div_bounds (x * 997 * s) (r * 1000 + x * 997) (omega arith) in
    le-div (y * 997 * s) (r * 1000 + y * 997) (output x r s) (omega arith)
      (mono_step (output x r s) x y r s h (output-le x r s p) low)
