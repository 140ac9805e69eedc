-- ===== src/Dex/Amounts/Inverse.antt =====
-- dex/uniswap/v2.go: the input that getAmountIn computes is enough for the output, and not more
-- than one unit too much.
use profit_monopoly.Prelude.{arith, false, ok, ℕ, ◌*◌, ◌+◌, ◌-◌, ◌/◌, ◌<◌, ◌≡◌, ◌≤◌}
use profit_monopoly.Int.{euclid, is_zero, pos}
use profit_monopoly.Int.Division.{div-le, div_bounds, le-div}
use profit_monopoly.Int.Laws.{*ℤ-pos, +ℤ-pos, -ℤ-pos}
use profit_monopoly.Dex.Amounts.{amount_in}
use profit_monopoly.Dex.Amounts.Product.{output}

-- The input on natural numbers.
abbrev pub input : ℕ → ℕ → ℕ → ℕ
input y reserve_in reserve_out = reserve_in * y * 1000 / ((reserve_out - y) * 997) + 1

pub amount_in-pos {ℓ} :
    {E : Type ℓ} (y reserve_in reserve_out : ℕ)
    → y < reserve_out
    → amount_in {E = E} (pos y) (pos reserve_in) (pos reserve_out)
      ≡ ok (pos (input y reserve_in reserve_out))
unfolding amount_in euclid
amount_in-pos y reserve_in reserve_out h =
    let nonzero : is_zero (pos ((reserve_out - y) * 997)) ≡ false = ground arith in
    simp (*ℤ-pos, -ℤ-pos reserve_out y (omega arith), nonzero, +ℤ-pos)

enough_step :
    (x y r d : ℕ) → r * y * 1000 < x * (d * 997) → y * (r * 1000 + x * 997) ≤ x * 997 * (y + d)
enough_step x y r d h = grind arith

-- What getAmountIn asks for buys at least the output that is wanted.
pub output-input : (y r s : ℕ) → 0 < r → y < s → y ≤ output (input y r s) r s
output-input y r s p h =
    let (_, high) = div_bounds (r * y * 1000) ((s - y) * 997) (omega arith) in
    let total : s ≡ y + (s - y) = omega arith in
    le-div (input y r s * 997 * s) (r * 1000 + input y r s * 997) y (omega arith)
      (grind (arith, enough_step (input y r s) y r (s - y)))

minimal_step :
    (x y r d : ℕ) → y * (r * 1000 + x * 997) ≤ x * 997 * (y + d) → r * y * 1000 ≤ x * (d * 997)
minimal_step x y r d h = grind arith

-- An input that buys the output is at most one unit below what getAmountIn asks for.
pub input_minimal : (x y r s : ℕ) → 0 < r → y < s → y ≤ output x r s → input y r s ≤ x + 1
input_minimal x y r s p h q =
    let (low, _) = div_bounds (x * 997 * s) (r * 1000 + x * 997) (omega arith) in
    let least = minimal_step x y r (s - y) (grind arith) in
    let quotient = div-le (r * y * 1000) ((s - y) * 997) x (omega arith) least in omega arith
