-- ===== src/Dex/Amounts.antt =====
-- dex/uniswap/pair.go, dex/uniswap/v2.go and dex/sushiswap/v2.go: the constant product formulas
-- with the fee of 0.3 percent.
pub mod Product
pub mod Inverse
use profit_monopoly.Prelude.{Bool, Run, if◌then◌else◌, ok, ◌>>=◌, ◌||◌}
use profit_monopoly.Int.{div, euclid, leb_ℤ, pos, ℤ, ◌*ℤ◌, ◌+ℤ◌, ◌-ℤ◌}

-- `x.Sign() <= 0` for one of three values.
abbrev pub not_all_positive : ℤ → ℤ → ℤ → Bool
not_all_positive a b c = leb_ℤ a (pos 0) || leb_ℤ b (pos 0) || leb_ℤ c (pos 0)

-- UniswapV2.getAmountOut, which has no guard: a zero denominator panics.
unfoldable pub amount_out {ℓ} : {E : Type ℓ} → ℤ → ℤ → ℤ → Run E ℤ
amount_out amount_in reserve_in reserve_out =
    let amount_in_with_fee = amount_in *ℤ pos 997 in
    let numerator = amount_in_with_fee *ℤ reserve_out in
    let denominator = reserve_in *ℤ pos 1000 +ℤ amount_in_with_fee in div numerator denominator

-- UniswapV2.getAmountIn
unfoldable pub amount_in {ℓ} : {E : Type ℓ} → ℤ → ℤ → ℤ → Run E ℤ
amount_in amount_out reserve_in reserve_out =
    let numerator = reserve_in *ℤ amount_out *ℤ pos 1000 in
    let denominator = (reserve_out -ℤ amount_out) *ℤ pos 997 in
    do quotient ← div numerator denominator; ok (quotient +ℤ pos 1)

-- UniswapV2Pair.GetAmountOut, and getAmountOut of Sushiswap.
unfoldable pub guarded_amount_out {ℓ} : {E : Type ℓ} → ℤ → ℤ → ℤ → Run E ℤ
unfolding amount_out
guarded_amount_out amount_in reserve_in reserve_out =
    if not_all_positive amount_in reserve_in reserve_out
    then ok (pos 0)
    else amount_out amount_in reserve_in reserve_out

-- UniswapV2Pair.GetAmountIn
unfoldable pub guarded_amount_in {ℓ} : {E : Type ℓ} → ℤ → ℤ → ℤ → Run E ℤ
unfolding amount_in
guarded_amount_in amount_out reserve_in reserve_out =
    if not_all_positive amount_out reserve_in reserve_out
    then ok (pos 0)
    else amount_in amount_out reserve_in reserve_out
