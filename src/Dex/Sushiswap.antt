-- ===== src/Dex/Sushiswap.antt =====
-- dex/sushiswap/v2.go: reserves and amounts along a path. The node and go-ethereum are those of the
-- parent module. The loops run over the path as recursions, from its start or back from its end.
pub mod Paths
use profit_monopoly.Prelude.{
  List, Run, [], err, guard, if◌then◌else◌, not, ok, take, ℕ, ◌++◌, ◌>>=◌, ◌>>◌, ◌∷◌,
}
use profit_monopoly.Int.{euclid, leb_ℤ, pos, ℤ, ◌*ℤ◌, ◌+ℤ◌, ◌-ℤ◌}
use profit_monopoly.Dex.{
  DexError, Env, insufficient_liquidity, invalid_amounts, invalid_path, pair_reserves,
}
use profit_monopoly.Dex.Amounts.{guarded_amount_out, not_all_positive}

pub record SushiswapV2 : Type 0 where
  pub factory : ℕ
  pub init_code : List ℕ

-- The address that getPair computes for the sorted tokens, of which it reads four bytes each.
unfoldable pub sorted_pair : Env → SushiswapV2 → ℕ → ℕ → ℕ
sorted_pair env s token0 token1 =
    let salt =
      env.keccak (take 4 (env.address_bytes token0) ++ take 4 (env.address_bytes token1)) in
    env.bytes_to_address (
      env.keccak (
        (255 ∷ [])
        ++ (take 3 (env.address_bytes s.factory) ++ (take 3 salt ++ take 3 s.init_code))))

-- getPair
unfoldable pub get_pair : Env → SushiswapV2 → ℕ → ℕ → ℕ
unfolding sorted_pair
get_pair env s token_a token_b =
    if env.hex_gt token_a token_b
    then sorted_pair env s token_b token_a
    else sorted_pair env s token_a token_b

-- getPair, then getReserves.
unfoldable pub hop_reserves : Env → SushiswapV2 → ℕ → ℕ → Run DexError (ℤ × ℤ)
unfolding get_pair
hop_reserves env s token_a token_b = pair_reserves env (get_pair env s token_a token_b)

-- The hops of EstimateReturn, from a token on.
unfoldable pub estimate_from : Env → SushiswapV2 → ℤ → ℕ → List ℕ → Run DexError ℤ
unfolding hop_reserves
estimate_from env s amount token [] = ok amount
estimate_from env s amount token (next ∷ rest) = do
  (reserve0, reserve1) ← hop_reserves env s token next
  amount_out ← guarded_amount_out amount reserve0 reserve1
  estimate_from env s amount_out next rest

-- EstimateReturn
unfoldable pub estimate_return : Env → SushiswapV2 → ℤ → List ℕ → Run DexError ℤ
unfolding estimate_from
estimate_return env s amount [] = err invalid_path
estimate_return env s amount (token ∷ []) = err invalid_path
estimate_return env s amount (token ∷ next ∷ rest) = estimate_from env s amount token (next ∷ rest)

-- The body of the loop of GetAmountIn behind the reserves.
unfoldable pub required_in : ℤ → ℤ → ℤ → Run DexError ℤ
required_in amount_out reserve_in reserve_out =
    let numerator = reserve_in *ℤ amount_out *ℤ pos 1000 in
    let denominator = (reserve_out -ℤ amount_out) *ℤ pos 997 in
    do
      guard (not (not_all_positive amount_out reserve_in reserve_out)) invalid_amounts
      guard (not (leb_ℤ denominator (pos 0))) insufficient_liquidity
      ok (euclid numerator denominator +ℤ pos 1)

-- The loop of GetAmountIn, back from the end of the path to a token. Each round overwrites
-- `amountIn`; `amountOut` is the same in all of them.
unfoldable pub amount_in_from : Env → SushiswapV2 → ℤ → ℕ → List ℕ → Run DexError ℤ
unfolding hop_reserves required_in
amount_in_from env s amount_out token [] = ok amount_out
amount_in_from env s amount_out token (next ∷ rest) = do
  overwritten ← amount_in_from env s amount_out next rest
  (reserve_in, reserve_out) ← hop_reserves env s token next
  required_in amount_out reserve_in reserve_out

-- GetAmountIn
unfoldable pub get_amount_in : Env → SushiswapV2 → ℤ → List ℕ → Run DexError ℤ
unfolding amount_in_from
get_amount_in env s amount_out [] = err invalid_path
get_amount_in env s amount_out (token ∷ []) = err invalid_path
get_amount_in env s amount_out (token ∷ next ∷ rest) =
    amount_in_from env s amount_out token (next ∷ rest)
