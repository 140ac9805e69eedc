-- ===== src/Dex/Uniswap.antt =====
-- dex/uniswap/v2.go: prices, reserves and amounts along a path. The map `pairs` caches one value
-- for each address, which holds that address and the client; a new one is the same, so the cache is
-- left out. NewUniswapV2 has parsed the ABI, a constant, that NewUniswapV2Pair parses again. The
-- slice `amounts` is carried as its last entry that was written.
pub mod Paths
use profit_monopoly.Prelude.{
  Bool, List, Run, [], err, guard, if◌then◌else◌, not, ok, ℕ, ◌++◌, ◌>>=◌, ◌>>◌, ◌∷◌,
}
use profit_monopoly.Int.{div, is_zero, pos, ℤ, ◌*ℤ◌}
use profit_monopoly.Dex.{DexError, Env, insufficient_liquidity, invalid_path, pair_reserves}
use profit_monopoly.Dex.Amounts.{amount_in, amount_out}

pub record UniswapV2 : Type 0 where
  pub factory : ℕ
  pub init_code : List ℕ

-- pairFor, for the sorted tokens.
unfoldable pub sorted_pair : Env → UniswapV2 → ℕ → ℕ → ℕ
sorted_pair env u token0 token1 =
    let salt = env.keccak (env.address_bytes token0 ++ env.address_bytes token1) in
    env.bytes_to_address
      (env.keccak ((255 ∷ []) ++ (env.address_bytes u.factory ++ (salt ++ u.init_code))))

-- pairFor
unfoldable pub pair_for : Env → UniswapV2 → ℕ → ℕ → ℕ
unfolding sorted_pair
pair_for env u token0 token1 =
    if env.hex_gt token0 token1
    then sorted_pair env u token1 token0
    else sorted_pair env u token0 token1

-- GetReserves
unfoldable pub get_reserves : Env → UniswapV2 → ℕ → ℕ → Run DexError (ℤ × ℤ)
unfolding pair_for
get_reserves env u token0 token1 = pair_reserves env (pair_for env u token0 token1)

-- The price that GetPrice computes from the two reserves.
abbrev pub price_of : ℤ × ℤ → Run DexError ℤ
price_of (reserve0, reserve1) =
    if is_zero reserve0
    then err insufficient_liquidity
    else div (reserve1 *ℤ pos 1000000000000000000) reserve0

-- GetPrice
unfoldable pub get_price : Env → UniswapV2 → ℕ → ℕ → Run DexError ℤ
unfolding get_reserves
get_price env u token0 token1 = get_reserves env u token0 token1 >>= price_of

-- The loop of EstimateReturn, from a token on.
unfoldable pub estimate_from : Env → UniswapV2 → ℤ → ℕ → List ℕ → Run DexError ℤ
unfolding get_reserves
estimate_from env u amount token [] = ok amount
estimate_from env u amount token (next ∷ rest) = do
  (reserve0, reserve1) ← get_reserves env u token next
  amount' ← amount_out amount reserve0 reserve1
  estimate_from env u amount' next rest

-- EstimateReturn
unfoldable pub estimate_return : Env → UniswapV2 → ℤ → List ℕ → Run DexError ℤ
unfolding estimate_from
estimate_return env u amount [] = err invalid_path
estimate_return env u amount (token ∷ []) = err invalid_path
estimate_return env u amount (token ∷ next ∷ rest) = estimate_from env u amount token (next ∷ rest)

-- The loop of GetAmountIn, which runs from the end of the path back to a token.
unfoldable pub amount_in_from : Env → UniswapV2 → ℤ → ℕ → List ℕ → Run DexError ℤ
unfolding get_reserves
amount_in_from env u amount token [] = ok amount
amount_in_from env u amount token (next ∷ rest) = do
  amount' ← amount_in_from env u amount next rest
  (reserve0, reserve1) ← get_reserves env u token next
  amount_in amount' reserve0 reserve1

-- GetAmountIn
unfoldable pub get_amount_in : Env → UniswapV2 → ℤ → List ℕ → Run DexError ℤ
unfolding amount_in_from
get_amount_in env u amount [] = err invalid_path
get_amount_in env u amount (token ∷ []) = err invalid_path
get_amount_in env u amount (token ∷ next ∷ rest) = amount_in_from env u amount token (next ∷ rest)
