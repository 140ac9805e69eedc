-- ===== src/Dex.antt =====
-- dex/: the exchanges. The node answers the calls of the pair contracts and go-ethereum computes
-- addresses and hashes; both are the parameter `Env`. Addresses are numbers, bytes are numbers
-- below 256, and a pair contract is known by its address.
pub mod Amounts
pub mod Uniswap
pub mod Sushiswap
mod Tests
use profit_monopoly.Prelude.{
  Bool, List, Option, Run, deref, get_elem?, not, ok, or_err, ℕ, ◌>>=◌, ◌≡◌, ◌≢◌,
}
use profit_monopoly.Int.{ℤ}

-- `call_reserves` is the answer to getReserves: `none` for an error, else the values, each `none`
-- if it is not a *big.Int. `hex_gt a b` is `a.Hex() > b.Hex()`.
pub record Env : Type 0 where
  pub call_reserves : ℕ → Option (List (Option ℤ))
  pub hex_gt : ℕ → ℕ → Bool
  pub address_bytes : ℕ → List ℕ
  pub keccak : List ℕ → List ℕ
  pub bytes_to_address : List ℕ → ℕ

-- The texts of two addresses are in one order, if the addresses differ.
pub record IsOrdered (env : Env) : Type 0 where
  pub total : (a b : ℕ) → a ≢ b → env.hex_gt b a ≡ not (env.hex_gt a b)

pub data DexError : Type 0 where
  invalid_path call_failed parse_reserve0 parse_reserve1 : DexError
  insufficient_liquidity invalid_amounts : DexError

-- UniswapV2Pair.GetReserves, and getReserves of Sushiswap; an index out of range panics.
unfoldable pub pair_reserves : Env → ℕ → Run DexError (ℤ × ℤ)
pair_reserves env pair = do
  out ← or_err (env.call_reserves pair) call_failed
  first ← deref (get_elem? out 0)
  reserve0 ← or_err first parse_reserve0
  second ← deref (get_elem? out 1)
  reserve1 ← or_err second parse_reserve1
  ok (reserve0, reserve1)
