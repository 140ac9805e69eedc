-- ===== src/Dex/Tests.antt =====
-- dex/: the theorems at inputs that meet their hypotheses.
use profit_monopoly.Prelude.{
  [], arith, ok, refl, some, ltb, not, ℕ, ◌*◌, ◌+◌, ◌-◌, ◌/◌, ◌<◌, ◌≤◌, ◌∷◌, ◌≡◌, ◌≢◌,
}
use profit_monopoly.Int.{pos}
use profit_monopoly.Dex.{Env, IsOrdered, pair_reserves}
use profit_monopoly.Dex.Amounts.{guarded_amount_out}
use profit_monopoly.Dex.Amounts.Product.{guarded_amount_out_product}
use profit_monopoly.Dex.Amounts.Inverse.{input}
use profit_monopoly.Dex.Uniswap
use profit_monopoly.Dex.Uniswap.{UniswapV2}
use profit_monopoly.Dex.Uniswap.Paths.{Feasible, estimate_return-get_amount_in}
use profit_monopoly.Dex.Sushiswap
use profit_monopoly.Dex.Sushiswap.{SushiswapV2}

-- Every pair holds the same reserves, and addresses are texts of one byte.
abbrev env : Env
env = record {
  call_reserves = λ pair. some (some (pos 1000000) ∷ some (pos 2000000) ∷ []);
  hex_gt = λ a b. ltb b a;
  address_bytes = λ a. (a / 10) ∷ 0 ∷ 0 ∷ 0 ∷ a ∷ [];
  keccak = λ bytes. bytes;
  bytes_to_address = λ bytes. 7;
}

env_total : (a b : ℕ) → a ≢ b → ltb a b ≡ not (ltb b a)
env_total a b ne = ground arith

env-IsOrdered : IsOrdered env
env-IsOrdered = record { total = env_total }

abbrev uniswap : UniswapV2
uniswap = record { factory = 1; init_code = 2 ∷ [] }

abbrev sushiswap : SushiswapV2
sushiswap = record { factory = 1; init_code = 2 ∷ [] }

guarded_amount_out_product_example :
    (out : ℕ) × (guarded_amount_out {E = ⊥} (pos 5000) (pos 1000000) (pos 2000000) ≡ ok (pos out))
    × (1000000 * 2000000 ≤ (1000000 + 5000) * (2000000 - out))
    × (0 < 2000000 → out < 2000000)
guarded_amount_out_product_example = guarded_amount_out_product {E = ⊥} 5000 1000000 2000000

uniswap_reserves : (a b : ℕ) → Uniswap.get_reserves env uniswap a b ≡ ok (pos 1000000, pos 2000000)
unfolding Uniswap.get_reserves pair_reserves
uniswap_reserves a b = refl

sushiswap_reserves :
    (a b : ℕ) → Sushiswap.hop_reserves env sushiswap a b ≡ ok (pos 1000000, pos 2000000)
unfolding Sushiswap.hop_reserves pair_reserves
sushiswap_reserves a b = refl

abbrev last_in : ℕ
last_in = input 500 1000000 2000000

two_hops : Feasible env uniswap 500 3 (4 ∷ 5 ∷ []) (input last_in 1000000 2000000)
two_hops = Feasible.hop 3 1000000 2000000 (uniswap_reserves 3 4) (omega arith) (omega arith) (
    Feasible.hop 4 1000000 2000000 (uniswap_reserves 4 5) (omega arith) (omega arith)
      (Feasible.here 5))

estimate_return-get_amount_in_example :
    (Uniswap.get_amount_in env uniswap (pos 500) (3 ∷ 4 ∷ 5 ∷ [])
      ≡ ok (pos (input last_in 1000000 2000000)))
    × ((z : ℕ) × (Uniswap.estimate_return env uniswap
            (pos (input last_in 1000000 2000000))
            (3 ∷ 4 ∷ 5 ∷ [])
          ≡ ok (pos z))
        × (500 ≤ z))
estimate_return-get_amount_in_example =
    estimate_return-get_amount_in env uniswap 500 3 4 (5 ∷ []) (input last_in 1000000 2000000)
      two_hops
