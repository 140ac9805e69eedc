-- ===== src/Dex/Sushiswap/Paths.antt =====
-- dex/sushiswap/v2.go: which pairs are told apart, and which hops of a path count.
use profit_monopoly.Prelude.{
  Bool-cases, inl, inr, List, Run, [], err, ok, panic, refl, take, ℕ, ◌>>=◌, ◌∷◌, ◌≡◌,
}
use profit_monopoly.Int.{pos, ℤ}
use profit_monopoly.Dex.{DexError, Env}
use profit_monopoly.Dex.Amounts.Product.{guarded_amount_out_product}
use profit_monopoly.Dex.Sushiswap.{
  SushiswapV2, amount_in_from, estimate_from, estimate_return, get_amount_in, get_pair,
  hop_reserves, sorted_pair,
}

get_pair_prefix :
    (env : Env) (s : SushiswapV2) (a a' b : ℕ)
    → take 4 (env.address_bytes a) ≡ take 4 (env.address_bytes a')
    → env.hex_gt a b ≡ env.hex_gt a' b
    → get_pair env s a b ≡ get_pair env s a' b
unfolding get_pair
get_pair_prefix env s a a' b e h = elim (Bool-cases (env.hex_gt a' b)) [
  | inl t ↦ rw (h, t, e, sorted_pair)
  | inr f ↦ rw (h, f, e, sorted_pair)
]

-- The reserves for a token are those for every other token that starts with the same four bytes
-- and is sorted to the same side of the partner: getPair reads no more of them.
pub hop_reserves_prefix :
    (env : Env) (s : SushiswapV2) (a a' b : ℕ)
    → take 4 (env.address_bytes a) ≡ take 4 (env.address_bytes a')
    → env.hex_gt a b ≡ env.hex_gt a' b
    → hop_reserves env s a b ≡ hop_reserves env s a' b
unfolding hop_reserves
hop_reserves_prefix env s a a' b e h = rw (get_pair_prefix env s a a' b e h)

-- A bind that succeeds, succeeds in both its parts.
bound {ℓ κ} :
    {A : Type ℓ} {B : Type κ} (m : Run DexError A) (f : A → Run DexError B) {b : B}
    → (m >>= f) ≡ ok b
    → (a : A) × (m ≡ ok a) × (f a ≡ ok b)
bound (ok a) f h = (a, refl, h)
bound (err e) f h = cc
bound panic f h = cc

-- Whatever GetAmountIn returns for a longer path is what it returns for the first hop alone: the
-- hops behind the first one have no influence on the amount.
pub get_amount_in_first_hop :
    (env : Env) (s : SushiswapV2) (wanted x : ℤ) (token next : ℕ) (rest : List ℕ)
    → get_amount_in env s wanted (token ∷ next ∷ rest) ≡ ok x
    → get_amount_in env s wanted (token ∷ next ∷ []) ≡ ok x
unfolding get_amount_in amount_in_from
get_amount_in_first_hop env s wanted x token next rest h =
    let (_, _, first) = bound (amount_in_from env s wanted next rest) _ h in first

-- Every hop of a path has reserves that can be read and are not negative.
pub data Readable (env : Env) (s : SushiswapV2) : ℕ → List ℕ → Type 0 where
  here : (token : ℕ) → Readable env s token []
  hop :
      {next : ℕ} {rest : List ℕ} (token r0 r1 : ℕ)
      → hop_reserves env s token next ≡ ok (pos r0, pos r1)
      → Readable env s next rest
      → Readable env s token (next ∷ rest)

estimate_from-Readable :
    (env : Env) (s : SushiswapV2) {token : ℕ} {rest : List ℕ} (x : ℕ)
    → Readable env s token rest
    → (z : ℕ) × (estimate_from env s (pos x) token rest ≡ ok (pos z))
unfolding estimate_from
estimate_from-Readable env s x (here token) = (x, refl)
estimate_from-Readable env s x (hop token r0 r1 e f) =
    let (out, p, _, _) = guarded_amount_out_product {E = DexError} x r0 r1 in
    let (z, q) = estimate_from-Readable env s out f in (z, rw (e, p) q)

-- Along a path whose reserves can all be read and are not negative, EstimateReturn of an amount
-- that is not negative returns an amount that is not negative: no hop panics or is refused.
pub estimate_return-Readable :
    (env : Env) (s : SushiswapV2) (x token next : ℕ) (rest : List ℕ)
    → Readable env s token (next ∷ rest)
    → (z : ℕ) × (estimate_return env s (pos x) (token ∷ next ∷ rest) ≡ ok (pos z))
unfolding estimate_return
estimate_return-Readable env s x token next rest r = estimate_from-Readable env s x r
