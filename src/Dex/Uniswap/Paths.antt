-- ===== src/Dex/Uniswap/Paths.antt =====
-- dex/uniswap/v2.go: what prices and paths guarantee.
use profit_monopoly.Prelude.{
  Bool-cases, List, [], ap, arith, false, inl, inr, not, ok, refl, true, ℕ, ◌<◌, ◌∙◌, ◌∷◌, ◌≡◌, ◌≢◌,
  ◌≤◌,
}
use profit_monopoly.Int.{pos}
use profit_monopoly.Dex.{DexError, Env, IsOrdered}
use profit_monopoly.Dex.Amounts.Product.{amount_out-pos, output, output_mono}
use profit_monopoly.Dex.Amounts.Inverse.{amount_in-pos, input, output-input}
use profit_monopoly.Dex.Uniswap.{
  UniswapV2, amount_in_from, estimate_from, estimate_return, get_amount_in, get_price, get_reserves,
  pair_for,
}

pair_for_comm :
    (env : Env) (u : UniswapV2) (a b : ℕ)
    → IsOrdered env
    → a ≢ b
    → pair_for env u a b ≡ pair_for env u b a
unfolding pair_for
pair_for_comm env u a b o ne = elim (Bool-cases (env.hex_gt a b)) [
  | inl t ↦ let s : env.hex_gt b a ≡ false = o.total a b ne ∙ ap not t in rw (t, s)
  | inr f ↦ let s : env.hex_gt b a ≡ true = o.total a b ne ∙ ap not f in rw (f, s)
]

-- GetPrice has one result for a pair of different tokens, in whichever order they are given: the
-- reserves are read as the pair contract sorts them, and not as the arguments stand.
pub get_price_comm :
    (env : Env) (u : UniswapV2) (a b : ℕ)
    → IsOrdered env
    → a ≢ b
    → get_price env u a b ≡ get_price env u b a
unfolding get_price get_reserves
get_price_comm env u a b o ne = rw (pair_for_comm env u a b o ne)

-- Every hop of a path has reserves above 0, and the amounts that GetAmountIn works back to from
-- `wanted` stay below what each hop holds; `start` is the amount at the first token.
pub data Feasible (env : Env) (u : UniswapV2) (wanted : ℕ) : ℕ → List ℕ → ℕ → Type 0 where
  here : (token : ℕ) → Feasible env u wanted token [] wanted
  hop :
      {next : ℕ} {rest : List ℕ} {y : ℕ} (token r s : ℕ)
      → get_reserves env u token next ≡ ok (pos r, pos s)
      → 0 < r
      → y < s
      → Feasible env u wanted next rest y
      → Feasible env u wanted token (next ∷ rest) (input y r s)

amount_in_from-Feasible :
    (env : Env) (u : UniswapV2) (wanted : ℕ) {token : ℕ} {rest : List ℕ} {x : ℕ}
    → Feasible env u wanted token rest x
    → amount_in_from env u (pos wanted) token rest ≡ ok (pos x)
unfolding amount_in_from
amount_in_from-Feasible env u wanted (here token) = refl
amount_in_from-Feasible env u wanted (hop {y = y} token r s e p q f) =
    rw (amount_in_from-Feasible env u wanted f, e) (amount_in-pos y r s q)

estimate_from-Feasible :
    (env : Env) (u : UniswapV2) (wanted : ℕ) {token : ℕ} {rest : List ℕ} {x : ℕ} (x' : ℕ)
    → Feasible env u wanted token rest x
    → x ≤ x'
    → (z : ℕ) × (estimate_from env u (pos x') token rest ≡ ok (pos z)) × (wanted ≤ z)
unfolding estimate_from
estimate_from-Feasible env u wanted x' (here token) h = (x', refl, h)
estimate_from-Feasible env u wanted x' (hop {y = y} token r s e p q f) h =
    let enough = output-input y r s p q in
    let more = output_mono (input y r s) x' r s p h in
    let (z, est, le) = estimate_from-Feasible env u wanted (output x' r s) f (omega arith) in
    (z, rw (e, amount_out-pos {E = DexError} x' r s p) est, le)

-- On a path whose hops can deliver the amounts, GetAmountIn returns an amount for which
-- EstimateReturn, along the same path, returns at least the amount that was wanted.
pub estimate_return-get_amount_in :
    (env : Env) (u : UniswapV2) (wanted token next : ℕ) (rest : List ℕ) (x : ℕ)
    → Feasible env u wanted token (next ∷ rest) x
    → (get_amount_in env u (pos wanted) (token ∷ next ∷ rest) ≡ ok (pos x))
      × ((z : ℕ) × (estimate_return env u (pos x) (token ∷ next ∷ rest) ≡ ok (pos z))
          × (wanted ≤ z))
unfolding get_amount_in estimate_return
estimate_return-get_amount_in env u wanted token next rest x f =
    (amount_in_from-Feasible env u wanted f, estimate_from-Feasible env u wanted x f (omega arith))
