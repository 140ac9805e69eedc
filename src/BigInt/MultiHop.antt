-- ===== src/BigInt/MultiHop.antt =====
-- utils/math/bigint.go: CalculateMultiHopArbitrage. The debug output is left out.
pub mod Choice
use profit_monopoly.Prelude.{
  Bool, List, Option, Run, [], deref, get_elem?, if◌then◌else◌, length, none, ok, some, suc, true,
  zero, ℕ, ◌&&◌, ◌+◌, ◌==◌, ◌>>=◌, ◌>>◌, ◌||◌, ◌∷◌,
}
use profit_monopoly.Int.{euclid, leb_ℤ, pos, ℤ, ◌*ℤ◌, ◌-ℤ◌}

-- A nil pointer is `none`. Liquidities are not read, and MaxHops only goes into a local that the
-- search does not read.
pub record MultiHopParams : Type 0 where
  pub amounts : List (Option ℤ)
  pub prices : List (Option ℤ)
  pub gas_costs : List (Option ℤ)
  pub max_hops : ℤ
  pub min_profit_bps : Option ℤ

-- `x.Clone()`, with 0 for a nil pointer.
abbrev pub clone_int : Option ℤ → ℤ
clone_int none = pos 0
clone_int (some x) = x

-- The variables of the search: maxEnd, `none` for -1, and maxProfit.
pub record Best : Type 0 where
  pub max_end : Option ℕ
  pub max_profit : ℤ

-- `maxEnd == -1 || end == 2`
unfoldable pub replaces : Best → ℕ → Bool
replaces best end = elim best.max_end [ none ↦ true | some _ ↦ end == 2 ]

-- The body of the loop at `end`, for the values that it reads.
unfoldable pub consider : ℤ → ℤ → ℤ → ℕ → ℤ → ℤ → Best → Best
unfolding replaces
consider start_amount start_value min_profit end end_price gas_cost best =
    let total_profit = start_amount *ℤ end_price -ℤ gas_cost in
    let profit_over_start = total_profit -ℤ start_value in
    if leb_ℤ min_profit profit_over_start && replaces best end
    then record { max_end = some end; max_profit = total_profit }
    else best

-- `for end := …; end < n; end++`, with the rounds that are left.
unfoldable pub search_ends : ℕ → MultiHopParams → ℤ → ℤ → ℤ → ℕ → Best → Run ⊥ Best
unfolding consider
search_ends zero params start_amount start_value min_profit end best = ok best
search_ends (suc left) params start_amount start_value min_profit end best =
    (if end == 0 then ok best else do
      end_price ← deref (get_elem? params.prices end)
      gas_cost ← deref (get_elem? params.gas_costs end)
      ok (
          consider start_amount start_value min_profit end (clone_int end_price)
            (clone_int gas_cost) best))
    >>= search_ends left params start_amount start_value min_profit (end + 1)

-- CalculateMultiHopArbitrage: the path, `none` for nil, and its profit.
unfoldable pub calculate_multi_hop_arbitrage : MultiHopParams → Run ⊥ (Option (List ℕ) × ℤ)
unfolding search_ends
calculate_multi_hop_arbitrage params =
    let n = length params.amounts in
    if n == 0 || length params.prices == 0 then ok (none, pos 0) else do
      first ← deref (get_elem? params.amounts 0)
      price ← deref (get_elem? params.prices 0)
      start_price ← deref price
      let start_amount = clone_int first
      let start_value = start_amount *ℤ start_price
      bps ← deref params.min_profit_bps
      let min_profit = euclid (start_value *ℤ bps) (pos 10000)
      best ←
          search_ends n params start_amount start_value min_profit 0
            (record { max_end = none; max_profit = pos 0 })
      elim best.max_end [
        | none ↦ ok (none, pos 0)
        | some end ↦ ok (some (0 ∷ end ∷ []), best.max_profit)
      ]
