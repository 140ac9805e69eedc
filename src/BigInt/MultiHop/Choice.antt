-- ===== src/BigInt/MultiHop/Choice.antt =====
-- utils/math/bigint.go: which end CalculateMultiHopArbitrage chooses.
use profit_monopoly.Prelude.{
  ==_iff, Bool-cases, List, Option, Run, [], ap, arith, deref, false, get_elem?, inl, inr, length,
  none, ok, refl, some, suc, sym, zero, ℕ, ℕ_discrete, ◌+◌, ◌<◌, ◌==◌, ◌∙◌, ◌∷◌, ◌≡◌, ◌≢◌, ◌≤◌,
}
use profit_monopoly.Int.{euclid, leb_ℤ, pos, ℤ, ◌*ℤ◌, ◌-ℤ◌, ◌≤ℤ◌}
use profit_monopoly.BigInt.MultiHop.{
  Best, MultiHopParams, calculate_multi_hop_arbitrage, clone_int, consider, search_ends,
}
use profit_monopoly.Int.Laws.{leb_ℤ→≤ℤ}

-- The value at an index, with 0 for a nil pointer.
abbrev pub value_at : List (Option ℤ) → ℕ → ℤ
value_at [] i = pos 0
value_at (x ∷ xs) zero = clone_int x
value_at (x ∷ xs) (suc i) = value_at xs i

get_elem?-value_at :
    (xs : List (Option ℤ)) (i : ℕ)
    → i < length xs
    → (x : Option ℤ) × (get_elem? xs i ≡ some x) × (clone_int x ≡ value_at xs i)
get_elem?-value_at [] i h = absurd (omega arith)
get_elem?-value_at (x ∷ xs) zero h = (x, refl, refl)
get_elem?-value_at (x ∷ xs) (suc i) h = get_elem?-value_at xs i (omega arith)

deref-clone_int :
    (x : Option ℤ) (n : ℤ) → x ≡ some n → ◌≡◌ {A = Run ⊥ ℤ} (deref x) (ok (clone_int x))
deref-clone_int none n h = absurd (cc h)
deref-clone_int (some x) n h = refl

-- The profit of a path to `end`, before the start value is subtracted.
abbrev pub total_profit : MultiHopParams → ℕ → ℤ
total_profit params end =
    value_at params.amounts 0 *ℤ value_at params.prices end -ℤ value_at params.gas_costs end

abbrev pub start_value : MultiHopParams → ℤ
start_value params = value_at params.amounts 0 *ℤ value_at params.prices 0

-- The path to `end` reaches the minimal profit; without the basis points the call panics.
abbrev pub Qualifies : MultiHopParams → ℕ → Type 0
Qualifies params end =
    euclid (start_value params *ℤ clone_int params.min_profit_bps) (pos 10000)
    ≤ℤ total_profit params end -ℤ start_value params

-- What the search knows before it looks at `end`.
abbrev Found : MultiHopParams → ℕ → Option ℕ → ℤ → Type 0
Found params end none profit = (e : ℕ) → 0 < e → e < end → ¬ (Qualifies params e)
Found params end (some chosen) profit =
    (0 < chosen)
    × (chosen < end)
    × Qualifies params chosen
    × (profit ≡ total_profit params chosen)
    × (2 < end → Qualifies params 2 → chosen ≡ 2)
    × (chosen ≢ 2 → (e : ℕ) → 0 < e → e < chosen → ¬ (Qualifies params e))

-- The answer for a path: what is chosen, and why.
abbrev pub IsChoice : MultiHopParams → Option (List ℕ) × ℤ → Type 0
IsChoice params (none, profit) =
    (profit ≡ pos 0) × ((e : ℕ) → 0 < e → e < length params.amounts → ¬ (Qualifies params e))
IsChoice params (some path, profit) =
    (e : ℕ) × (path ≡ 0 ∷ e ∷ [])
    × (0 < e)
    × (e < length params.amounts)
    × Qualifies params e
    × (profit ≡ total_profit params e)
    × (2 < length params.amounts → Qualifies params 2 → e ≡ 2)
    × (e ≢ 2 → (d : ℕ) → 0 < d → d < e → ¬ (Qualifies params d))

abbrev answer : Option ℕ → ℤ → Option (List ℕ) × ℤ
answer none profit = (none, pos 0)
answer (some end) profit = (some (0 ∷ end ∷ []), profit)

answer_lem :
    (m : Option ℕ) (profit : ℤ)
    → elim m as (λ _. Run ⊥ (Option (List ℕ) × ℤ)) [
      | none ↦ ok (none, pos 0)
      | some end ↦ ok (some (0 ∷ end ∷ []), profit)
    ]
      ≡ ok (answer m profit)
answer_lem none profit = refl
answer_lem (some c) profit = refl

module _ (params : MultiHopParams) where
  abbrev threshold : ℤ
  threshold = euclid (start_value params *ℤ clone_int params.min_profit_bps) (pos 10000)

  abbrev look : ℕ → Best → Best
  look end best =
      consider (value_at params.amounts 0) (start_value params) threshold end
        (value_at params.prices end) (value_at params.gas_costs end) best

  -- One more end that does not qualify.
  none_before :
      (end : ℕ)
      → ((e : ℕ) → 0 < e → e < end → ¬ (Qualifies params e))
      → ¬ (Qualifies params end)
      → (e : ℕ) → 0 < e
      → e < end + 1
      → ¬ (Qualifies params e)
  none_before end f nq e p lt = elim (ℕ_discrete e end) [
    | yes same ↦ rw same nq
    | no other ↦ f e p (grind arith)
  ]

  first_Found :
      (end : ℕ)
      → 0 < end
      → ((e : ℕ) → 0 < e → e < end → ¬ (Qualifies params e))
      → Qualifies params end
      → Found params (end + 1) (some end) (total_profit params end)
  first_Found end h f q = (
    h,
    omega arith,
    q,
    refl,
    λ lt q2. elim (ℕ_discrete end 2) [
      | yes same ↦ same
      | no other ↦ absurd (f 2 (omega arith) (grind arith) q2)
    ],
    λ ne e p lt. f e p lt,
  )

  second_Found :
      (end c : ℕ) (profit : ℤ)
      → end ≡ 2
      → Qualifies params end
      → Found params end (some c) profit
      → Found params (end + 1) (some end) (total_profit params end)
  second_Found end c profit e q f =
      (omega arith, omega arith, q, refl, λ lt q2. e, λ ne d p lt. absurd (ne e))

  kept_Found :
      (end c : ℕ) (profit : ℤ)
      → ¬ ((end ≡ 2) × Qualifies params end)
      → Found params end (some c) profit
      → Found params (end + 1) (some c) profit
  kept_Found end c profit n f = (
    f.0,
    omega (arith, f.1),
    f.2,
    f.3,
    λ lt q2. elim (ℕ_discrete end 2) [
      | yes same ↦ absurd (n (same, rw same q2))
      | no other ↦ f.4 (grind arith) q2
    ],
    f.5,
  )

  look-Found :
      (end : ℕ) (m : Option ℕ) (profit : ℤ)
      → 0 < end
      → Found params end m profit
      → (let best = look end (record { max_end = m; max_profit = profit }) in
          Found params (end + 1) best.max_end best.max_profit)
  unfolding consider
  look-Found end none profit h f =
      elim (Bool-cases (leb_ℤ threshold (total_profit params end -ℤ start_value params))) [
        | inl t ↦ rw t (
            first_Found end h f
              (leb_ℤ→≤ℤ threshold (total_profit params end -ℤ start_value params) t))
        | inr t ↦ rw t (none_before end f (λ q. ground arith))
      ]
  look-Found end (some c) profit h f =
      elim (Bool-cases (leb_ℤ threshold (total_profit params end -ℤ start_value params))) [
        | inl t ↦ elim (Bool-cases (end == 2)) [
          | inl two ↦
              rw (t, two)
                (second_Found end c profit ((==_iff end 2).0 two)
                  (leb_ℤ→≤ℤ threshold (total_profit params end -ℤ start_value params) t) f)
          | inr far ↦ rw (t, far) (kept_Found end c profit (λ (same, q). ground arith) f)
        ]
        | inr t ↦ rw t (kept_Found end c profit (λ (same, q). ground arith) f)
      ]

  module _ (prices : length params.amounts ≤ length params.prices)
      (costs : length params.amounts ≤ length params.gas_costs) where
    search_ends-Found :
        (left end : ℕ) (m : Option ℕ) (profit : ℤ)
        → end + left ≡ length params.amounts
        → 0 < end
        → Found params end m profit
        → (best : Best) × (search_ends left params
              (value_at params.amounts 0)
              (start_value params)
              threshold
              end
              (record { max_end = m; max_profit = profit })
            ≡ ok best)
          × Found params (length params.amounts) best.max_end best.max_profit
    unfolding search_ends
    search_ends-Found zero end m profit s h f =
        let here : end ≡ length params.amounts = omega arith in
        (record { max_end = m; max_profit = profit }, refl, rw (← here) f)
    search_ends-Found (suc left) end m profit s h f =
        let (x, p, px) = get_elem?-value_at params.prices end (omega arith) in
        let (y, q, qy) = get_elem?-value_at params.gas_costs end (omega arith) in
        let best = look end (record { max_end = m; max_profit = profit }) in
        let (b, r, g) =
          search_ends-Found left (end + 1) best.max_end best.max_profit (omega arith) (omega arith)
            (look-Found end m profit h f) in
        let later : (end == 0) ≡ false = ground arith in (b, rw (later, p, q, px, qy) r, g)

    -- The whole loop: its first round passes over the start.
    search_all-Found :
        (n : ℕ)
        → n ≡ length params.amounts
        → 0 < n
        → (m : Option ℕ) × (profit : ℤ) × (search_ends n params
              (value_at params.amounts 0)
              (start_value params)
              threshold
              0
              (record { max_end = none; max_profit = pos 0 })
            ≡ ok (record { max_end = m; max_profit = profit }))
          × Found params (length params.amounts) m profit
    unfolding search_ends
    search_all-Found zero s h = absurd (omega arith)
    search_all-Found (suc k) s h =
        let (best, r, f) =
          search_ends-Found k 1 none (pos 0) (omega arith) (omega arith)
            (λ e p lt. absurd (omega arith)) in
        (best.max_end, best.max_profit, r, f)

    -- How the call returns from the search.
    answer-IsChoice :
        (m : Option ℕ) (profit : ℤ)
        → Found params (length params.amounts) m profit
        → IsChoice params (answer m profit)
    answer-IsChoice none profit f = (refl, f)
    answer-IsChoice (some c) profit f = (c, refl, f.0, f.1, f.2, f.3, f.4, f.5)

    -- With a price and a gas cost for every amount, a first price that is not nil and basis points
    -- for the minimal profit that are not nil, the call does not panic. A path that it returns runs from 0 to an end that reaches the minimal profit, and
    -- comes with that end's profit; the end is 2 if 2 reaches it, and else the first that does. If
    -- no end does, there is no path and the profit is 0.
    pub calculate_multi_hop_arbitrage-IsChoice :
        (start_price bps : ℤ)
        → params.min_profit_bps ≡ some bps
        → 0 < length params.amounts
        → get_elem? params.prices 0 ≡ some (some start_price)
        → (r : Option (List ℕ) × ℤ) × (calculate_multi_hop_arbitrage params ≡ ok r)
          × IsChoice params r
    unfolding calculate_multi_hop_arbitrage
    calculate_multi_hop_arbitrage-IsChoice start_price bps given h e =
        let (x, p, px) = get_elem?-value_at params.amounts 0 h in
        let (y, q, qy) = get_elem?-value_at params.prices 0 (omega arith) in
        let same : y ≡ some start_price = cc in
        let first : start_price ≡ value_at params.prices 0 = sym (ap clone_int same) ∙ qy in
        let (m, profit, r, f) = search_all-Found (length params.amounts) refl h in
        let some_amount : (length params.amounts == 0) ≡ false = ground arith in
        let some_price : (length params.prices == 0) ≡ false = ground arith in
        (
          answer m profit,
          rw
              (
                some_amount,
                some_price,
                p,
                e,
                px,
                first,
                deref-clone_int params.min_profit_bps bps given,
                r,
              )
              (answer_lem m profit),
          answer-IsChoice m profit f,
        )
