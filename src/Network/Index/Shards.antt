-- ===== src/Network/Index/Shards.antt =====
-- mempool/network/indexer.go: what every history of operations leaves of the shards.
use profit_monopoly.Prelude.{
  All, Bool-cases, IsMap, [], arith, false, inl, inr, length, lookup, ltb, none, refl, some, suc,
  sym, zero, ap, ◌∙◌, ℕ, ◌%◌, ◌+◌, ◌-◌, ◌<◌, ◌==◌, ◌^◌, ◌≡◌, ◌≤◌, ◌∷◌, ==-ne, ==-eq,
}
use profit_monopoly.Network.Index.{
  MempoolIndex, Stats, TxEntry, TxShard, get_shard, increment, max_tx_age, max_txs_per_shard,
  num_shards, set_shard, sweep,
}

abbrev pub entries : ℕ → (ℕ → TxShard) → ℕ
entries zero shards = 0
entries (suc n) shards = entries n shards + length (shards n)

entries-set_ge :
    (n i : ℕ) (s : TxShard) (shards : ℕ → TxShard)
    → n ≤ i
    → entries n (set_shard i s shards) ≡ entries n shards
entries-set_ge zero i s shards h = refl
entries-set_ge (suc n) i s shards h =
    rw (==-ne n i (λ e. absurd (omega arith)))
      (ap (λ t. t + length (shards n)) (entries-set_ge n i s shards (omega arith)))

entries-set :
    (n i : ℕ) (s : TxShard) (shards : ℕ → TxShard)
    → i < n
    → entries n (set_shard i s shards) + length (shards i) ≡ entries n shards + length s
entries-set zero i s shards h = absurd (omega arith)
entries-set (suc n) i s shards h = elim (Bool-cases (n == i)) [
  | inl t ↦
      let put : set_shard i s shards n ≡ s = rw t refl in
      let here = ==-eq n i t in
      omega (
        arith,
        ap length put,
        ap (λ j. length (shards j)) here,
        entries-set_ge n i s shards (omega arith),
      )
  | inr f ↦
      let kept : set_shard i s shards n ≡ shards n = rw f refl in
      omega (arith, ap length kept, entries-set n i s shards (below n i h f))
]
  where
    below : (n i : ℕ) → i < suc n → (n == i) ≡ false → i < n
    below n i h f = ground arith

-- The entries kept and the evictions counted make up what there was.
abbrev pub Balanced : TxShard × Stats → TxShard × Stats → Type 0
Balanced (s, stats) (after, counted) =
    ((counted.evictions + length after) % 2 ^ 64 ≡ (stats.evictions + length s) % 2 ^ 64)
    × (counted.insertions ≡ stats.insertions)

pub wrapped_removal :
    (e n e' n' : ℕ)
    → (e + n) % 2 ^ 64 ≡ (e' + n') % 2 ^ 64
    → (increment e + n) % 2 ^ 64 ≡ (e' + suc n') % 2 ^ 64
wrapped_removal e n e' n' h = omega arith

wrapped_suc :
    (e n e' n' : ℕ)
    → (e + n) % 2 ^ 64 ≡ (e' + n') % 2 ^ 64
    → (e + suc n) % 2 ^ 64 ≡ (e' + suc n') % 2 ^ 64
wrapped_suc e n e' n' h = omega arith

accounts :
    (ev ev' n n' l l' ins d : ℕ)
    → (ev' + l') % 2 ^ 64 ≡ (ev + l + d) % 2 ^ 64
    → (ev + n) % 2 ^ 64 ≡ ins
    → n' + l ≡ n + l'
    → (ev' + n') % 2 ^ 64 ≡ (ins + d) % 2 ^ 64
accounts ev ev' n n' l l' ins d balance counted moved = omega arith

missing :
    (k hash : ℕ) (entry : TxEntry) (s : TxShard)
    → lookup k ((hash, entry) ∷ s) ≡ none
    → lookup k s ≡ none
missing k hash entry s h = elim (Bool-cases (k == hash)) [
  | inl t ↦ let found : lookup k ((hash, entry) ∷ s) ≡ some entry = rw t refl in absurd (cc)
  | inr n ↦ let passed : lookup k ((hash, entry) ∷ s) ≡ lookup k s = rw n refl in sym passed ∙ h
]

still_missing :
    (k hash : ℕ) (entry : TxEntry) (s kept : TxShard)
    → lookup k ((hash, entry) ∷ s) ≡ none
    → lookup k kept ≡ none
    → lookup k ((hash, entry) ∷ kept) ≡ none
still_missing k hash entry s kept h rest = elim (Bool-cases (k == hash)) [
  | inl t ↦ let found : lookup k ((hash, entry) ∷ s) ≡ some entry = rw t refl in absurd (cc)
  | inr n ↦ rw n rest
]

module _ (sum64 : ℕ → ℕ) where
  -- What is true of the entries of shard i.
  abbrev pub Filed : ℕ → ℕ → TxEntry → Type 0
  Filed i hash entry = (1 ≤ entry.timestamp) × (entry.tx.hash ≡ hash) × (get_shard sum64 hash ≡ i)

  abbrev pub IsShard : ℕ → TxShard → Type 0
  IsShard i s = IsMap s × All (Filed i) s × (length s ≤ max_txs_per_shard)

  -- A sound index: no hash stands twice, each in its shard with its own transaction, no shard is
  -- above its capacity, and the insertions are the evictions and the entries together, up to the
  -- wrap of the counters.
  abbrev pub IsSound : MempoolIndex → Type 0
  IsSound m =
      ((i : ℕ) → IsShard i (m.shards i))
      × ((m.stats.evictions + entries num_shards m.shards) % 2 ^ 64 ≡ m.stats.insertions)

  pub sweep_lem :
      (i now : ℕ) (s : TxShard) (stats : Stats)
      → IsMap s
      → All (Filed i) s
      → let (kept, after) = sweep now s stats in
        IsMap kept
        × All (Filed i) kept
        × (length kept ≤ length s)
        × Balanced (s, stats) (kept, after)
        × ((hash : ℕ) → lookup hash s ≡ none → lookup hash kept ≡ none)
  unfolding sweep
  sweep_lem i now [] stats map all = (tt, tt, omega arith, (refl, refl), λ hash e. refl)
  sweep_lem i now ((hash, entry) ∷ s) stats (fresh, map) (filed, all) =
      let (kept_map, kept_all, shorter, (balanced, inserted), absent) =
        sweep_lem i now s stats map all in
      elim (Bool-cases (ltb max_tx_age (now - entry.timestamp))) [
        | inl t ↦ rw t (
          kept_map,
          kept_all,
          omega arith,
          (wrapped_removal _ _ _ _ balanced, inserted),
          λ k e. absent k (missing k hash entry s e),
        )
        | inr n ↦ rw n (
          (absent hash fresh, kept_map),
          (filed, kept_all),
          omega arith,
          (wrapped_suc _ _ _ _ balanced, inserted),
          λ k e. still_missing k hash entry s _ e (absent k (missing k hash entry s e)),
        )
      ]

  -- A shard may be exchanged for one that accounts for d more insertions.
  pub put-IsSound :
      (m : MempoolIndex) (i d : ℕ) (s : TxShard) (stats : Stats)
      → IsSound m
      → i < num_shards
      → IsShard i s
      → (stats.evictions + length s) % 2 ^ 64
        ≡ (m.stats.evictions + length (m.shards i) + d) % 2 ^ 64
      → stats.insertions ≡ (m.stats.insertions + d) % 2 ^ 64
      → IsSound (record { shards = set_shard i s m.shards; stats = stats })
  put-IsSound m i d s stats (sound, counted) below shard balance inserted = (
    replaced,
    accounts _ _ _ _ _ _ _ d balance counted (entries-set num_shards i s m.shards below)
        ∙ sym inserted,
  )
    where
      replaced : (j : ℕ) → IsShard j (set_shard i s m.shards j)
      replaced j = elim (Bool-cases (j == i)) [
        | inl t ↦ rw (t, ==-eq j i t) shard
        | inr n ↦ rw n (sound j)
      ]
