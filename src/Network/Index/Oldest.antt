-- ===== src/Network/Index/Oldest.antt =====
-- mempool/network/indexer.go: which entry evictOldest removes from a shard.
use profit_monopoly.Prelude.{
  All, Bool-cases, IsMap, [], arith, erase, inl, inr, lookup, lookup_head, lookup_tail,
  ne_of_lookup, none, refl, some, sym, ap, ◌∙◌, ltb, false, ℕ, ◌<◌, ◌==◌, ◌≡◌, ◌≤◌, ◌⊎◌, ◌∷◌,
}
use profit_monopoly.Network.Index.{
  Stats, TxEntry, TxShard, evict, evict_oldest, increment, oldest_from, older,
}

-- No entry is older than t; with t = 1, none has the zero time.
abbrev pub NotBefore : ℕ → TxShard → Type 0
NotBefore t s = All (λ _ entry. t ≤ entry.timestamp) s

-- The entry stands in the shard under its hash.
abbrev pub Stands : ℕ → ℕ → TxShard → Type 0
Stands hash time s = (entry : TxEntry) × (lookup hash s ≡ some entry) × (entry.timestamp ≡ time)

behind-Stands :
    (hash time k : ℕ) (e : TxEntry) (s : TxShard)
    → lookup k s ≡ none
    → Stands hash time s
    → Stands hash time ((k, e) ∷ s)
behind-Stands hash time k e s fresh (entry, found, at) =
    (entry, lookup_tail hash k e s (ne_of_lookup hash k entry s found fresh) ∙ found, at)

-- An entry at the front or behind it.
found-Stands :
    {r u : ℕ} (k : ℕ) (e : TxEntry) (s : TxShard)
    → lookup k s ≡ none
    → ((r ≡ k) × (u ≡ e.timestamp)) ⊎ Stands r u s
    → Stands r u ((k, e) ∷ s)
found-Stands k e s fresh (inl (same, time)) =
    (e, ap (λ h. lookup h ((k, e) ∷ s)) same ∙ lookup_head k e s, sym time)
found-Stands {r} {u} k e s fresh (inr there) = behind-Stands r u k e s fresh there

older-cases :
    (h t k : ℕ) (e : TxEntry)
    → 0 < t
    → ((older (h, t) k e ≡ (k, e.timestamp)) × (e.timestamp ≤ t))
      ⊎ ((older (h, t) k e ≡ (h, t)) × (t ≤ e.timestamp))
unfolding older
older-cases h t k e positive = elim (Bool-cases (t == 0)) [
  | inl z ↦ absurd (ground arith)
  | inr z ↦ elim (Bool-cases (ltb e.timestamp t)) [
    | inl y ↦ inl (rw (z, y) refl, ground arith)
    | inr y ↦ inr (rw (z, y) refl, ground arith)
  ]
]

-- The loop keeps the oldest entry that it has met.
oldest_from_lem :
    (h t : ℕ) (s : TxShard)
    → 0 < t
    → NotBefore 1 s
    → IsMap s
    → (k : ℕ) × (u : ℕ) × (oldest_from (h, t) s ≡ (k, u))
      × (0 < u)
      × (u ≤ t)
      × NotBefore u s
      × (((k ≡ h) × (u ≡ t)) ⊎ Stands k u s)
unfolding oldest_from
oldest_from_lem h t [] positive timed map =
    (h, t, refl, positive, omega arith, tt, inl (refl, refl))
oldest_from_lem h t ((k, e) ∷ s) positive (at, timed) (fresh, map) =
    elim (older-cases h t k e positive) [
      | inl (step, le) ↦
          let (r, u, found, pos_u, below, not_before, from) =
            oldest_from_lem k e.timestamp s (omega arith) timed map in
          (
            r,
            u,
            rw step found,
            pos_u,
            omega arith,
            (below, not_before),
            inr (found-Stands k e s fresh from),
          )
      | inr (step, le) ↦
          let (r, u, found, pos_u, below, not_before, from) =
            oldest_from_lem h t s positive timed map in
          (r, u, rw step found, pos_u, below, (omega arith, not_before), kept from)
    ]
  where
    kept :
        {r u : ℕ}
        → ((r ≡ h) × (u ≡ t)) ⊎ Stands r u s
        → ((r ≡ h) × (u ≡ t)) ⊎ Stands r u ((k, e) ∷ s)
    kept (inl same) = inl same
    kept {r} {u} (inr there) = inr (behind-Stands r u k e s fresh there)

-- evictOldest removes from a shard with entries exactly one of them, with the earliest timestamp
-- of all, and counts the eviction, provided that no timestamp is the zero time.
pub evict_oldest_earliest :
    (k : ℕ) (e : TxEntry) (s : TxShard) (stats : Stats)
    → NotBefore 1 ((k, e) ∷ s)
    → IsMap ((k, e) ∷ s)
    → (hash : ℕ) × (time : ℕ) × (evict_oldest ((k, e) ∷ s) stats
        ≡ (erase hash ((k, e) ∷ s), record stats { evictions = increment stats.evictions }))
      × Stands hash time ((k, e) ∷ s)
      × NotBefore time ((k, e) ∷ s)
unfolding evict_oldest oldest_from older evict
evict_oldest_earliest k e s stats (at, timed) (fresh, map) =
    let (hash, time, found, positive, below, not_before, from) =
      oldest_from_lem k e.timestamp s at timed map in
    (
      hash,
      time,
      ap (λ b. evict b ((k, e) ∷ s) stats) found ∙ evicted hash time positive,
      found-Stands k e s fresh from,
      (below, not_before),
    )
  where
    evicted :
        (hash time : ℕ)
        → 0 < time
        → evict (hash, time) ((k, e) ∷ s) stats
          ≡ (erase hash ((k, e) ∷ s), record stats { evictions = increment stats.evictions })
    evicted hash time positive = let nonzero : (time == 0) ≡ false = ground arith in rw nonzero refl
