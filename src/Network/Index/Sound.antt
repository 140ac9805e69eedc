-- ===== src/Network/Index/Sound.antt =====
-- mempool/network/indexer.go: every operation keeps an index sound.
use profit_monopoly.Prelude.{
  All, All-erase, All-weaken, Bool-cases, IsMap, List, Option-cases, [], arith, erase, erase-IsMap,
  false, inl, inr, leb, leb→le, length, length-erase, lookup, lookup-erase-none, none, refl, suc,
  zero, ap, ℕ, ◌<◌, ◌≡◌, ◌≤◌, ◌∷◌,
}
use profit_monopoly.Network.Index.{
  MempoolIndex, Operation, Stats, Transaction, TxShard, cleanup_shards, cleanup_tick, cleans,
  entry_of, evict_oldest, get, get_shard, gets, increment, insert, insert_new, inserts,
  max_txs_per_shard, new_mempool_index, num_shards, operate, remove, removes, run_operations,
  set_shard, sweep,
}
use profit_monopoly.Network.Index.Oldest.{evict_oldest_earliest}
use profit_monopoly.Network.Index.Shards.{Balanced, Filed, IsShard, IsSound, put-IsSound, sweep_lem}

module _ (sum64 : ℕ → ℕ) where
  get_shard-lt : (hash : ℕ) → get_shard sum64 hash < num_shards
  unfolding get_shard
  get_shard-lt hash = omega arith

  -- What evictOldest leaves of a full shard.
  evict_oldest_full :
      (i : ℕ) (s : TxShard) (stats : Stats)
      → IsShard sum64 i s
      → max_txs_per_shard ≤ length s
      → let (room, after) = evict_oldest s stats in
        IsMap room
        × All (Filed sum64 i) room
        × (length room < max_txs_per_shard)
        × Balanced (s, stats) (room, after)
        × ((hash : ℕ) → lookup hash s ≡ none → lookup hash room ≡ none)
  evict_oldest_full i [] stats shard full = absurd (omega arith)
  evict_oldest_full i ((k, e) ∷ s) stats (map, all, size) full =
      let (hash, time, evicted, (entry, found, at), _) =
        evict_oldest_earliest k e s stats
          (All-weaken (Filed sum64 i) _ ((k, e) ∷ s) (λ _ _ f. f.0) all) map in
      let one_less = length-erase hash entry ((k, e) ∷ s) map found in
      rw evicted (
        erase-IsMap hash ((k, e) ∷ s) map,
        All-erase (Filed sum64 i) hash ((k, e) ∷ s) all,
        omega (arith, one_less),
        (omega (arith, one_less), refl),
        λ h absent. lookup-erase-none h hash ((k, e) ∷ s) absent,
      )

  remove-IsSound :
      (hash : ℕ) (m : MempoolIndex) → IsSound sum64 m → IsSound sum64 (remove sum64 hash m).1
  unfolding remove
  remove-IsSound hash m (sound, counted) =
      let i = get_shard sum64 hash in
      let (map, all, size) = sound i in
      elim (Option-cases (lookup hash (m.shards i))) [
        | inl n ↦ rw (remove, n) (sound, counted)
        | inr (entry, found) ↦
            let one_less = length-erase hash entry (m.shards i) map found in
            rw (remove, found)
              (put-IsSound sum64 m i 0 (erase hash (m.shards i))
                (record m.stats { evictions = increment m.stats.evictions }) (sound, counted)
                (get_shard-lt hash)
                (
                  erase-IsMap hash (m.shards i) map,
                  All-erase (Filed sum64 i) hash (m.shards i) all,
                  omega (arith, one_less),
                )
                (omega (arith, one_less)) (omega arith))
      ]

  cleanup_shards-IsSound :
      (now : ℕ → ℕ) (n : ℕ) (m : MempoolIndex)
      → n ≤ num_shards
      → IsSound sum64 m
      → IsSound sum64 (cleanup_shards now n m)
  unfolding cleanup_shards
  cleanup_shards-IsSound now zero m h sound = sound
  cleanup_shards-IsSound now (suc n) m h sound =
      let before = cleanup_shards now n m in
      let (was_sound, counted) = cleanup_shards-IsSound now n m (omega arith) sound in
      let (map, all, size) = was_sound n in
      let (kept_map, kept_all, shorter, (balanced, inserted), _) =
        sweep_lem sum64 n (now n) (before.shards n) before.stats map all in
      put-IsSound sum64 before n 0 (sweep (now n) (before.shards n) before.stats).0
        (sweep (now n) (before.shards n) before.stats).1 (was_sound, counted) (omega arith)
        (kept_map, kept_all, omega arith) (omega arith) (omega arith)

  -- A shard with room for the new hash.
  insert_into :
      (now : ℕ) (tx : Transaction) (m : MempoolIndex) (room : TxShard) (stats : Stats)
      → 0 < now
      → IsSound sum64 m
      → IsMap room
      → All (Filed sum64 (get_shard sum64 tx.hash)) room
      → length room < max_txs_per_shard
      → Balanced (m.shards (get_shard sum64 tx.hash), m.stats) (room, stats)
      → lookup tx.hash room ≡ none
      → IsSound sum64 (record {
        shards = set_shard (get_shard sum64 tx.hash) ((tx.hash, entry_of now tx) ∷ room) m.shards;
        stats = record stats { insertions = increment stats.insertions };
      })
  unfolding entry_of
  insert_into now tx m room stats timed sound map all size (balanced, inserted) fresh =
      put-IsSound sum64 m (get_shard sum64 tx.hash) 1 ((tx.hash, entry_of now tx) ∷ room)
        (record stats { insertions = increment stats.insertions }) sound (get_shard-lt tx.hash)
        ((fresh, map), ((omega arith, refl, refl), all), omega arith) (omega arith)
        (ap increment inserted)

  insert_new-IsSound :
      (now : ℕ) (tx : Transaction) (m : MempoolIndex)
      → 0 < now
      → IsSound sum64 m
      → lookup tx.hash (m.shards (get_shard sum64 tx.hash)) ≡ none
      → IsSound sum64 (insert_new sum64 now tx m)
  unfolding insert_new
  insert_new-IsSound now tx m timed (sound, counted) fresh =
      let i = get_shard sum64 tx.hash in
      let (map, all, size) = sound i in
      elim (Bool-cases (leb max_txs_per_shard (length (m.shards i)))) [
        | inl full ↦
            let (room_map, room_all, room_size, balanced, absent) =
              evict_oldest_full i (m.shards i) m.stats (map, all, size) (leb→le _ _ full) in
            rw full (
              insert_into now tx m (evict_oldest (m.shards i) m.stats).0
                (evict_oldest (m.shards i) m.stats).1 timed (sound, counted) room_map room_all
                room_size balanced (absent tx.hash fresh))
        | inr free ↦ rw free (
            insert_into now tx m (m.shards i) m.stats timed (sound, counted) map all
              (below (length (m.shards i)) free) (refl, refl) fresh)
      ]
    where
      below : (n : ℕ) → leb max_txs_per_shard n ≡ false → n < max_txs_per_shard
      below n h = ground arith

  insert-IsSound :
      (now : ℕ) (tx : Transaction) (m : MempoolIndex)
      → 0 < now
      → IsSound sum64 m
      → IsSound sum64 (insert sum64 now tx m).1
  unfolding insert
  insert-IsSound now tx m timed sound =
      elim (Option-cases (lookup tx.hash (m.shards (get_shard sum64 tx.hash)))) [
        | inl fresh ↦ rw (insert, fresh) (insert_new-IsSound now tx m timed sound fresh)
        | inr (entry, found) ↦ rw (insert, found) sound
      ]

  get-IsSound : (hash : ℕ) (m : MempoolIndex) → IsSound sum64 m → IsSound sum64 (get sum64 hash m).1
  unfolding get
  get-IsSound hash m sound = elim (Option-cases (lookup hash (m.shards (get_shard sum64 hash)))) [
    | inl absent ↦ rw (get, absent) sound
    | inr (entry, found) ↦ rw (get, found) sound
  ]

-- No insertion happens at the zero time.
abbrev pub Timed : List Operation → Type 0
Timed [] = Unit
Timed (inserts now tx ∷ os) = (0 < now) × Timed os
Timed (gets _ ∷ os) = Timed os
Timed (removes _ ∷ os) = Timed os
Timed (cleans _ ∷ os) = Timed os

module _ (sum64 : ℕ → ℕ) where
  run_operations-IsSound_from :
      (os : List Operation) (m : MempoolIndex)
      → Timed os
      → IsSound sum64 m
      → IsSound sum64 (run_operations sum64 os m)
  unfolding run_operations operate cleanup_tick
  run_operations-IsSound_from [] m timed sound = sound
  run_operations-IsSound_from (inserts now tx ∷ os) m (positive, timed) sound =
      run_operations-IsSound_from os (insert sum64 now tx m).1 timed
        (insert-IsSound sum64 now tx m positive sound)
  run_operations-IsSound_from (gets hash ∷ os) m timed sound =
      run_operations-IsSound_from os (get sum64 hash m).1 timed (get-IsSound sum64 hash m sound)
  run_operations-IsSound_from (removes hash ∷ os) m timed sound =
      run_operations-IsSound_from os (remove sum64 hash m).1 timed
        (remove-IsSound sum64 hash m sound)
  run_operations-IsSound_from (cleans now ∷ os) m timed sound =
      run_operations-IsSound_from os (cleanup_tick now m) timed
        (cleanup_shards-IsSound sum64 now num_shards m (omega arith) sound)

  -- Any insertions, lookups, removals and cleanups on a new index, none of the insertions at the
  -- zero time, leave an index that is sound: each hash stands once, in the shard that its checksum
  -- selects and with its own transaction, no shard holds more than 10000 entries, and the counters
  -- of insertions and evictions account for the entries of all shards, modulo 2 ^ 64.
  pub run_operations-IsSound :
      (os : List Operation) → Timed os → IsSound sum64 (run_operations sum64 os new_mempool_index)
  unfolding new_mempool_index
  run_operations-IsSound os timed =
      run_operations-IsSound_from os new_mempool_index timed ((λ i. (tt, tt, omega arith)), refl)
