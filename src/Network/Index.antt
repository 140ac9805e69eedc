-- ===== src/Network/Index.antt =====
-- mempool/network/indexer.go: MempoolIndex, a map of 256 locked shards. An operation holds the lock
-- of its shard from its first to its last access, so a history is a list of whole operations.
-- xxhash.Sum64 is a parameter; `zero` is the zero time.
pub mod Oldest
pub mod Shards
pub mod Sound
pub mod Lookup
use profit_monopoly.Prelude.{
  Bool, List, Option, [], true, false, if◌then◌else◌, erase, length, lookup, leb, ltb, none, some,
  ℕ, ◌%◌, ◌+◌, ◌-◌, ◌==◌, ◌^◌, ◌∷◌, suc, zero,
}
use profit_monopoly.Int.{ltb_ℤ, pos, ℤ, ◌+ℤ◌}

-- What the index reads of a types.Transaction.
pub record Transaction : Type 0 where
  pub hash : ℕ
  pub is_dynamic_fee : Bool
  pub gas_tip_cap : ℤ
  pub gas_fee_cap : ℤ
  pub gas_price : ℤ
  pub nonce : ℕ

pub record TxEntry : Type 0 where
  pub tx : Transaction
  pub timestamp : ℕ
  pub gas_price : ℤ
  pub nonce : ℕ

pub record Stats : Type 0 where
  pub insertions : ℕ
  pub evictions : ℕ
  pub lookups : ℕ
  pub collisions : ℕ

abbrev pub TxShard : Type 0
TxShard = List (ℕ × TxEntry)

pub record MempoolIndex : Type 0 where
  pub shards : ℕ → TxShard
  pub stats : Stats

abbrev pub num_shards : ℕ
num_shards = 256

abbrev pub max_txs_per_shard : ℕ
max_txs_per_shard = 10000

-- MaxTxAge, in seconds.
abbrev pub max_tx_age : ℕ
max_tx_age = 1800

-- Add(1) of an atomic.Uint64.
abbrev pub increment : ℕ → ℕ
increment n = (n + 1) % 2 ^ 64

abbrev pub set_shard : ℕ → TxShard → (ℕ → TxShard) → ℕ → TxShard
set_shard i s shards j = if j == i then s else shards j

-- NewMempoolIndex
unfoldable pub new_mempool_index : MempoolIndex
new_mempool_index = record {
  shards = λ _. [];
  stats = record { insertions = 0; evictions = 0; lookups = 0; collisions = 0 };
}

-- getEffectiveGasPrice
unfoldable pub get_effective_gas_price : Transaction → ℤ
get_effective_gas_price tx =
    if tx.is_dynamic_fee
    then pos 0 +ℤ (if ltb_ℤ tx.gas_fee_cap tx.gas_tip_cap then tx.gas_fee_cap else tx.gas_tip_cap)
    else tx.gas_price

unfoldable pub entry_of : ℕ → Transaction → TxEntry
unfolding get_effective_gas_price
entry_of now tx = record {
  tx = tx;
  timestamp = now;
  gas_price = get_effective_gas_price tx;
  nonce = tx.nonce;
}

-- `oldestTime.IsZero() || entry.Timestamp.Before(oldestTime)`
unfoldable pub older : ℕ × ℕ → ℕ → TxEntry → ℕ × ℕ
older (oldest_hash, oldest_time) hash entry =
    if oldest_time == 0
    then (hash, entry.timestamp)
    else if ltb entry.timestamp oldest_time
    then (hash, entry.timestamp)
    else (oldest_hash, oldest_time)

unfoldable pub oldest_from : ℕ × ℕ → TxShard → ℕ × ℕ
unfolding older
oldest_from best [] = best
oldest_from best ((hash, entry) ∷ s) = oldest_from (older best hash entry) s

-- `if !oldestTime.IsZero()`
unfoldable pub evict : ℕ × ℕ → TxShard → Stats → TxShard × Stats
evict (oldest_hash, oldest_time) s stats =
    if oldest_time == 0
    then (s, stats)
    else (erase oldest_hash s, record stats { evictions = increment stats.evictions })

-- evictOldest
unfoldable pub evict_oldest : TxShard → Stats → TxShard × Stats
unfolding oldest_from evict
evict_oldest s stats = evict (oldest_from (0, 0) s) s stats

-- The loop of cleanup over one shard; `now.Sub(t)` is negative for a later t.
unfoldable pub sweep : ℕ → TxShard → Stats → TxShard × Stats
sweep now [] stats = ([], stats)
sweep now ((hash, entry) ∷ s) stats =
    let (kept, after) = sweep now s stats in
    if ltb max_tx_age (now - entry.timestamp)
    then (kept, record after { evictions = increment after.evictions })
    else ((hash, entry) ∷ kept, after)

-- A tick of cleanup, over the first n shards; `now i` is the time read for shard i.
unfoldable pub cleanup_shards : (ℕ → ℕ) → ℕ → MempoolIndex → MempoolIndex
unfolding sweep
cleanup_shards now zero m = m
cleanup_shards now (suc n) m =
    let before = cleanup_shards now n m in
    let (kept, stats) = sweep (now n) (before.shards n) before.stats in
    record { shards = set_shard n kept before.shards; stats = stats }

unfoldable pub cleanup_tick : (ℕ → ℕ) → MempoolIndex → MempoolIndex
unfolding cleanup_shards
cleanup_tick now m = cleanup_shards now num_shards m

module _ (sum64 : ℕ → ℕ) where
  -- getShard
  unfoldable pub get_shard : ℕ → ℕ
  get_shard hash = sum64 hash % num_shards

  -- The part of Insert for a hash that is new.
  unfoldable pub insert_new : ℕ → Transaction → MempoolIndex → MempoolIndex
  unfolding get_shard entry_of evict_oldest
  insert_new now tx m =
      let i = get_shard tx.hash in
      let (room, stats) =
        if leb max_txs_per_shard (length (m.shards i))
        then evict_oldest (m.shards i) m.stats
        else (m.shards i, m.stats) in
      record {
        shards = set_shard i ((tx.hash, entry_of now tx) ∷ room) m.shards;
        stats = record stats { insertions = increment stats.insertions };
      }

  -- Insert
  unfoldable pub insert : ℕ → Transaction → MempoolIndex → Bool × MempoolIndex
  unfolding insert_new get_shard
  insert now tx m = elim (lookup tx.hash (m.shards (get_shard tx.hash))) [
    | some _ ↦
        (false, record m { stats = record m.stats { collisions = increment m.stats.collisions } })
    | none ↦ (true, insert_new now tx m)
  ]

  -- Get
  unfoldable pub get : ℕ → MempoolIndex → Option Transaction × MempoolIndex
  unfolding get_shard
  get hash m = elim (lookup hash (m.shards (get_shard hash))) [
    | some entry ↦
        (some entry.tx, record m { stats = record m.stats { lookups = increment m.stats.lookups } })
    | none ↦ (none, m)
  ]

  -- Remove
  unfoldable pub remove : ℕ → MempoolIndex → Bool × MempoolIndex
  unfolding get_shard
  remove hash m =
      let i = get_shard hash in
      elim (lookup hash (m.shards i)) [
        | some _ ↦ (
          true,
          record {
            shards = set_shard i (erase hash (m.shards i)) m.shards;
            stats = record m.stats { evictions = increment m.stats.evictions };
          },
        )
        | none ↦ (false, m)
      ]

-- The operations that change an index; `now` is what time.Now answers.
pub data Operation : Type 0 where
  inserts : ℕ → Transaction → Operation
  gets removes : ℕ → Operation
  cleans : (ℕ → ℕ) → Operation

module _ (sum64 : ℕ → ℕ) where
  unfoldable pub operate : Operation → MempoolIndex → MempoolIndex
  unfolding insert get remove cleanup_tick
  operate (inserts now tx) m = (insert sum64 now tx m).1
  operate (gets hash) m = (get sum64 hash m).1
  operate (removes hash) m = (remove sum64 hash m).1
  operate (cleans now) m = cleanup_tick now m

  unfoldable pub run_operations : List Operation → MempoolIndex → MempoolIndex
  unfolding operate
  run_operations [] m = m
  run_operations (o ∷ os) m = run_operations os (operate o m)
