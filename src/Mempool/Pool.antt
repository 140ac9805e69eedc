-- ===== src/Mempool/Pool.antt =====
-- mempool/mmap_pool.go: MMapPool, a transaction pool in a memory-mapped file. The file is modelled
-- as its slots of 512 bytes behind the two counters of the metadata; opening, mapping, locking and
-- closing it are left to the system. go-ethereum's transactions are a parameter.
pub mod Slots
pub mod Lookup
pub mod Reuse
use profit_monopoly.Prelude.{
  Bool, List, Option, Run, [], false, guard, if◌then◌else◌, leb, length, ltb, none, ok, or_err,
  replicate, some, suc, true, zero, ℕ, ◌%◌, ◌&&◌, ◌+◌, ◌-◌, ◌==◌, ◌>>=◌, ◌>>◌, ◌^◌, ◌∷◌,
}

abbrev pub tx_entry_size : ℕ
tx_entry_size = 512

abbrev pub max_transactions : ℕ
max_transactions = 100000

-- tx.Hash(), tx.MarshalBinary() (`none` is an error) and UnmarshalBinary of go-ethereum.
pub record Codec (Tx : Type 0) : Type 0 where
  pub hash : Tx → ℕ
  pub marshal : Tx → Option (List ℕ)
  pub unmarshal : List ℕ → Option Tx

-- The map `indices` is an association list, looked up from its head.
pub record MmapPool : Type 0 where
  pub slots : ℕ → List ℕ
  pub count : ℕ
  pub next_free : ℕ
  pub indices : List (ℕ × ℕ)

pub data PoolError : Type 0 where
  full marshal_failed too_large : PoolError

unfoldable pub index_of : ℕ → List (ℕ × ℕ) → Option ℕ
index_of h [] = none
index_of h ((k, i) ∷ m) = if k == h then some i else index_of h m

unfoldable pub delete_index : ℕ → List (ℕ × ℕ) → List (ℕ × ℕ)
delete_index h [] = []
delete_index h ((k, i) ∷ m) = let rest = delete_index h m in if k == h then rest else (k, i) ∷ rest

unfoldable pub update : (ℕ → List ℕ) → ℕ → List ℕ → ℕ → List ℕ
update slots i bytes j = if j == i then bytes else slots j

-- `copy(slot[:len(bytes)], bytes)`
unfoldable pub overwrite : List ℕ → List ℕ → List ℕ
overwrite [] old = old
overwrite (b ∷ bytes) [] = b ∷ bytes
overwrite (b ∷ bytes) (o ∷ old) = b ∷ overwrite bytes old

-- The inner loop of findNextFree: every byte is 0.
unfoldable pub is_empty : List ℕ → Bool
is_empty [] = true
is_empty (b ∷ bytes) = b == 0 && is_empty bytes

-- The outer loop of findNextFree, with the rounds that are left.
unfoldable pub find_from : ℕ → ℕ → (ℕ → List ℕ) → ℕ
find_from zero i slots = 0
find_from (suc left) i slots =
    let rest = find_from left (i + 1) slots in if is_empty (slots i) then i else rest

-- findNextFree; 0 also when no slot is empty.
unfoldable pub find_next_free : (ℕ → List ℕ) → ℕ
find_next_free slots = find_from max_transactions 0 slots

-- The part of Add behind its checks, for the serialized transaction.
unfoldable pub store_bytes : ℕ → List ℕ → MmapPool → MmapPool
store_bytes h bytes p =
    let slots = update p.slots p.next_free (overwrite bytes (p.slots p.next_free)) in
    record {
      slots = slots;
      count = p.count + 1;
      next_free = find_next_free slots;
      indices = (h, p.next_free) ∷ p.indices;
    }

-- Add
unfoldable pub add : {Tx : Type 0} → Codec Tx → Tx → MmapPool → Run PoolError MmapPool
add codec tx p = do
  guard (ltb p.count max_transactions) full
  bytes ← or_err (codec.marshal tx) marshal_failed
  guard (leb (length bytes) tx_entry_size) too_large
  ok (store_bytes (codec.hash tx) bytes p)

-- Get; `none` for the false result.
unfoldable pub get : {Tx : Type 0} → Codec Tx → ℕ → MmapPool → Option Tx
get codec h p = elim (index_of h p.indices) [ none ↦ none | some i ↦ codec.unmarshal (p.slots i) ]

-- What Remove writes into a slot.
unfoldable pub zero_slot : List ℕ
zero_slot = replicate tx_entry_size 0

-- Remove; `count` is a uint32.
unfoldable pub remove : ℕ → MmapPool → MmapPool × Bool
remove h p = elim (index_of h p.indices) [
  | none ↦ (p, false)
  | some i ↦ (
    record p {
      slots = update p.slots i zero_slot;
      count = (p.count + 2 ^ 32 - 1) % 2 ^ 32;
      indices = delete_index h p.indices;
    },
    true,
  )
]

-- Stats
unfoldable pub stats : MmapPool → ℕ × ℕ
stats p = (p.count, max_transactions)
