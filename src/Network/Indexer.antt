-- ===== src/Network/Indexer.antt =====
-- mempool/network/indexer.go: MempoolIndexer, a priority queue of transactions by gas price with
-- maps by hash and by sender and nonce, fed through a channel by one goroutine. A method holds the
-- mutex from its first to its last access, so a history is a list of whole steps. The sift-up of
-- heap.Push and the sift-down of heap.Pop, types.Sender and Counter.Add of Prometheus are
-- parameters: Queue collects them with what their documents promise.
pub mod Consistent
pub mod Prune
pub mod Highest
pub mod Events
mod Tests
use profit_monopoly.Prelude.{
  Bool, List, Option, [], ◌++◌, ◌∷◌, erase, get_elem?, if◌then◌else◌, length, lookup, ltb, map,
  none, some, true, zero, suc, ℕ, ◌%◌, ◌+◌, ◌-◌, ◌==◌, ◌^◌, Each, Perm, ◌≡◌, Run, ok, panic, ◌>>=◌,
}
use profit_monopoly.Int.{div, leb_ℤ, ltb_ℤ, neg_part, negsuc, pos, pos_part, ℤ, ◌+ℤ◌, ◌≤ℤ◌}
use profit_monopoly.Network.Index.{Transaction, get_effective_gas_price}

pub record TxPriority : Type 0 where
  pub transaction : Transaction
  pub gas_price : ℤ
  pub nonce : ℕ
  pub time_added : ℕ

abbrev pub TxPriorityQueue : Type 0
TxPriorityQueue = List TxPriority

-- What the packages that the indexer calls do, and what they promise.
pub record Queue : Type 1 where
  -- heap.Push after its Push, and heap.Pop before its Pop
  pub sift_up : TxPriorityQueue → TxPriorityQueue
  pub sift_down : TxPriorityQueue → TxPriorityQueue
  pub IsHeap : TxPriorityQueue → Type 0
  -- types.Sender, `none` for its error
  pub sender : Transaction → Option ℕ
  -- Counter.Add, `none` for its panic
  pub counter_add : ℤ → ℕ → Option ℕ
  pub up-perm : (q : TxPriorityQueue) → Perm (sift_up q) q
  pub nil-IsHeap : IsHeap []
  pub up-IsHeap : (q : TxPriorityQueue) (e : TxPriority) → IsHeap q → IsHeap (sift_up (q ++ e ∷ []))
  pub root_first :
      (e : TxPriority) (q : TxPriorityQueue)
      → IsHeap (e ∷ q)
      → Each (λ t. t.gas_price ≤ℤ e.gas_price) (e ∷ q)
  pub down-perm : (q : TxPriorityQueue) → Perm (sift_down q) q
  pub add_negative : (n c : ℕ) → counter_add (negsuc n) c ≡ none

pub record MempoolIndexer : Type 0 where
  pub tx_queue : TxPriorityQueue
  pub tx_by_hash : List (ℕ × Transaction)
  pub tx_by_nonce : List (ℕ × List (ℕ × Transaction))
  pub max_txs : ℕ
  pub update_chan : List Transaction
  pub tx_count : ℕ
  pub queue_depth : ℕ
  pub avg_gas_price : ℕ

-- `make(chan *types.Transaction, 1000)`
abbrev pub update_room : ℕ
update_room = 1000

-- NewMempoolIndexer
unfoldable pub new_mempool_indexer : ℕ → MempoolIndexer
new_mempool_indexer max_txs = record {
  tx_queue = [];
  tx_by_hash = [];
  tx_by_nonce = [];
  max_txs = max_txs;
  update_chan = [];
  tx_count = 0;
  queue_depth = 0;
  avg_gas_price = 0;
}

-- AddTransaction, which drops a transaction that the channel has no room for.
unfoldable pub add_transaction : Transaction → MempoolIndexer → MempoolIndexer
add_transaction tx m =
    if ltb (length m.update_chan) update_room
    then record m { update_chan = m.update_chan ++ tx ∷ [] }
    else m

-- Push, the method of the queue
unfoldable pub priority_of : ℕ → Transaction → TxPriority
unfolding get_effective_gas_price
priority_of now tx = record {
  transaction = tx;
  gas_price = get_effective_gas_price tx;
  nonce = tx.nonce;
  time_added = now;
}

-- Pop, the method of the queue: it takes the last element off.
unfoldable pub pop : TxPriorityQueue → Option (Transaction × TxPriorityQueue)
pop [] = none
pop (e ∷ q) = elim (pop q) [
  | none ↦ some (e.transaction, [])
  | some (tx, rest) ↦ some (tx, e ∷ rest)
]

-- `m.txByNonce[from]`, nil or empty for a sender that has no entry
unfoldable pub nonces_of : ℕ → List (ℕ × List (ℕ × Transaction)) → List (ℕ × Transaction)
nonces_of from m = elim (lookup from m) [ none ↦ [] | some by_nonce ↦ by_nonce ]

-- `m.txByNonce[from][nonce] = tx`
unfoldable pub put_nonce :
    ℕ → Transaction → List (ℕ × List (ℕ × Transaction)) → List (ℕ × List (ℕ × Transaction))
unfolding nonces_of
put_nonce from tx m = (from, (tx.nonce, tx) ∷ erase tx.nonce (nonces_of from m)) ∷ erase from m

-- The removal of prune: the sender goes with its last nonce.
unfoldable pub drop_nonce :
    ℕ → ℕ → List (ℕ × List (ℕ × Transaction)) → List (ℕ × List (ℕ × Transaction))
unfolding nonces_of
drop_nonce from nonce m = elim (erase nonce (nonces_of from m)) [
  | [] ↦ erase from m
  | e ∷ left ↦ (from, e ∷ left) ∷ erase from m
]

-- The sum of updateAverageGasPrice
unfoldable pub total_gas_price : List (ℕ × Transaction) → ℤ
unfolding get_effective_gas_price
total_gas_price [] = pos 0
total_gas_price ((_, tx) ∷ m) = get_effective_gas_price tx +ℤ total_gas_price m

-- Uint64 of a big.Int: the low 64 bits of the magnitude
abbrev pub low_word : ℤ → ℕ
low_word a = (pos_part a + neg_part a) % 2 ^ 64

-- updateAverageGasPrice
unfoldable pub update_average_gas_price : MempoolIndexer → Run (Unit {0}) MempoolIndexer
unfolding total_gas_price
update_average_gas_price m =
    if length m.tx_queue == 0 then ok (record m { avg_gas_price = 0 }) else do
      avg ← div (total_gas_price m.tx_by_hash) (pos (length m.tx_by_hash))
      ok (record m { avg_gas_price = low_word avg })

-- `len(m.txByHash) > int(m.maxTxs)`: the conversion makes a limit of 2^63 or more negative.
unfoldable pub over_limit : MempoolIndexer → Bool
over_limit m = if ltb m.max_txs (2 ^ 63) then ltb m.max_txs (length m.tx_by_hash) else true

-- GetHighestGasPriceTx
unfoldable pub get_highest_gas_price_tx : MempoolIndexer → Option Transaction
get_highest_gas_price_tx m = elim m.tx_queue [ [] ↦ none | e ∷ _ ↦ some e.transaction ]

-- GetTxByHash
unfoldable pub get_tx_by_hash : ℕ → MempoolIndexer → Option Transaction
get_tx_by_hash hash m = lookup hash m.tx_by_hash

-- GetTxsByNonce
unfoldable pub get_txs_by_nonce : ℕ → ℕ → MempoolIndexer → List Transaction
get_txs_by_nonce address nonce m = elim (lookup address m.tx_by_nonce) [
  | none ↦ []
  | some by_nonce ↦ elim (lookup nonce by_nonce) [ none ↦ [] | some tx ↦ tx ∷ [] ]
]

-- What happens to an indexer: a call of AddTransaction, and the two cases of the loop of run.
pub data Event : Type 0 where
  adds : Transaction → Event
  receives : ℕ → Event
  ticks : Event

module _ (h : Queue) where
  -- The part of index after the sender is known.
  unfoldable pub index_nonce : Transaction → MempoolIndexer → MempoolIndexer
  unfolding put_nonce
  index_nonce tx m = elim (h.sender tx) [
    | none ↦ m
    | some from ↦ record m {
      tx_by_nonce = put_nonce from tx m.tx_by_nonce;
      tx_count = suc m.tx_count;
      queue_depth = length m.tx_queue;
    }
  ]

  unfoldable pub index : ℕ → Transaction → MempoolIndexer → MempoolIndexer
  unfolding priority_of index_nonce
  index now tx m = elim (lookup tx.hash m.tx_by_hash) [
    | some _ ↦ m
    | none ↦ index_nonce tx (record m {
      tx_queue = h.sift_up (m.tx_queue ++ priority_of now tx ∷ []);
      tx_by_hash = (tx.hash, tx) ∷ m.tx_by_hash;
    })
  ]

  -- heap.Pop; its swap on an empty queue is out of range.
  unfoldable pub heap_pop : TxPriorityQueue → Run (Unit {0}) (Transaction × TxPriorityQueue)
  unfolding pop
  heap_pop q = elim (pop (h.sift_down q)) [ none ↦ panic | some popped ↦ ok popped ]

  unfoldable pub unindex_nonce : Transaction → MempoolIndexer → MempoolIndexer
  unfolding drop_nonce
  unindex_nonce tx m = elim (h.sender tx) [
    | none ↦ m
    | some from ↦ record m { tx_by_nonce = drop_nonce from tx.nonce m.tx_by_nonce }
  ]

  -- The body of the loop of prune
  unfoldable pub prune_one : MempoolIndexer → Run (Unit {0}) MempoolIndexer
  unfolding heap_pop unindex_nonce
  prune_one m = do
    (tx, rest) ← heap_pop m.tx_queue
    let without =
        unindex_nonce tx (record m { tx_queue = rest; tx_by_hash = erase tx.hash m.tx_by_hash })
    elim (h.counter_add (negsuc 0) without.tx_count) [
      | none ↦ panic
      | some count ↦ ok (record without { tx_count = count; queue_depth = length rest })
    ]

  -- The loop of prune. Each round takes one element off the queue, so that the length of the queue
  -- is enough fuel: the round on fuel zero meets an empty queue.
  unfoldable pub prune_loop : ℕ → MempoolIndexer → Run (Unit {0}) MempoolIndexer
  unfolding over_limit prune_one
  prune_loop zero m = if over_limit m then prune_one m else ok m
  prune_loop (suc n) m = if over_limit m then prune_one m >>= prune_loop n else ok m

  unfoldable pub prune : MempoolIndexer → Run (Unit {0}) MempoolIndexer
  unfolding prune_loop
  prune m = prune_loop (length m.tx_queue) m

  -- A step of run, on a channel with something in it, or on a tick.
  unfoldable pub handle : Event → MempoolIndexer → Run (Unit {0}) MempoolIndexer
  unfolding index prune update_average_gas_price add_transaction
  handle (adds tx) m = ok (add_transaction tx m)
  handle (receives now) m = elim m.update_chan [
    | [] ↦ ok m
    | tx ∷ waiting ↦ ok (index now tx (record m { update_chan = waiting }))
  ]
  handle ticks m = update_average_gas_price m >>= prune

  unfoldable pub run_history : List Event → MempoolIndexer → Run (Unit {0}) MempoolIndexer
  unfolding handle
  run_history [] m = ok m
  run_history (e ∷ es) m = handle e m >>= run_history es
