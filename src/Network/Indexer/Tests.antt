-- ===== src/Network/Indexer/Tests.antt =====
-- mempool/network/indexer.go: the theorems of MempoolIndexer on a small history.
use mathlib.Core.List.Perm
use profit_monopoly.Prelude.{
  Bool-cases, Each, List, Option, Perm, [], arith, false, if◌then◌else◌, inl, inr, leb, leb→le,
  none, ok, panic, refl, some, true, ◌++◌, ◌+◌, ◌∷◌, ◌≡◌, ◌⊎◌, ℕ,
}
use profit_monopoly.Int.{ℤ, leb_ℤ, negsuc, pos, ◌≤ℤ◌}
use profit_monopoly.Network.Index.{Transaction, get_effective_gas_price}
use profit_monopoly.Network.Indexer.{
  Event, MempoolIndexer, Queue, TxPriority, TxPriorityQueue, adds, get_highest_gas_price_tx,
  get_tx_by_hash, index, new_mempool_indexer, over_limit, receives, run_history, ticks,
}
use profit_monopoly.Network.Indexer.Consistent.{IsConsistent, index-IsConsistent, new-IsConsistent}
use profit_monopoly.Network.Indexer.Events.{run_history-IsConsistent}
use profit_monopoly.Network.Indexer.Highest.{get_highest_gas_price_tx_greatest}

-- A queue for the tests, which keeps an entry of the highest price in front.
abbrev put : TxPriority → TxPriorityQueue → TxPriorityQueue
put e [] = e ∷ []
put e (f ∷ q) = if leb_ℤ f.gas_price e.gas_price then e ∷ f ∷ q else f ∷ e ∷ q

abbrev lead : TxPriorityQueue → TxPriorityQueue
lead [] = []
lead (e ∷ q) = put e (lead q)

abbrev Leads : TxPriorityQueue → Type 0
Leads [] = Unit
Leads (e ∷ q) = Each (λ t. t.gas_price ≤ℤ e.gas_price) (e ∷ q)

put-perm : (e : TxPriority) (q : TxPriorityQueue) → Perm (put e q) (e ∷ q)
put-perm e [] = Perm.rfl
put-perm e (f ∷ q) = elim (Bool-cases (leb_ℤ f.gas_price e.gas_price)) [
  | inl t ↦ rw t Perm.rfl
  | inr n ↦ rw n (Perm.swap e f q)
]

lead-perm : (q : TxPriorityQueue) → Perm (lead q) q
lead-perm [] = Perm.nil
lead-perm (e ∷ q) = Perm.trans (put-perm e (lead q)) (Perm.cons e (lead-perm q))

Each-trans :
    (a b : ℤ) (q : TxPriorityQueue)
    → a ≤ℤ b
    → Each (λ t. t.gas_price ≤ℤ a) q
    → Each (λ t. t.gas_price ≤ℤ b) q
Each-trans a b [] le all = tt
Each-trans a b (t ∷ q) le (p, all) = (omega arith, Each-trans a b q le all)

put-Leads : (e : TxPriority) (q : TxPriorityQueue) → Leads q → Leads (put e q)
put-Leads e [] all = (omega arith, tt)
put-Leads e (f ∷ q) (self, all) = elim (Bool-cases (leb_ℤ f.gas_price e.gas_price)) [
  | inl t ↦
      let le : f.gas_price ≤ℤ e.gas_price = leb→le _ _ t in
      rw t (omega arith, (le, Each-trans f.gas_price e.gas_price q le all))
  | inr n ↦ rw n (self, (ground arith, all))
]

lead-Leads : (q : TxPriorityQueue) → Leads (lead q)
lead-Leads [] = tt
lead-Leads (e ∷ q) = put-Leads e (lead q) (lead-Leads q)

abbrev senders : Transaction → Option ℕ
senders tx = if leb 5 tx.nonce then none else some 77

abbrev counter : ℤ → ℕ → Option ℕ
counter (pos n) c = some (n + c)
counter (negsuc n) c = none

abbrev packages : Queue
packages = record {
  sift_up = lead;
  sift_down = λ q. q;
  IsHeap = Leads;
  sender = senders;
  counter_add = counter;
  up-perm = lead-perm;
  nil-IsHeap = tt;
  up-IsHeap = λ q e _. lead-Leads (q ++ e ∷ []);
  root_first = λ e q all. all;
  down-perm = λ q. Perm.rfl;
  add_negative = λ n c. refl;
}

abbrev transfer : ℕ → ℕ → Transaction
transfer hash price = record {
  hash = hash;
  is_dynamic_fee = false;
  gas_tip_cap = pos 0;
  gas_fee_cap = pos 0;
  gas_price = pos price;
  nonce = hash;
}

abbrev history : List Event
history =
    adds (transfer 1 30)
    ∷ adds (transfer 2 90)
    ∷ receives 4
    ∷ receives 5
    ∷ ticks
    ∷ adds (transfer 6 50)
    ∷ receives 8
    ∷ ticks
    ∷ []

abbrev two : MempoolIndexer
two = index packages 5 (transfer 2 90) (index packages 4 (transfer 1 30) (new_mempool_indexer 2))

two-IsConsistent : IsConsistent packages two
two-IsConsistent =
    index-IsConsistent packages 5 (transfer 2 90) _
      (index-IsConsistent packages 4 (transfer 1 30) _ (new-IsConsistent packages 2))

three_txs : run_history packages history (new_mempool_indexer 2) ≡ panic
unfolding run_history new_mempool_indexer
three_txs = refl

run_history-IsConsistent_example :
    let m = new_mempool_indexer 2 in
    ((after : MempoolIndexer) × (run_history packages history m ≡ ok after)
      × IsConsistent packages after)
    ⊎ ((before : List Event) × (later : List Event) × (full : MempoolIndexer) × (history
          ≡ before ++ ticks ∷ later)
        × (run_history packages before m ≡ ok full)
        × (over_limit full ≡ true)
        × (run_history packages history m ≡ panic))
run_history-IsConsistent_example = run_history-IsConsistent packages 2 history

get_highest_gas_price_tx_greatest_example :
    (top : Transaction) × (get_highest_gas_price_tx two ≡ some top)
    × (get_tx_by_hash top.hash two ≡ some top)
    × (get_effective_gas_price (transfer 1 30) ≤ℤ get_effective_gas_price top)
unfolding get_tx_by_hash index new_mempool_indexer
get_highest_gas_price_tx_greatest_example =
    get_highest_gas_price_tx_greatest packages two 1 (transfer 1 30) two-IsConsistent refl
