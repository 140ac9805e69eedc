-- ===== src/Network/Indexer/Highest.antt =====
-- mempool/network/indexer.go: what GetHighestGasPriceTx finds.
use native.Mathlib.Bridge.{le_prop}
use mathlib.Core.List.Perm
use profit_monopoly.Prelude.{
  All, All-weaken, Each, Each-perm, IsMap, List, Option, Perm, [], inl, inr, length-perm, lookup,
  lookup_tail, map, ne_of_lookup, none, refl, some, sym, arith, ◌∷◌, ◌≡◌, ◌∙◌, ℕ, ap, ◌==◌,
  Bool-cases, lookup_head,
}
use profit_monopoly.Int.{ℤ, ◌≤ℤ◌}
use profit_monopoly.Network.Index.{Transaction, get_effective_gas_price}
use profit_monopoly.Network.Indexer.{
  MempoolIndexer, Queue, TxPriorityQueue, get_highest_gas_price_tx, get_tx_by_hash,
}
use profit_monopoly.Network.Indexer.Consistent.{IsConsistent, Priced, transactions}

Each-lookup :
    (P : Transaction → Type 0) (hash : ℕ) (tx : Transaction) (m : List (ℕ × Transaction))
    → Each P (transactions m)
    → lookup hash m ≡ some tx
    → P tx
Each-lookup P hash tx [] all e = absurd (cc e)
Each-lookup P hash tx ((k, v) ∷ m) (p, all) e = elim (Bool-cases (hash == k)) [
  | inl t ↦
      let found : lookup hash ((k, v) ∷ m) ≡ some v = rw t refl in
      let same : v ≡ tx = cc in rw⁻¹ same p
  | inr n ↦
      let passed : lookup hash ((k, v) ∷ m) ≡ lookup hash m = rw n refl in
      Each-lookup P hash tx m all (sym passed ∙ e)
]

Each-transactions :
    (P : Transaction → Type 0) (m : List (ℕ × Transaction))
    → All (λ _ tx. P tx) m
    → Each P (transactions m)
Each-transactions P [] all = tt
Each-transactions P ((k, v) ∷ m) (p, all) = (p, Each-transactions P m all)

-- Every transaction of a map by hash is found under its hash.
lookup-All :
    (m : List (ℕ × Transaction))
    → IsMap m
    → All (λ k tx. tx.hash ≡ k) m
    → All (λ _ tx. lookup tx.hash m ≡ some tx) m
lookup-All [] keys hashed = tt
lookup-All ((k, v) ∷ m) (new, keys) (e, hashed) = (
  ap (λ i. lookup i ((k, v) ∷ m)) e ∙ lookup_head k v m,
  All-weaken _ _ m skip (lookup-All m keys hashed),
)
  where
    skip :
        (j : ℕ) (tx : Transaction)
        → lookup tx.hash m ≡ some tx
        → lookup tx.hash ((k, v) ∷ m) ≡ some tx
    skip j tx found = lookup_tail tx.hash k v m (ne_of_lookup tx.hash k tx m found new) ∙ found

-- The entries below a price are transactions below it.
below :
    (p : ℤ) (q : TxPriorityQueue)
    → Each Priced q
    → Each (λ t. t.gas_price ≤ℤ p) q
    → Each (λ tx. get_effective_gas_price tx ≤ℤ p) (map (λ e. e.transaction) q)
below p [] priced least = tt
below p (e ∷ q) (price, priced) (le, least) = (rw⁻¹ price le, below p q priced least)

module _ (h : Queue) where
  root_of :
      (q : TxPriorityQueue) (by_hash : List (ℕ × Transaction)) (hash : ℕ) (tx : Transaction)
      → Perm (map (λ e. e.transaction) q) (transactions by_hash)
      → Each Priced q
      → h.IsHeap q
      → All (λ _ tx. lookup tx.hash by_hash ≡ some tx) by_hash
      → lookup hash by_hash ≡ some tx
      → (top : Transaction) × (◌≡◌ {A = Option Transaction}
          (elim q [ [] ↦ none | e ∷ _ ↦ some e.transaction ])
          (some top))
        × (lookup top.hash by_hash ≡ some top)
        × (get_effective_gas_price tx ≤ℤ get_effective_gas_price top)
  root_of [] [] hash tx same priced heap all found = absurd (cc found)
  root_of [] (p ∷ m) hash tx same priced heap all found = absurd (omega (arith, length-perm same))
  root_of (e ∷ q) by_hash hash tx same (price, priced) heap all found =
      let least = below e.gas_price (e ∷ q) (price, priced) (h.root_first e q heap) in
      let le =
        Each-lookup (λ t. get_effective_gas_price t ≤ℤ e.gas_price) hash tx by_hash
          (Each-perm (λ t. get_effective_gas_price t ≤ℤ e.gas_price) (λ _. le_prop) same least)
          found in
      let filed =
        Each-perm (λ t. lookup t.hash by_hash ≡ some t) (λ _. hlevel) (Perm.symm same)
          (Each-transactions (λ t. lookup t.hash by_hash ≡ some t) by_hash all) in
      (e.transaction, refl, filed.0, rw⁻¹ price le)

  -- While any transaction is found under a hash, GetHighestGasPriceTx answers one that is found
  -- under its own hash too and whose effective gas price is at least that of the first.
  pub get_highest_gas_price_tx_greatest :
      (m : MempoolIndexer) (hash : ℕ) (tx : Transaction)
      → IsConsistent h m
      → get_tx_by_hash hash m ≡ some tx
      → (top : Transaction) × (get_highest_gas_price_tx m ≡ some top)
        × (get_tx_by_hash top.hash m ≡ some top)
        × (get_effective_gas_price tx ≤ℤ get_effective_gas_price top)
  unfolding get_highest_gas_price_tx get_tx_by_hash
  get_highest_gas_price_tx_greatest m hash tx c found =
      root_of m.tx_queue m.tx_by_hash hash tx c.same c.priced c.heap
        (lookup-All m.tx_by_hash c.hash_keys c.hashed) found
