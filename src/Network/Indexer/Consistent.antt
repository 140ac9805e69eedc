-- ===== src/Network/Indexer/Consistent.antt =====
-- mempool/network/indexer.go: the queue and the two maps of a MempoolIndexer agree.
use mathlib.Core.List.{perm_append_singleton}
use mathlib.Core.List.Perm
use profit_monopoly.Prelude.{
  All, All-erase, All-lookup, All-weaken, Each, Each-perm, IsMap, List, Option-cases, Perm, [],
  erase-IsMap, inl, inr, length, lookup, lookup-erase_self, lookup_head, lookup_tail, map,
  ne_of_lookup, none, refl, some, arith, ◌++◌, ◌∷◌, ◌≡◌, ◌≤◌, ◌∙◌, ℕ,
}
use profit_monopoly.Network.Index.{Transaction, get_effective_gas_price}
use profit_monopoly.Network.Indexer.{
  MempoolIndexer, Queue, TxPriority, TxPriorityQueue, index, index_nonce, new_mempool_indexer,
  nonces_of, priority_of, put_nonce, update_room,
}

abbrev pub transactions : List (ℕ × Transaction) → List Transaction
transactions = map λ p. p.1

abbrev pub Priced : TxPriority → Type 0
Priced e = e.gas_price ≡ get_effective_gas_price e.transaction

module _ (h : Queue) where
  abbrev pub Signed : List (ℕ × Transaction) → ℕ → ℕ → Transaction → Type 0
  Signed by_hash from nonce tx =
      (tx.nonce ≡ nonce) × (h.sender tx ≡ some from) × (lookup tx.hash by_hash ≡ some tx)

  abbrev pub ByNonce : List (ℕ × Transaction) → ℕ → List (ℕ × Transaction) → Type 0
  ByNonce by_hash from by_nonce = IsMap by_nonce × All (Signed by_hash from) by_nonce

  -- The queue holds the transactions of the map by hash, as a heap, and the map by nonce holds some
  -- of them under their sender and nonce.
  pub record IsConsistent (m : MempoolIndexer) : Type 0 where
    pub same : Perm (map (λ e. e.transaction) m.tx_queue) (transactions m.tx_by_hash)
    pub priced : Each Priced m.tx_queue
    pub heap : h.IsHeap m.tx_queue
    pub hash_keys : IsMap m.tx_by_hash
    pub hashed : All (λ k tx. tx.hash ≡ k) m.tx_by_hash
    pub senders : IsMap m.tx_by_nonce
    pub nonces : All (ByNonce m.tx_by_hash) m.tx_by_nonce
    pub room : length m.update_chan ≤ update_room

  pub new-IsConsistent : (max_txs : ℕ) → IsConsistent (new_mempool_indexer max_txs)
  unfolding new_mempool_indexer
  new-IsConsistent max_txs = record {
    same = Perm.nil;
    priced = tt;
    heap = h.nil-IsHeap;
    hash_keys = tt;
    hashed = tt;
    senders = tt;
    nonces = tt;
    room = omega arith;
  }

  nonces_of_lem :
      (by_hash : List (ℕ × Transaction)) (from : ℕ) (m : List (ℕ × List (ℕ × Transaction)))
      → All (ByNonce by_hash) m
      → ByNonce by_hash from (nonces_of from m)
  unfolding nonces_of
  nonces_of_lem by_hash from m all = elim (Option-cases (lookup from m)) [
    | inl n ↦ rw (nonces_of, n) (tt, tt)
    | inr (by_nonce, e) ↦ rw (nonces_of, e) (All-lookup (ByNonce by_hash) from by_nonce m all e)
  ]

  -- A transaction that is new to the map by hash takes nothing from the others.
  Signed-put :
      (tx : Transaction) (by_hash : List (ℕ × Transaction))
      → lookup tx.hash by_hash ≡ none
      → (from nonce : ℕ) (other : Transaction) → Signed by_hash from nonce other
      → Signed ((tx.hash, tx) ∷ by_hash) from nonce other
  Signed-put tx by_hash new from nonce other (n, signed, found) =
      let passed =
        lookup_tail other.hash tx.hash tx by_hash
          (ne_of_lookup other.hash tx.hash other by_hash found new) in
      (n, signed, passed ∙ found)

  put_nonce_lem :
      (tx : Transaction) (from : ℕ) (by_hash : List (ℕ × Transaction))
      (m : List (ℕ × List (ℕ × Transaction)))
      → h.sender tx ≡ some from
      → lookup tx.hash by_hash ≡ some tx
      → IsMap m
      → All (ByNonce by_hash) m
      → IsMap (put_nonce from tx m) × All (ByNonce by_hash) (put_nonce from tx m)
  unfolding put_nonce
  put_nonce_lem tx from by_hash m signed found keys all =
      let (inner, each) = nonces_of_lem by_hash from m all in
      let old = nonces_of from m in
      (
        (lookup-erase_self from m, erase-IsMap from m keys),
        (
          (
            (lookup-erase_self tx.nonce old, erase-IsMap tx.nonce old inner),
            ((refl, signed, found), All-erase (Signed by_hash from) tx.nonce old each),
          ),
          All-erase (ByNonce by_hash) from m all,
        ),
      )

  index_nonce-IsConsistent :
      (tx : Transaction) (m : MempoolIndexer)
      → lookup tx.hash m.tx_by_hash ≡ some tx
      → IsConsistent m
      → IsConsistent (index_nonce h tx m)
  unfolding index_nonce
  index_nonce-IsConsistent tx m found c = elim (Option-cases (h.sender tx)) [
    | inl n ↦ rw (index_nonce, n) c
    | inr (from, signed) ↦
        let (keys, all) =
          put_nonce_lem tx from m.tx_by_hash m.tx_by_nonce signed found c.senders c.nonces in
        rw (index_nonce, signed)
          (record {
            same = c.same;
            priced = c.priced;
            heap = c.heap;
            hash_keys = c.hash_keys;
            hashed = c.hashed;
            senders = keys;
            nonces = all;
            room = c.room;
          })
  ]

  push-perm : (e : TxPriority) (q : TxPriorityQueue) → Perm (e ∷ q) (h.sift_up (q ++ e ∷ []))
  push-perm e q = Perm.symm (Perm.trans (h.up-perm (q ++ e ∷ [])) (perm_append_singleton e q))

  index_new-IsConsistent :
      (now : ℕ) (tx : Transaction) (m : MempoolIndexer)
      → lookup tx.hash m.tx_by_hash ≡ none
      → IsConsistent m
      → IsConsistent (record m {
        tx_queue = h.sift_up (m.tx_queue ++ priority_of now tx ∷ []);
        tx_by_hash = (tx.hash, tx) ∷ m.tx_by_hash;
      })
  unfolding priority_of
  index_new-IsConsistent now tx m new c =
      let e = priority_of now tx in
      let push = push-perm e m.tx_queue in
      let put = Signed-put tx m.tx_by_hash new in
      record {
        same = Perm.trans (Perm.map (λ e. e.transaction) (Perm.symm push)) (Perm.cons tx c.same);
        priced = Each-perm Priced (λ _. hlevel) push (refl, c.priced);
        heap = h.up-IsHeap m.tx_queue e c.heap;
        hash_keys = (new, c.hash_keys);
        hashed = (refl, c.hashed);
        senders = c.senders;
        nonces =
            All-weaken (ByNonce m.tx_by_hash) (ByNonce ((tx.hash, tx) ∷ m.tx_by_hash)) m.tx_by_nonce
              (λ from by_nonce (keys, all).
                (keys, All-weaken (Signed m.tx_by_hash from) _ by_nonce (put from) all))
              c.nonces;
        room = c.room;
      }

  pub index-IsConsistent :
      (now : ℕ) (tx : Transaction) (m : MempoolIndexer)
      → IsConsistent m
      → IsConsistent (index h now tx m)
  unfolding index
  index-IsConsistent now tx m c = elim (Option-cases (lookup tx.hash m.tx_by_hash)) [
    | inl new ↦
        rw (index, new)
          (index_nonce-IsConsistent tx _ (lookup_head tx.hash tx m.tx_by_hash)
            (index_new-IsConsistent now tx m new c))
    | inr (_, e) ↦ rw (index, e) c
  ]
