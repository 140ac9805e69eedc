-- ===== src/Network/Indexer/Events.antt =====
-- mempool/network/indexer.go: how a history of a MempoolIndexer goes.
use profit_monopoly.Prelude.{
  Bool-cases, List, [], arith, inl, inr, length, length-append, length-map, length-perm, ltb, ok,
  panic, refl, true, tests, ◌++◌, false, suc, ◌+◌, ◌==◌, ◌∷◌, ◌∙◌, ◌≡◌, ◌≤◌, ◌⊎◌, ap, ℕ, sym,
}
use profit_monopoly.Int.{euclid, pos}
use profit_monopoly.Network.Index.{Transaction}
use profit_monopoly.Network.Indexer.{
  Event, index, MempoolIndexer, Queue, add_transaction, adds, handle, new_mempool_indexer,
  over_limit, receives, run_history, ticks, update_average_gas_price, update_room, total_gas_price,
  low_word,
}
use profit_monopoly.Network.Indexer.Consistent.{IsConsistent, index-IsConsistent, new-IsConsistent}
use profit_monopoly.Network.Indexer.Prune.{prune_lem}

module _ (h : Queue) where
  recv-IsConsistent :
      (m : MempoolIndexer) (waiting : List Transaction)
      → length waiting ≤ update_room
      → IsConsistent h m
      → IsConsistent h (record m { update_chan = waiting })
  recv-IsConsistent m waiting room c = record {
    same = c.same;
    priced = c.priced;
    heap = c.heap;
    hash_keys = c.hash_keys;
    hashed = c.hashed;
    senders = c.senders;
    nonces = c.nonces;
    room = room;
  }

  average-IsConsistent :
      (m : MempoolIndexer) (avg : ℕ)
      → IsConsistent h m
      → IsConsistent h (record m { avg_gas_price = avg })
  average-IsConsistent m avg c = record {
    same = c.same;
    priced = c.priced;
    heap = c.heap;
    hash_keys = c.hash_keys;
    hashed = c.hashed;
    senders = c.senders;
    nonces = c.nonces;
    room = c.room;
  }

  -- As many transactions wait in the queue as stand in the map.
  pub length-queue :
      (m : MempoolIndexer) → IsConsistent h m → length m.tx_queue ≡ length m.tx_by_hash
  length-queue m c =
      sym (length-map (λ e. e.transaction) m.tx_queue)
      ∙ (length-perm c.same ∙ length-map (λ p. p.1) m.tx_by_hash)

  add_transaction-IsConsistent :
      (tx : Transaction) (m : MempoolIndexer)
      → IsConsistent h m
      → IsConsistent h (add_transaction tx m)
  unfolding add_transaction
  add_transaction-IsConsistent tx m c = elim (Bool-cases (ltb (length m.update_chan) update_room)) [
    | inl t ↦
        rw (add_transaction, t)
          (recv-IsConsistent m (m.update_chan ++ tx ∷ [])
            (omega (tests, length-append m.update_chan (tx ∷ []))) c)
    | inr n ↦ rw (add_transaction, n) c
  ]

  -- The average is over as many transactions as the queue has, so that it divides by zero never.
  update_average_gas_price_ok :
      (m : MempoolIndexer)
      → IsConsistent h m
      → (avg : ℕ) × (update_average_gas_price m ≡ ok (record m { avg_gas_price = avg }))
  unfolding update_average_gas_price
  update_average_gas_price_ok m c = elim (Bool-cases (length m.tx_queue == 0)) [
    | inl t ↦ (0, rw t refl)
    | inr n ↦
        let some_tx : (length m.tx_by_hash + 0 == 0) ≡ false = ground (arith, length-queue m c) in
        (
          low_word (euclid (total_gas_price m.tx_by_hash) (pos (length m.tx_by_hash))),
          rw (n, some_tx) refl,
        )
  ]

  receive_cases :
      (now : ℕ) (m : MempoolIndexer) (chan : List Transaction)
      → m.update_chan ≡ chan
      → IsConsistent h m
      → (after : MempoolIndexer) × (handle h (receives now) m ≡ ok after) × IsConsistent h after
  unfolding handle
  receive_cases now m [] e c = (m, simp (handle, e) refl, c)
  receive_cases now m (tx ∷ waiting) e c =
      let room = c.room in
      let fewer : suc (length waiting) ≡ length m.update_chan = rw e refl in
      let taken = record m { update_chan = waiting } in
      (
        index h now tx taken,
        rw (handle, e) refl,
        index-IsConsistent h now tx taken
            (recv-IsConsistent m waiting (omega (arith, fewer, room)) c),
      )

  tick_cases :
      (m : MempoolIndexer)
      → IsConsistent h m
      → ((after : MempoolIndexer) × (handle h ticks m ≡ ok after) × IsConsistent h after)
        ⊎ ((over_limit m ≡ true) × (handle h ticks m ≡ panic))
  unfolding handle over_limit
  tick_cases m c =
      let (avg, e) = update_average_gas_price_ok m c in
      let after = record m { avg_gas_price = avg } in
      elim (Bool-cases (over_limit m)) [
        | inl t ↦ inr (t, rw (handle, e, prune_lem h after, t) refl)
        | inr n ↦
            inl (after, rw (handle, e, prune_lem h after, n) refl, average-IsConsistent m avg c)
      ]

  -- Either a history runs to its end, or one of its ticks finds too many transactions.
  Ends : List Event → MempoolIndexer → Type 0
  Ends es m =
      ((after : MempoolIndexer) × (run_history h es m ≡ ok after) × IsConsistent h after)
      ⊎ ((before : List Event) × (later : List Event) × (full : MempoolIndexer) × (es
            ≡ before ++ ticks ∷ later)
          × (run_history h before m ≡ ok full)
          × (over_limit full ≡ true)
          × (run_history h es m ≡ panic))

  continue :
      (e : Event) (es : List Event) (m after : MempoolIndexer)
      → handle h e m ≡ ok after
      → Ends es after
      → Ends (e ∷ es) m
  unfolding Ends run_history
  continue e es m after step (inl (last, run, c)) = inl (last, rw step run, c)
  continue e es m after step (inr (before, later, full, split, run, over, ends)) =
      inr (e ∷ before, later, full, ap (λ l. e ∷ l) split, rw step run, over, rw step ends)

  run_history-Ends : (es : List Event) (m : MempoolIndexer) → IsConsistent h m → Ends es m
  unfolding Ends run_history
  run_history-Ends [] m c = inl (m, refl, c)
  run_history-Ends (adds tx ∷ es) m c =
      continue (adds tx) es m (add_transaction tx m) refl
        (run_history-Ends es _ (add_transaction-IsConsistent tx m c))
  run_history-Ends (receives now ∷ es) m c =
      let (after, step, kept) = receive_cases now m m.update_chan refl c in
      continue (receives now) es m after step (run_history-Ends es after kept)
  run_history-Ends (ticks ∷ es) m c = elim (tick_cases m c) [
    | inl (after, step, kept) ↦ continue ticks es m after step (run_history-Ends es after kept)
    | inr (over, stops) ↦ inr ([], es, m, refl, refl, over, rw stops refl)
  ]

  -- Any history of a new indexer runs to its end and leaves it consistent, that is, with the queue a
  -- heap of the transactions of the map by hash, each of them under its hash, and those of the map
  -- by nonce under their sender and nonce; or it has a tick that finds more transactions than the
  -- limit, which ends it in a panic.
  pub run_history-IsConsistent :
      (max_txs : ℕ) (es : List Event)
      → let m = new_mempool_indexer max_txs in
        ((after : MempoolIndexer) × (run_history h es m ≡ ok after) × IsConsistent h after)
        ⊎ ((before : List Event) × (later : List Event) × (full : MempoolIndexer) × (es
              ≡ before ++ ticks ∷ later)
            × (run_history h before m ≡ ok full)
            × (over_limit full ≡ true)
            × (run_history h es m ≡ panic))
  unfolding Ends
  run_history-IsConsistent max_txs es =
      run_history-Ends es (new_mempool_indexer max_txs) (new-IsConsistent h max_txs)
