-- ===== src/Mempool/Processing.antt =====
-- mempool/monitor.go: processBatch, processPendingTx and isRelevantTransaction.
use profit_monopoly.Prelude.{
  Bool, Bool-cases, List, Option, Run, [], arith, false, if◌then◌else◌, inl, inr, length, none, not,
  ok, panic, refl, some, true, ℕ, ◌&&◌, ◌+◌, ◌<◌, ◌>>=◌, ◌∷◌, ◌≡◌,
}
use profit_monopoly.Int.{ltb_ℤ, ℤ}
use profit_monopoly.Mempool.Breaker.{CircuitBreaker, is_healthy}
use profit_monopoly.Mempool.Monitor.{Transaction}

-- The errors of processPendingTx; those of the limiter and of the indexer are theirs.
pub data ProcessError : Type 0 where
  breaker_tripped : ProcessError
  rate_limited : ProcessError
  index_failed : ProcessError

-- What the calls read: the configured maximal gas price, the LRU cache's Contains, the breaker, the
-- limiter's answer to Wait, and the indexer's to IndexTransaction (`none` is a nil pointer).
pub record Pipeline : Type 0 where
  pub max_gas_price : ℤ
  pub cache_contains : ℕ → Bool
  pub breaker : CircuitBreaker
  pub limiter_wait : Transaction → Bool
  pub tx_indexer : Option (Transaction → Bool)

-- The counters that the calls change: "processed" and errorCount.
pub record Counters : Type 0 where
  pub processed : ℕ
  pub errors : ℕ

-- isRelevantTransaction, for a transaction that is not nil.
unfoldable pub is_relevant_transaction : Pipeline → Transaction → Bool
is_relevant_transaction p tx =
    if ltb_ℤ p.max_gas_price tx.gas_price
    then false
    else if p.cache_contains tx.hash
    then false
    else true

-- The call of IndexTransaction, after `processed` was incremented.
unfoldable pub index_transaction :
    Pipeline → Transaction → Counters → Run ⊥ (Option ProcessError × Counters)
index_transaction p tx c = elim p.tx_indexer [
  | none ↦ panic
  | some accepts ↦ ok (
      if accepts tx
      then (none, record c { processed = c.processed + 1 })
      else (some index_failed, record c { processed = c.processed + 1; errors = c.errors + 1 }))
]

-- processPendingTx: the error that is returned, `none` for nil, and the counters.
unfoldable pub process_pending_tx :
    Pipeline → Transaction → Counters → Run ⊥ (Option ProcessError × Counters)
unfolding is_relevant_transaction index_transaction
process_pending_tx p tx c =
    if not (is_relevant_transaction p tx)
    then ok (none, c)
    else if not (is_healthy p.breaker)
    then ok (some breaker_tripped, c)
    else if not (p.limiter_wait tx)
    then ok (some rate_limited, c)
    else index_transaction p tx c

-- An error of processPendingTx is counted once more by processBatch.
abbrev pub count_error : Option ProcessError × Counters → Counters
count_error (none, c) = c
count_error (some e, c) = record c { errors = c.errors + 1 }

unfoldable pub process_each : Pipeline → List Transaction → Counters → Run ⊥ Counters
unfolding process_pending_tx
process_each p [] c = ok c
process_each p (tx ∷ txs) c = do r ← process_pending_tx p tx c; process_each p txs (count_error r)

-- processBatch: the whole batch is added to `processed` once more.
unfoldable pub process_batch : Pipeline → List Transaction → Counters → Run ⊥ Counters
unfolding process_each
process_batch p [] c = ok c
process_batch p (tx ∷ txs) c = do
  c' ← process_each p (tx ∷ txs) c
  ok (record c' { processed = c'.processed + length (tx ∷ txs) })

-- A transaction that passes the filter, the breaker and the limiter.
abbrev pub is_admitted : Pipeline → Transaction → Bool
is_admitted p tx = is_relevant_transaction p tx && is_healthy p.breaker && p.limiter_wait tx

-- How many transactions of a batch reach the indexer.
abbrev pub admitted : Pipeline → List Transaction → ℕ
admitted p [] = 0
admitted p (tx ∷ txs) = (if is_admitted p tx then 1 else 0) + admitted p txs

-- A transaction that is stopped before the indexer changes no counter but the errors.
process_stopped :
    (p : Pipeline) (tx : Transaction) (c : Counters)
    → is_admitted p tx ≡ false
    → (r : Option ProcessError × Counters) × (process_pending_tx p tx c ≡ ok r)
      × ((count_error r).processed ≡ c.processed)
unfolding process_pending_tx
process_stopped p tx c a = elim (Bool-cases (is_relevant_transaction p tx)) [
  | inr f ↦ ((none, c), rw f refl, refl)
  | inl t ↦ elim (Bool-cases (is_healthy p.breaker)) [
    | inr f ↦ ((some breaker_tripped, c), rw (t, f) refl, refl)
    | inl h ↦ ((some rate_limited, c), ground arith, refl)
  ]
]

process_admitted :
    (p : Pipeline) (tx : Transaction) (c : Counters)
    → is_admitted p tx ≡ true
    → process_pending_tx p tx c ≡ index_transaction p tx c
unfolding process_pending_tx
process_admitted p tx c a = ground arith

indexed :
    (p : Pipeline) (accepts : Transaction → Bool) (tx : Transaction) (c : Counters)
    → p.tx_indexer ≡ some accepts
    → (r : Option ProcessError × Counters) × (index_transaction p tx c ≡ ok r)
      × ((count_error r).processed ≡ c.processed + 1)
unfolding index_transaction
indexed p accepts tx c e = elim (Bool-cases (accepts tx)) [
  | inl t ↦ ((none, record c { processed = c.processed + 1 }), rw (e, t) refl, refl)
  | inr f ↦ (
    (some index_failed, record c { processed = c.processed + 1; errors = c.errors + 1 }),
    rw (e, f) refl,
    refl,
  )
]

process_each_counts :
    (p : Pipeline) (accepts : Transaction → Bool) (txs : List Transaction) (c : Counters)
    → p.tx_indexer ≡ some accepts
    → (c' : Counters) × (process_each p txs c ≡ ok c')
      × (c'.processed ≡ c.processed + admitted p txs)
unfolding process_each
process_each_counts p accepts [] c e = (c, refl, omega arith)
process_each_counts p accepts (tx ∷ txs) c e = elim (Bool-cases (is_admitted p tx)) [
  | inl a ↦
      let (r, q, n) = indexed p accepts tx c e in
      let (c', q', n') = process_each_counts p accepts txs (count_error r) e in
      (c', rw (process_admitted p tx c a, q) q', rw a (omega (arith, n, n')))
  | inr a ↦
      let (r, q, n) = process_stopped p tx c a in
      let (c', q', n') = process_each_counts p accepts txs (count_error r) e in
      (c', rw q q', rw a (omega (arith, n, n')))
]

unindexed :
    (p : Pipeline) (tx : Transaction) (c : Counters)
    → p.tx_indexer ≡ none
    → index_transaction p tx c ≡ panic
unfolding index_transaction
unindexed p tx c e = rw e refl

process_each_no_indexer :
    (p : Pipeline) (txs : List Transaction) (c : Counters)
    → p.tx_indexer ≡ none
    → 0 < admitted p txs
    → process_each p txs c ≡ panic
unfolding process_each
process_each_no_indexer p [] c e h = absurd (omega arith)
process_each_no_indexer p (tx ∷ txs) c e h = elim (Bool-cases (is_admitted p tx)) [
  | inl a ↦ rw (process_admitted p tx c a, unindexed p tx c e) refl
  | inr a ↦
      let (r, q, n) = process_stopped p tx c a in
      rw q (process_each_no_indexer p txs (count_error r) e (ground arith))
]

-- With an indexer that is there, processBatch counts as processed the transactions that pass the
-- filter, the breaker and the limiter, and then the whole batch again.
pub process_batch_counts :
    (p : Pipeline) (accepts : Transaction → Bool) (txs : List Transaction) (c : Counters)
    → p.tx_indexer ≡ some accepts
    → (c' : Counters) × (process_batch p txs c ≡ ok c')
      × (c'.processed ≡ c.processed + admitted p txs + length txs)
unfolding process_batch
process_batch_counts p accepts [] c e = (c, refl, omega arith)
process_batch_counts p accepts (tx ∷ txs) c e =
    let (c', r, n) = process_each_counts p accepts (tx ∷ txs) c e in
    (record c' { processed = c'.processed + length (tx ∷ txs) }, rw r refl, omega (arith, n))

-- NewMempoolMonitor sets no indexer: a batch with a transaction that passes the filter and the
-- limiter under a healthy breaker ends in a nil dereference.
pub process_batch_no_indexer :
    (p : Pipeline) (txs : List Transaction) (c : Counters)
    → p.tx_indexer ≡ none
    → 0 < admitted p txs
    → process_batch p txs c ≡ panic
unfolding process_batch
process_batch_no_indexer p [] c e h = absurd (omega arith)
process_batch_no_indexer p (tx ∷ txs) c e h = rw (process_each_no_indexer p (tx ∷ txs) c e h) refl
