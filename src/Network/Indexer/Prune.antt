-- ===== src/Network/Indexer/Prune.antt =====
-- mempool/network/indexer.go: where prune ends.
use profit_monopoly.Prelude.{
  Option-cases, if◌then◌else◌, inl, inr, length, ok, panic, refl, zero, suc, ℕ, ◌≡◌,
}
use profit_monopoly.Network.Indexer.{
  MempoolIndexer, Queue, heap_pop, over_limit, pop, prune, prune_loop, prune_one,
}

module _ (h : Queue) where
  prune_one_lem : (m : MempoolIndexer) → prune_one h m ≡ panic
  unfolding prune_one
  prune_one_lem m = elim (Option-cases (pop (h.sift_down m.tx_queue))) [
    | inl n ↦ rw (prune_one, heap_pop, n) refl
    | inr ((tx, rest), e) ↦ rw (prune_one, heap_pop, e, h.add_negative) refl
  ]

  prune_loop_lem :
      (n : ℕ) (m : MempoolIndexer) → prune_loop h n m ≡ (if over_limit m then panic else ok m)
  unfolding prune_loop
  prune_loop_lem zero m = rw prune_one_lem refl
  prune_loop_lem (suc n) m = rw prune_one_lem refl

  -- The method prune leaves an indexer as it is while its transactions are within the limit, and
  -- otherwise always panics, since it lowers a counter of Prometheus, which panics on that.
  pub prune_lem : (m : MempoolIndexer) → prune h m ≡ (if over_limit m then panic else ok m)
  unfolding prune
  prune_lem m = (prune_loop_lem (length m.tx_queue) m)
