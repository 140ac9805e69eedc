-- ===== src/Mempool/Monitor/Batches.antt =====
-- mempool/monitor.go: the batches that monitorLoop hands to processBatch.
use mathlib.Core.List.{append-nil, append_assoc}
use mathlib.Core.Path.{ap₂}
use profit_monopoly.Prelude.{
  Bool-cases, List, [], ap, arith, inl, inr, leb, length, length-append, ltb, refl, sym, ℕ, ◌++◌,
  ◌<◌, ◌∙◌, ◌∷◌, ◌≡◌, ◌≤◌,
}
use profit_monopoly.Mempool.Breaker.{CircuitBreakerConfig}
use profit_monopoly.Mempool.Monitor.{
  Event, LoopState, Phase, Transaction, add_to_batch, batch_size, beside, loop_step, run_loop,
  step_in, stream,
}

abbrev pub flat : List (List Transaction) → List Transaction
flat [] = []
flat (b ∷ bs) = b ++ flat bs

flat-append :
    (bs : List (List Transaction)) (b : List Transaction) → flat (bs ++ b ∷ []) ≡ flat bs ++ b
flat-append [] b = append-nil b
flat-append (x ∷ bs) b = ap (◌++◌ x) (flat-append bs b) ∙ sym (append_assoc x (flat bs) b)

-- The transactions that the node delivered.
abbrev pub deliveries : List Event → List Transaction
deliveries [] = []
deliveries (Event.fetched tx ∷ es) = tx ∷ deliveries es
deliveries (_ ∷ es) = deliveries es

-- Events that neither end nor interrupt a subscription.
abbrev pub IsCalm : List Event → Type 0
IsCalm [] = Unit
IsCalm (Event.done ∷ es) = ⊥
IsCalm (Event.subscription_error now ∷ es) = ⊥
IsCalm (_ ∷ es) = IsCalm es

-- Every batch handed over is within the size, and none is empty.
abbrev pub AllSized : List (List Transaction) → Type 0
AllSized [] = Unit
AllSized (b ∷ bs) = (0 < length b) × (length b ≤ batch_size) × AllSized bs

AllSized-append :
    (bs : List (List Transaction)) (b : List Transaction)
    → AllSized bs
    → 0 < length b
    → length b ≤ batch_size
    → AllSized (bs ++ b ∷ [])
AllSized-append [] b h p q = (p, q, tt)
AllSized-append (x ∷ bs) b h p q = (h.0, h.1, AllSized-append bs b h.2 p q)

pub record IsBounded (s : LoopState) : Type 0 where
  pub room : length s.batch < batch_size
  pub sized : AllSized s.handed

add_to_batch-IsBounded :
    (tx : Transaction) (s : LoopState) → IsBounded s → IsBounded (add_to_batch tx s)
unfolding add_to_batch
add_to_batch-IsBounded tx s v =
    let size = length-append s.batch (tx ∷ []) in
    let full = AllSized-append s.handed (s.batch ++ tx ∷ []) v.sized in ground (arith, size, full)

module _ (cfg : CircuitBreakerConfig) where
  stream-IsBounded : (e : Event) (s : LoopState) → IsBounded s → IsBounded (stream cfg e s)
  unfolding stream
  stream-IsBounded (Event.fetched tx) s v = add_to_batch-IsBounded tx s v
  stream-IsBounded Event.timer s v =
      let full = AllSized-append s.handed s.batch v.sized in ground (arith, full)
  stream-IsBounded _ s v = ground arith

  step_in-IsBounded :
      (p : Phase) (e : Event) (s : LoopState) → IsBounded s → IsBounded (step_in cfg p e s)
  unfolding step_in
  step_in-IsBounded (Phase.subscribing r) Event.subscribed s v = ground arith
  step_in-IsBounded (Phase.subscribing r) _ s v = ground arith
  step_in-IsBounded (Phase.waiting r) Event.elapsed s v = ground arith
  step_in-IsBounded (Phase.waiting r) _ s v = ground arith
  step_in-IsBounded Phase.streaming e s v = stream-IsBounded e s v
  step_in-IsBounded Phase.cancelled e s v = v
  step_in-IsBounded Phase.exceeded e s v = v

  beside-IsBounded : (e : Event) (s : LoopState) → IsBounded s → IsBounded (beside cfg e s)
  beside-IsBounded (Event.breaker_tick now) s v = record { room = v.room; sized = v.sized }
  beside-IsBounded _ s v = v

  -- From a state in which it is so, the waiting batch stays below the batch size, and every batch
  -- handed to processBatch holds between 1 and 100 transactions, after any events.
  pub run_loop-IsBounded :
      (es : List Event) (s : LoopState) → IsBounded s → IsBounded (run_loop cfg es s)
  unfolding run_loop
  run_loop-IsBounded [] s v = v
  run_loop-IsBounded (e ∷ es) s v =
      run_loop-IsBounded es (loop_step cfg e s)
        (step_in-IsBounded s.phase e (beside cfg e s) (beside-IsBounded e s v))

  run_loop-append :
      (es fs : List Event) (s : LoopState)
      → run_loop cfg (es ++ fs) s ≡ run_loop cfg fs (run_loop cfg es s)
  unfolding run_loop
  run_loop-append [] fs s = refl
  run_loop-append (e ∷ es) fs s = run_loop-append es fs (loop_step cfg e s)

  -- What a state has taken in and not lost.
  abbrev pub held : LoopState → List Transaction
  held s = flat s.handed ++ s.batch

  add_to_batch-held :
      (tx : Transaction) (s : LoopState) → held (add_to_batch tx s) ≡ held s ++ tx ∷ []
  unfolding add_to_batch
  add_to_batch-held tx s = elim (Bool-cases (leb batch_size (length (s.batch ++ tx ∷ [])))) [
    | inl t ↦ rw t (simp (flat-append, append-nil, append_assoc))
    | inr t ↦ rw t (sym (append_assoc (flat s.handed) s.batch (tx ∷ [])))
  ]

  timer-held : (s : LoopState) → held (stream cfg Event.timer s) ≡ held s
  unfolding stream
  timer-held s = elim (Bool-cases (ltb 0 (length s.batch))) [
    | inl t ↦ rw t (simp (flat-append, append-nil))
    | inr t ↦ rw t refl
  ]

  streaming_step :
      (e : Event) (s : LoopState)
      → s.phase ≡ Phase.streaming
      → loop_step cfg e s ≡ stream cfg e (beside cfg e s)
  unfolding loop_step
  streaming_step e s p = ap (λ q. step_in cfg q e (beside cfg e s)) p

  add_to_batch-phase : (tx : Transaction) (s : LoopState) → (add_to_batch tx s).phase ≡ s.phase
  unfolding add_to_batch
  add_to_batch-phase tx s = ground arith

  timer-phase : (s : LoopState) → (stream cfg Event.timer s).phase ≡ s.phase
  unfolding stream
  timer-phase s = ground arith

  IsCalm-step :
      (e : Event) (es : List Event) (s : LoopState)
      → s.phase ≡ Phase.streaming
      → IsCalm (e ∷ es)
      → ((loop_step cfg e s).phase ≡ Phase.streaming)
        × IsCalm es
        × (held (loop_step cfg e s) ++ deliveries es ≡ held s ++ deliveries (e ∷ es))
  unfolding stream
  IsCalm-step (Event.fetched tx) es s p c = rw (streaming_step (Event.fetched tx) s p) (
    add_to_batch-phase tx s ∙ p,
    c,
    ap (λ l. l ++ deliveries es) (add_to_batch-held tx s)
        ∙ append_assoc (held s) (tx ∷ []) (deliveries es),
  )
  IsCalm-step Event.timer es s p c =
      rw (streaming_step Event.timer s p)
        (timer-phase s ∙ p, c, ap (λ l. l ++ deliveries es) (timer-held s))
  IsCalm-step Event.done es s p c = absurd c
  IsCalm-step (Event.subscription_error now) es s p c = absurd c
  IsCalm-step e es s p c = rw (streaming_step e s p) (p, c, refl)

  -- While a subscription lasts it keeps streaming, and no transaction is lost, added or reordered:
  -- what was handed over, with the waiting batch behind it, grows by exactly the deliveries.
  pub run_loop-deliveries :
      (es : List Event) (s : LoopState)
      → s.phase ≡ Phase.streaming
      → IsCalm es
      → ((run_loop cfg es s).phase ≡ Phase.streaming)
        × (held (run_loop cfg es s) ≡ held s ++ deliveries es)
  unfolding run_loop
  run_loop-deliveries [] s p c = (p, sym (append-nil (held s)))
  run_loop-deliveries (e ∷ es) s p c =
      let (p', c', q) = IsCalm-step e es s p c in
      let (r, d) = run_loop-deliveries es (loop_step cfg e s) p' c' in (r, d ∙ q)

  renewal :
      (now : ℕ) (s : LoopState)
      → s.phase ≡ Phase.streaming
      → let s' = loop_step cfg Event.subscribed (loop_step cfg (Event.subscription_error now) s) in
        (s'.phase ≡ Phase.streaming) × (s'.batch ≡ []) × (s'.handed ≡ s.handed)
  unfolding loop_step
  renewal now s p = ground arith

  -- When a subscription is interrupted and renewed, exactly the batch that was waiting is lost:
  -- what was handed over before is followed by the deliveries of the new subscription.
  pub run_loop_interruption :
      (es fs : List Event) (now : ℕ) (s : LoopState)
      → s.phase ≡ Phase.streaming
      → IsCalm es
      → IsCalm fs
      → let s' = run_loop cfg (es ++ Event.subscription_error now ∷ Event.subscribed ∷ fs) s in
        held s' ≡ flat (run_loop cfg es s).handed ++ deliveries fs
  unfolding run_loop
  run_loop_interruption es fs now s p c d =
      let t = run_loop cfg es s in
      let (lasting, _) = run_loop-deliveries es s p c in
      let (renewed, dropped, kept) = renewal now t lasting in
      let u = loop_step cfg Event.subscribed (loop_step cfg (Event.subscription_error now) t) in
      let (_, after) = run_loop-deliveries fs u renewed d in
      rw (run_loop-append es (Event.subscription_error now ∷ Event.subscribed ∷ fs) s) (
        after
        ∙ ap (λ l. l ++ deliveries fs)
            (ap₂ (λ x y. flat x ++ y) kept dropped ∙ append-nil (flat t.handed)))
