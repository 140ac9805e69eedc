-- ===== src/Mempool/Monitor/Retries.antt =====
-- mempool/monitor.go: how many failed subscriptions end monitorLoop.
use profit_monopoly.Prelude.{
  Bool-cases, List, [], arith, inl, inr, ltb, refl, suc, zero, ℕ, ◌+◌, ◌<◌, ◌↔◌, ◌∷◌, ◌≡◌, ◌≤◌,
}
use profit_monopoly.Mempool.Breaker.{CircuitBreaker, CircuitBreakerConfig}
use profit_monopoly.Mempool.Monitor.{
  Event, LoopState, Phase, loop_step, max_retries, next_round, run_loop, start,
}

-- `k` subscriptions that fail, each with its wait.
abbrev pub failures : ℕ → List Event
failures zero = []
failures (suc k) = Event.subscribe_failed ∷ Event.elapsed ∷ failures k

module _ (cfg : CircuitBreakerConfig) where
  step_exceeded :
      (e : Event) (s : LoopState)
      → s.phase ≡ Phase.exceeded
      → (loop_step cfg e s).phase ≡ Phase.exceeded
  unfolding loop_step
  step_exceeded e s p = ground arith

  stays_exceeded :
      (k : ℕ) (s : LoopState)
      → s.phase ≡ Phase.exceeded
      → (run_loop cfg (failures k) s).phase ≡ Phase.exceeded
  unfolding run_loop
  stays_exceeded zero s p = p
  stays_exceeded (suc k) s p =
      stays_exceeded k (loop_step cfg Event.elapsed (loop_step cfg Event.subscribe_failed s))
        (step_exceeded Event.elapsed _ (step_exceeded Event.subscribe_failed s p))

  after_failure :
      (r : ℕ) (s : LoopState)
      → s.phase ≡ Phase.subscribing r
      → (loop_step cfg Event.elapsed (loop_step cfg Event.subscribe_failed s)).phase ≡ next_round r
  unfolding loop_step
  after_failure r s p = ground arith

  failures_from :
      (k r : ℕ) (s : LoopState)
      → s.phase ≡ Phase.subscribing r
      → r < 3
      → ((run_loop cfg (failures k) s).phase ≡ Phase.exceeded) ↔ (3 ≤ r + k)
  unfolding run_loop next_round
  failures_from zero r s p h = (λ e. cc, λ le. absurd (omega arith))
  failures_from (suc k) r s p h =
      let s' = loop_step cfg Event.elapsed (loop_step cfg Event.subscribe_failed s) in
      elim (Bool-cases (ltb (r + 1) max_retries)) [
        | inl more ↦
            let next : s'.phase ≡ Phase.subscribing (r + 1) = ground (arith, after_failure r s p) in
            let (there, back) = failures_from k (r + 1) s' next (ground arith) in
            (λ e. omega (arith, there e), λ le. back (omega arith))
        | inr last ↦
            let over : s'.phase ≡ Phase.exceeded = ground (arith, after_failure r s p) in
            (λ e. ground arith, λ le. stays_exceeded k s' over)
      ]

  -- From the start the loop gives up after three failed subscriptions in a row, and not before.
  pub run_loop_fresh_failures :
      (breaker : CircuitBreaker) (k : ℕ)
      → ((run_loop cfg (failures k) (start breaker)).phase ≡ Phase.exceeded) ↔ (3 ≤ k)
  unfolding start
  run_loop_fresh_failures breaker k =
      let (there, back) = failures_from k 0 (start breaker) refl (omega arith) in
      (λ e. omega (arith, there e), λ le. back (omega arith))

  interrupted :
      (now : ℕ) (s : LoopState)
      → s.phase ≡ Phase.streaming
      → (loop_step cfg (Event.subscription_error now) s).phase ≡ Phase.subscribing 1
  unfolding loop_step
  interrupted now s p = ground arith

  -- After an interrupted subscription two failures in a row are enough: `retries = 0` is followed
  -- by the loop's own increment.
  pub run_loop_interrupted_failures :
      (k now : ℕ) (s : LoopState)
      → s.phase ≡ Phase.streaming
      → ((run_loop cfg (Event.subscription_error now ∷ failures k) s).phase ≡ Phase.exceeded)
        ↔ (2 ≤ k)
  unfolding run_loop
  run_loop_interrupted_failures k now s p =
      let s' = loop_step cfg (Event.subscription_error now) s in
      let (there, back) = failures_from k 1 s' (interrupted now s p) (omega arith) in
      (λ e. omega (arith, there e), λ le. back (omega arith))
