-- ===== src/Mempool/Monitor.antt =====
-- mempool/monitor.go: monitorLoop as a machine over what its `select` receives. The node, the
-- clock and the context decide the events; `processBatch` is in `Processing`.
pub mod Batches
pub mod Retries
use profit_monopoly.Prelude.{List, [], if◌then◌else◌, leb, length, ltb, ℕ, ◌++◌, ◌+◌, ◌∷◌}
use profit_monopoly.Int.{ℤ}
use profit_monopoly.Mempool.Breaker.{
  CircuitBreaker, CircuitBreakerConfig, monitor_tick, record_error,
}

-- A transaction as the loop sees it: its hash and its gas price.
pub record Transaction : Type 0 where
  pub hash : ℕ
  pub gas_price : ℤ

abbrev pub max_retries : ℕ
max_retries = 3

abbrev pub batch_size : ℕ
batch_size = 100

-- Where the loop stands: before a subscription with `retries` rounds counted, waiting after one that
-- failed, in the inner loop, returned because the context is done, or past the loop.
pub data Phase : Type 0 where
  subscribing waiting : ℕ → Phase
  streaming : Phase
  cancelled exceeded : Phase

-- `handed` are the batches given to processBatch, the newest last; `errors` counts errorCount;
-- `breaker` is the monitor's circuit breaker.
pub record LoopState : Type 0 where
  pub phase : Phase
  pub batch : List Transaction
  pub handed : List (List Transaction)
  pub errors : ℕ
  pub breaker : CircuitBreaker

-- `elapsed` is the end of the wait after a failed subscription; a subscription error has its time.
-- `breaker_tick` is a tick of the breaker's own goroutine.
pub data Event : Type 0 where
  subscribed : Event
  subscribe_failed : Event
  elapsed : Event
  done : Event
  subscription_error : ℕ → Event
  fetched : Transaction → Event
  fetch_failed : Event
  timer : Event
  breaker_tick : ℕ → Event

unfoldable pub start : CircuitBreaker → LoopState
start breaker = record {
  phase = Phase.subscribing 0;
  batch = [];
  handed = [];
  errors = 0;
  breaker = breaker;
}

-- `retries++` and the loop's test.
unfoldable pub next_round : ℕ → Phase
next_round retries =
    if ltb (retries + 1) max_retries then Phase.subscribing (retries + 1) else Phase.exceeded

-- `m.processBatch(batch)` and a fresh batch.
unfoldable pub hand_over : LoopState → LoopState
hand_over s = record s { batch = []; handed = s.handed ++ s.batch ∷ [] }

-- `batch = append(batch, transaction)`, handed over when it is full.
unfoldable pub add_to_batch : Transaction → LoopState → LoopState
unfolding hand_over
add_to_batch tx s =
    let grown = record s { batch = s.batch ++ tx ∷ [] } in
    if leb batch_size (length grown.batch) then hand_over grown else grown

-- The `select` of the inner loop. A successful subscription has set `retries = 0`, so the round
-- after an interrupted one is round 1; the sleep before it cannot be cancelled.
unfoldable pub stream : CircuitBreakerConfig → Event → LoopState → LoopState
unfolding next_round add_to_batch record_error
stream cfg Event.done s = record s { phase = Phase.cancelled }
stream cfg (Event.subscription_error now) s = record s {
  phase = next_round 0;
  batch = [];
  errors = s.errors + 1;
  breaker = (record_error cfg now s.breaker).0;
}
stream cfg (Event.fetched tx) s = add_to_batch tx s
stream cfg Event.fetch_failed s = record s { errors = s.errors + 1 }
stream cfg Event.timer s = if ltb 0 (length s.batch) then hand_over s else s
stream cfg _ s = s

-- A round of the outer loop up to the subscription's answer.
unfoldable pub subscribe : ℕ → Event → LoopState → LoopState
subscribe retries Event.subscribed s = record s { phase = Phase.streaming; batch = [] }
subscribe retries Event.subscribe_failed s = record s {
  phase = Phase.waiting retries;
  errors = s.errors + 1;
}
subscribe retries _ s = s

-- The `select` after a failed subscription.
unfoldable pub wait_retry : ℕ → Event → LoopState → LoopState
unfolding next_round
wait_retry retries Event.elapsed s = record s { phase = next_round retries }
wait_retry retries Event.done s = record s { phase = Phase.cancelled }
wait_retry retries _ s = s

unfoldable pub step_in : CircuitBreakerConfig → Phase → Event → LoopState → LoopState
unfolding stream subscribe wait_retry
step_in cfg (Phase.subscribing retries) e s = subscribe retries e s
step_in cfg (Phase.waiting retries) e s = wait_retry retries e s
step_in cfg Phase.streaming e s = stream cfg e s
step_in cfg Phase.cancelled e s = s
step_in cfg Phase.exceeded e s = s

-- What an event does to the breaker beside the loop.
abbrev pub beside : CircuitBreakerConfig → Event → LoopState → LoopState
beside cfg (Event.breaker_tick now) s = record s { breaker = monitor_tick cfg now s.breaker }
beside cfg _ s = s

-- monitorLoop, one event at a time; an event that a phase does not wait for is passed over.
unfoldable pub loop_step : CircuitBreakerConfig → Event → LoopState → LoopState
unfolding step_in
loop_step cfg e s = step_in cfg s.phase e (beside cfg e s)

unfoldable pub run_loop : CircuitBreakerConfig → List Event → LoopState → LoopState
unfolding loop_step
run_loop cfg [] s = s
run_loop cfg (e ∷ es) s = run_loop cfg es (loop_step cfg e s)
