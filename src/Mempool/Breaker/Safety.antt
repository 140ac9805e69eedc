-- ===== src/Mempool/Breaker/Safety.antt =====
-- mempool/monitor.go: what holds of a circuit breaker after errors and ticks that do not overlap.
use profit_monopoly.Prelude.{List, [], arith, false, refl, true, ℕ, ◌+◌, ◌<◌, ◌^◌, ◌∷◌, ◌≡◌}
use profit_monopoly.Int.{pos, ◌<ℤ◌}
use profit_monopoly.Mempool.Breaker.{
  BreakerEvent, CircuitBreaker, CircuitBreakerConfig, error, handle, is_healthy,
  new_circuit_breaker, run_events, tick,
}

-- The two flags agree, and a breaker that lets work through is below its threshold.
pub record IsConsistent (cfg : CircuitBreakerConfig) (cb : CircuitBreaker) : Type 0 where
  pub flags : cb.enabled ≡ cb.healthy
  pub below : cb.enabled ≡ true → pos cb.error_count <ℤ cfg.error_threshold

-- A threshold of at least 1 that an int holds.
abbrev pub IsThreshold : CircuitBreakerConfig → Type 0
IsThreshold cfg = (pos 0 <ℤ cfg.error_threshold) × (cfg.error_threshold <ℤ pos (2 ^ 63))

handle-IsConsistent :
    (cfg : CircuitBreakerConfig) (e : BreakerEvent) (cb : CircuitBreaker)
    → IsThreshold cfg
    → IsConsistent cfg cb
    → IsConsistent cfg (handle cfg e cb)
unfolding handle
handle-IsConsistent cfg (error now) cb t v = ground arith
handle-IsConsistent cfg (tick now) cb t v = ground arith

run_events_keeps :
    (cfg : CircuitBreakerConfig) (es : List BreakerEvent) (cb : CircuitBreaker)
    → IsThreshold cfg
    → IsConsistent cfg cb
    → IsConsistent cfg (run_events cfg es cb)
unfolding run_events
run_events_keeps cfg [] cb t v = v
run_events_keeps cfg (e ∷ es) cb t v =
    run_events_keeps cfg es (handle cfg e cb) t (handle-IsConsistent cfg e cb t v)

-- From a new breaker, any sequence of errors and ticks that do not overlap leads to a breaker whose two flags agree
-- and which is enabled only while its error count is below the threshold.
pub run_events-IsConsistent :
    (cfg : CircuitBreakerConfig) (now : ℕ) (es : List BreakerEvent)
    → IsThreshold cfg
    → IsConsistent cfg (run_events cfg es (new_circuit_breaker now))
unfolding new_circuit_breaker
run_events-IsConsistent cfg now es t =
    run_events_keeps cfg es (new_circuit_breaker now) t (record { flags = refl; below = λ e. t.0 })

-- All events before a time.
abbrev pub Before : ℕ → List BreakerEvent → Type 0
Before limit [] = Unit
Before limit (error now ∷ es) = (now < limit) × Before limit es
Before limit (tick now ∷ es) = (now < limit) × Before limit es

-- A tripped breaker stays unhealthy, with the same time of its trip, through any errors and ticks
-- before the end of its cooldown, if none of them overlaps another.
pub run_events_cooldown :
    (cfg : CircuitBreakerConfig) (es : List BreakerEvent) (cb : CircuitBreaker)
    → cb.enabled ≡ false
    → Before (cb.last_tripped + cfg.cooldown_period) es
    → let cb' = run_events cfg es cb in
      (is_healthy cb' ≡ false) × (cb'.last_tripped ≡ cb.last_tripped)
unfolding run_events is_healthy
run_events_cooldown cfg [] cb d b = ground arith
run_events_cooldown cfg (error now ∷ es) cb d b =
    ground (arith, run_events_cooldown cfg es (handle cfg (error now) cb))
run_events_cooldown cfg (tick now ∷ es) cb d b =
    ground (arith, run_events_cooldown cfg es (handle cfg (tick now) cb))
