-- ===== src/Mempool/Breaker/Threshold.antt =====
-- mempool/monitor.go: after how many errors a circuit breaker trips.
use profit_monopoly.Prelude.{
  List, [], arith, false, ltb, refl, suc, true, zero, ℕ, ◌+◌, ◌<◌, ◌^◌, ◌∷◌, ◌≡◌,
}
use profit_monopoly.Int.{pos}
use profit_monopoly.Mempool.Breaker.{
  BreakerEvent, CircuitBreaker, CircuitBreakerConfig, error, handle, is_healthy,
  new_circuit_breaker, run_events,
}

abbrev pub errors_at : ℕ → ℕ → List BreakerEvent
errors_at zero now = []
errors_at (suc k) now = error now ∷ errors_at k now

stays_tripped :
    (cfg : CircuitBreakerConfig) (k now : ℕ) (cb : CircuitBreaker)
    → cb.enabled ≡ false
    → is_healthy (run_events cfg (errors_at k now) cb) ≡ false
unfolding run_events is_healthy
stays_tripped cfg zero now cb d = ground arith
stays_tripped cfg (suc k) now cb d =
    ground (arith, stays_tripped cfg k now (handle cfg (error now) cb))

count_errors :
    (cfg : CircuitBreakerConfig) (limit k now : ℕ) (cb : CircuitBreaker)
    → cfg.error_threshold ≡ pos limit
    → limit < 2 ^ 63
    → cb.enabled ≡ true
    → cb.healthy ≡ true
    → cb.error_count < limit
    → is_healthy (run_events cfg (errors_at k now) cb) ≡ ltb (cb.error_count + k) limit
unfolding run_events is_healthy
count_errors cfg limit zero now cb t w e h c = ground arith
count_errors cfg limit (suc k) now cb t w e h c = ground (
  arith,
  count_errors cfg limit k now (handle cfg (error now) cb),
  stays_tripped cfg k now (handle cfg (error now) cb),
)

-- A new breaker with a threshold of at least 1 that an int holds is healthy after `k` errors with
-- no tick between them exactly if `k` is below the threshold.
pub run_events_errors :
    (cfg : CircuitBreakerConfig) (limit k start now : ℕ)
    → cfg.error_threshold ≡ pos limit
    → 0 < limit
    → limit < 2 ^ 63
    → is_healthy (run_events cfg (errors_at k now) (new_circuit_breaker start)) ≡ ltb k limit
unfolding new_circuit_breaker
run_events_errors cfg limit k start now t h w =
    ground (arith, count_errors cfg limit k now (new_circuit_breaker start) t w refl refl h)
