-- ===== src/Mempool/Breaker.antt =====
-- mempool/monitor.go: CircuitBreaker; times are nanoseconds on one clock, 0 the zero time. Logging
-- and gauges are left out. Here a whole call of RecordError, and a whole tick of the goroutine
-- `monitor`, is one function, which is the code when nothing comes between: RecordError takes no
-- lock. Moves has the single reads and writes of both, and Alone shows that the functions here are
-- these moves without an interruption; Cooldown and Interrupted are about their interleavings.
pub mod Alone
pub mod Cooldown
pub mod Interrupted
pub mod Moves
pub mod Safety
pub mod Threshold
use profit_monopoly.Prelude.{
  Bool, List, [], false, if◌then◌else◌, leb, ltb, not, true, ℕ, ◌%◌, ◌&&◌, ◌+◌, ◌^◌, ◌∷◌,
}
use profit_monopoly.Int.{leb_ℤ, pos, sub_ℕ, ℤ}

-- The fields of CircuitBreakerConfig that CircuitBreaker reads: an int and two durations.
pub record CircuitBreakerConfig : Type 0 where
  pub error_threshold : ℤ
  pub reset_interval : ℕ
  pub cooldown_period : ℕ

-- `error_count` is a uint64; `trip_count` is the counter circuit_breaker_trips_total.
pub record CircuitBreaker : Type 0 where
  pub error_count : ℕ
  pub last_reset : ℕ
  pub last_tripped : ℕ
  pub enabled : Bool
  pub healthy : Bool
  pub trip_count : ℕ

-- NewCircuitBreaker, at the time `now`.
unfoldable pub new_circuit_breaker : ℕ → CircuitBreaker
new_circuit_breaker now = record {
  error_count = 0;
  last_reset = now;
  last_tripped = 0;
  enabled = true;
  healthy = true;
  trip_count = 0;
}

-- The conversion `int(n)` of a uint64.
abbrev pub int_of_uint64 : ℕ → ℤ
int_of_uint64 n = if ltb n (2 ^ 63) then pos n else sub_ℕ n (2 ^ 64)

-- tripCircuit
unfoldable pub trip_circuit : ℕ → CircuitBreaker → CircuitBreaker
trip_circuit now cb = record cb {
  enabled = false;
  healthy = false;
  last_tripped = now;
  trip_count = cb.trip_count + 1;
}

-- RecordError: the new state, and whether this error tripped the breaker.
unfoldable pub record_error : CircuitBreakerConfig → ℕ → CircuitBreaker → CircuitBreaker × Bool
unfolding trip_circuit
record_error cfg now cb =
    if not cb.enabled
    then (cb, false)
    else let new_count = (cb.error_count + 1) % 2 ^ 64 in
      let counted = record cb { error_count = new_count } in
      if leb_ℤ cfg.error_threshold (int_of_uint64 new_count)
      then (trip_circuit now counted, true)
      else (counted, false)

-- One tick of `monitor`: time.Since(t) >= d is t + d <= now.
unfoldable pub monitor_tick : CircuitBreakerConfig → ℕ → CircuitBreaker → CircuitBreaker
monitor_tick cfg now cb =
    let reset = record cb { error_count = 0; last_reset = now } in
    let over = not cb.enabled && leb (cb.last_tripped + cfg.cooldown_period) now in
    let woken = if over then record reset { enabled = true; healthy = true } else reset in
    if leb (cb.last_reset + cfg.reset_interval) now then woken else cb

-- IsHealthy
unfoldable pub is_healthy : CircuitBreaker → Bool
is_healthy cb = cb.enabled && cb.healthy

-- What happens to a breaker, and when, in a run in which no call or tick overlaps another.
pub data BreakerEvent : Type 0 where
  error tick : ℕ → BreakerEvent

unfoldable pub handle : CircuitBreakerConfig → BreakerEvent → CircuitBreaker → CircuitBreaker
unfolding record_error monitor_tick
handle cfg (error now) cb = (record_error cfg now cb).0
handle cfg (tick now) cb = monitor_tick cfg now cb

unfoldable pub run_events :
    CircuitBreakerConfig → List BreakerEvent → CircuitBreaker → CircuitBreaker
unfolding handle
run_events cfg [] cb = cb
run_events cfg (e ∷ es) cb = run_events cfg es (handle cfg e cb)
