-- ===== src/Mempool/Breaker/Moves.antt =====
-- mempool/monitor.go: the single reads and writes of RecordError, tripCircuit and a tick of monitor.
-- Any number of goroutines call RecordError; there is one monitor, and the mutex is its own alone.
use profit_monopoly.Prelude.{
  Bool, List, [], false, if◌then◌else◌, leb, not, true, ℕ, ◌%◌, ◌+◌, ◌==◌, ◌^◌, ◌∷◌, suc, zero,
}
use profit_monopoly.Int.{leb_ℤ}
use profit_monopoly.Mempool.Breaker.{CircuitBreaker, CircuitBreakerConfig, int_of_uint64}

-- What a call of RecordError does next; `returned` with its answer.
pub data ErrorPhase : Type 0 where
  at_load at_add at_disable at_mark at_stamp at_count : ErrorPhase
  returned : Bool → ErrorPhase

-- What the monitor does next; between two ticks it is asleep.
pub data TickPhase : Type 0 where
  asleep at_interval at_zero at_reset at_enabled at_cooldown at_enable at_heal : TickPhase

-- One read or write of RecordError or tripCircuit.
unfoldable pub move_error :
    CircuitBreakerConfig → ℕ → ErrorPhase → CircuitBreaker → ErrorPhase × CircuitBreaker
move_error cfg now at_load cb = (if cb.enabled then at_add else returned false, cb)
move_error cfg now at_add cb =
    let new_count = (cb.error_count + 1) % 2 ^ 64 in
    (
      if leb_ℤ cfg.error_threshold (int_of_uint64 new_count) then at_disable else returned false,
      record cb { error_count = new_count },
    )
move_error cfg now at_disable cb = (at_mark, record cb { enabled = false })
move_error cfg now at_mark cb = (at_stamp, record cb { healthy = false })
move_error cfg now at_stamp cb = (at_count, record cb { last_tripped = now })
move_error cfg now at_count cb = (returned true, record cb { trip_count = cb.trip_count + 1 })
move_error cfg now (returned b) cb = (returned b, cb)

-- One read or write of a tick; time.Since(t) >= d is t + d <= now.
unfoldable pub move_tick :
    CircuitBreakerConfig → ℕ → TickPhase → CircuitBreaker → TickPhase × CircuitBreaker
move_tick cfg now asleep cb = (asleep, cb)
move_tick cfg now at_interval cb =
    (if leb (cb.last_reset + cfg.reset_interval) now then at_zero else asleep, cb)
move_tick cfg now at_zero cb = (at_reset, record cb { error_count = 0 })
move_tick cfg now at_reset cb = (at_enabled, record cb { last_reset = now })
move_tick cfg now at_enabled cb = (if not cb.enabled then at_cooldown else asleep, cb)
move_tick cfg now at_cooldown cb =
    (if leb (cb.last_tripped + cfg.cooldown_period) now then at_enable else asleep, cb)
move_tick cfg now at_enable cb = (at_heal, record cb { enabled = true })
move_tick cfg now at_heal cb = (asleep, record cb { healthy = true })

-- A breaker with its goroutines: the calls by their numbers, and the monitor.
pub record Racing : Type 0 where
  pub breaker : CircuitBreaker
  pub calls : ℕ → ErrorPhase
  pub monitor : TickPhase

-- A move: a goroutine whose call has returned calls again, a call goes on, the ticker fires, or the
-- monitor goes on.
pub data Move : Type 0 where
  enters : ℕ → Move
  errs : ℕ → ℕ → Move
  wakes : Move
  monitors : ℕ → Move

abbrev pub set_call : (ℕ → ErrorPhase) → ℕ → ErrorPhase → ℕ → ErrorPhase
set_call calls i phase j = if i == j then phase else calls j

-- The next phase of a goroutine that calls RecordError, if it is in no call.
abbrev pub entered : ErrorPhase → ErrorPhase
entered (returned _) = at_load
entered at_load = at_load
entered at_add = at_add
entered at_disable = at_disable
entered at_mark = at_mark
entered at_stamp = at_stamp
entered at_count = at_count

abbrev pub woken : TickPhase → TickPhase
woken asleep = at_interval
woken at_interval = at_interval
woken at_zero = at_zero
woken at_reset = at_reset
woken at_enabled = at_enabled
woken at_cooldown = at_cooldown
woken at_enable = at_enable
woken at_heal = at_heal

unfoldable pub make_move : CircuitBreakerConfig → Move → Racing → Racing
unfolding move_error move_tick
make_move cfg (enters i) r = record r { calls = set_call r.calls i (entered (r.calls i)) }
make_move cfg (errs i now) r =
    let (phase, cb) = move_error cfg now (r.calls i) r.breaker in
    record r { breaker = cb; calls = set_call r.calls i phase }
make_move cfg wakes r = record r { monitor = woken r.monitor }
make_move cfg (monitors now) r =
    let (phase, cb) = move_tick cfg now r.monitor r.breaker in
    record r { breaker = cb; monitor = phase }

unfoldable pub run_moves : CircuitBreakerConfig → List Move → Racing → Racing
unfolding make_move
run_moves cfg [] r = r
run_moves cfg (m ∷ ms) r = run_moves cfg ms (make_move cfg m r)

-- `n` moves of one call, and of the monitor, with nothing between.
unfoldable pub advance_error :
    ℕ → CircuitBreakerConfig → ℕ → ErrorPhase → CircuitBreaker → ErrorPhase × CircuitBreaker
unfolding move_error
advance_error zero cfg now phase cb = (phase, cb)
advance_error (suc n) cfg now phase cb =
    let (next, after) = move_error cfg now phase cb in advance_error n cfg now next after

unfoldable pub advance_tick :
    ℕ → CircuitBreakerConfig → ℕ → TickPhase → CircuitBreaker → TickPhase × CircuitBreaker
unfolding move_tick
advance_tick zero cfg now phase cb = (phase, cb)
advance_tick (suc n) cfg now phase cb =
    let (next, after) = move_tick cfg now phase cb in advance_tick n cfg now next after
