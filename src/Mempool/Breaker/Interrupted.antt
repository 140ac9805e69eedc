-- ===== src/Mempool/Breaker/Interrupted.antt =====
-- mempool/monitor.go: a tick between the two writes of a trip.
use profit_monopoly.Prelude.{
  List, [], ◌∷◌, arith, false, leb, refl, true, ℕ, ◌%◌, ◌+◌, ◌<◌, ◌^◌, ◌≡◌, ◌≤◌,
}
use profit_monopoly.Int.{leb_ℤ, pos}
use profit_monopoly.Mempool.Breaker.{
  CircuitBreaker, CircuitBreakerConfig, int_of_uint64, is_healthy,
}
use profit_monopoly.Mempool.Breaker.Moves.{
  Move, Racing, TickPhase, asleep, at_cooldown, at_enable, at_enabled, at_heal, at_interval,
  at_load, at_reset, at_zero, enters, errs, make_move, monitors, move_tick, returned, run_moves,
  wakes, woken,
}

-- A breaker, a goroutine that begins a call of RecordError, and a monitor between two ticks.
abbrev pub calling : CircuitBreaker → Racing
calling cb = record { breaker = cb; calls = λ _. at_load; monitor = asleep }

-- A call that counts its error and stores that the breaker is not enabled, a whole tick at `tick`,
-- and the rest of the call.
abbrev pub interrupted : ℕ → ℕ → List Move
interrupted now tick =
    errs 0 now
    ∷ errs 0 now
    ∷ errs 0 now
    ∷ wakes
    ∷ monitors tick
    ∷ monitors tick
    ∷ monitors tick
    ∷ monitors tick
    ∷ monitors tick
    ∷ monitors tick
    ∷ monitors tick
    ∷ errs 0 tick
    ∷ errs 0 tick
    ∷ errs 0 tick
    ∷ []

-- Moves of the monitor only.
abbrev pub IsQuiet : List Move → Type 0
IsQuiet [] = Unit
IsQuiet (enters i ∷ ms) = ⊥
IsQuiet (errs i now ∷ ms) = ⊥
IsQuiet (wakes ∷ ms) = IsQuiet ms
IsQuiet (monitors now ∷ ms) = IsQuiet ms

abbrev NotHealing : TickPhase → Type 0
NotHealing at_cooldown = ⊥
NotHealing at_enable = ⊥
NotHealing at_heal = ⊥
NotHealing asleep = Unit
NotHealing at_interval = Unit
NotHealing at_zero = Unit
NotHealing at_reset = Unit
NotHealing at_enabled = Unit

-- Enabled and unhealthy.
abbrev IsTorn : CircuitBreaker → Type 0
IsTorn cb = (cb.enabled ≡ true) × (cb.healthy ≡ false)

move_tick-IsTorn :
    (cfg : CircuitBreakerConfig) (now : ℕ) (phase : TickPhase) (cb : CircuitBreaker)
    → NotHealing phase
    → IsTorn cb
    → IsTorn (move_tick cfg now phase cb).1 × NotHealing (move_tick cfg now phase cb).0
unfolding move_tick
move_tick-IsTorn cfg now asleep cb n t = (t, tt)
move_tick-IsTorn cfg now at_interval cb n t = (t, ground arith)
move_tick-IsTorn cfg now at_zero cb n t = (t, tt)
move_tick-IsTorn cfg now at_reset cb n t = (t, tt)
move_tick-IsTorn cfg now at_enabled cb n t = (t, ground arith)
move_tick-IsTorn cfg now at_cooldown cb n t = absurd n
move_tick-IsTorn cfg now at_enable cb n t = absurd n
move_tick-IsTorn cfg now at_heal cb n t = absurd n

woken-NotHealing : (phase : TickPhase) → NotHealing phase → NotHealing (woken phase)
woken-NotHealing asleep n = tt
woken-NotHealing at_interval n = tt
woken-NotHealing at_zero n = tt
woken-NotHealing at_reset n = tt
woken-NotHealing at_enabled n = tt
woken-NotHealing at_cooldown n = n
woken-NotHealing at_enable n = n
woken-NotHealing at_heal n = n

run_moves-IsTorn :
    (cfg : CircuitBreakerConfig) (ms : List Move) (r : Racing)
    → IsQuiet ms
    → NotHealing r.monitor
    → IsTorn r.breaker
    → IsTorn (run_moves cfg ms r).breaker
unfolding run_moves make_move
run_moves-IsTorn cfg [] r q n t = t
run_moves-IsTorn cfg (enters i ∷ ms) r q n t = absurd q
run_moves-IsTorn cfg (errs i now ∷ ms) r q n t = absurd q
run_moves-IsTorn cfg (wakes ∷ ms) r q n t =
    run_moves-IsTorn cfg ms (make_move cfg wakes r) q (woken-NotHealing r.monitor n) t
run_moves-IsTorn cfg (monitors now ∷ ms) r q n t =
    let (torn, later) = move_tick-IsTorn cfg now r.monitor r.breaker n t in
    run_moves-IsTorn cfg ms (make_move cfg (monitors now) r) q later torn

interrupted-IsTorn :
    (cfg : CircuitBreakerConfig) (cb : CircuitBreaker) (now tick : ℕ)
    → cb.enabled ≡ true
    → leb_ℤ cfg.error_threshold (int_of_uint64 ((cb.error_count + 1) % 2 ^ 64)) ≡ true
    → leb (cb.last_reset + cfg.reset_interval) tick ≡ true
    → leb (cb.last_tripped + cfg.cooldown_period) tick ≡ true
    → let r = run_moves cfg (interrupted now tick) (calling cb) in
      IsTorn r.breaker × NotHealing r.monitor × (r.calls 0 ≡ returned true)
unfolding run_moves make_move
interrupted-IsTorn cfg cb now tick e t i c = simp (e, t, i, c) ((refl, refl), tt, refl)

-- When an error that reaches a threshold below 2^63 finds the breaker enabled, and a whole tick that
-- finds the reset interval and the cooldown since the previous trip over falls between the two flags
-- that its trip stores, the trip leaves the breaker enabled while IsHealthy answers false, and it
-- stays so through all that the monitor does as long as there is no further error.
pub interrupted_stuck :
    (cfg : CircuitBreakerConfig) (cb : CircuitBreaker) (limit now tick : ℕ) (ms : List Move)
    → cb.enabled ≡ true
    → cfg.error_threshold ≡ pos limit
    → limit ≤ cb.error_count + 1
    → cb.error_count + 1 < 2 ^ 63
    → cb.last_reset + cfg.reset_interval ≤ tick
    → cb.last_tripped + cfg.cooldown_period ≤ tick
    → IsQuiet ms
    → let r = run_moves cfg ms (run_moves cfg (interrupted now tick) (calling cb)) in
      (r.breaker.enabled ≡ true) × (is_healthy r.breaker ≡ false)
unfolding is_healthy
interrupted_stuck cfg cb limit now tick ms e bound reached small i c quiet =
    let count : (cb.error_count + 1) % 2 ^ 64 ≡ cb.error_count + 1 = omega arith in
    let trips : leb_ℤ cfg.error_threshold (int_of_uint64 ((cb.error_count + 1) % 2 ^ 64)) ≡ true =
      rw (bound, count) (ground arith) in
    let (torn, n, _) = interrupted-IsTorn cfg cb now tick e trips (ground arith) (ground arith) in
    let (on, sick) =
      run_moves-IsTorn cfg ms (run_moves cfg (interrupted now tick) (calling cb)) quiet n torn in
    (on, rw (on, sick) refl)
