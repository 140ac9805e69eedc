-- ===== src/Mempool/Breaker/Cooldown.antt =====
-- mempool/monitor.go: a tripped breaker while calls and ticks interleave.
use profit_monopoly.Prelude.{List, [], ◌∷◌, false, ℕ, ◌<◌, ◌≡◌, ◌≤◌}
use profit_monopoly.Mempool.Breaker.{CircuitBreaker}
use profit_monopoly.Mempool.Breaker.Moves.{
  Move, TickPhase, asleep, at_cooldown, at_enable, at_enabled, at_heal, at_interval, at_reset,
  at_zero, enters, errs, monitors, wakes,
}

-- The moves happen at `start` or later and before `limit`.
abbrev pub Within : ℕ → ℕ → List Move → Type 0
Within start limit [] = Unit
Within start limit (enters i ∷ ms) = Within start limit ms
Within start limit (errs i now ∷ ms) = (start ≤ now) × (now < limit) × Within start limit ms
Within start limit (wakes ∷ ms) = Within start limit ms
Within start limit (monitors now ∷ ms) = (start ≤ now) × (now < limit) × Within start limit ms

-- Off since `start` or later.
abbrev IsOff : ℕ → CircuitBreaker → Type 0
IsOff start cb = (cb.enabled ≡ false) × (start ≤ cb.last_tripped)

-- The monitor has not found a cooldown over.
abbrev pub IsWaiting : TickPhase → Type 0
IsWaiting at_enable = ⊥
IsWaiting asleep = Unit
IsWaiting at_interval = Unit
IsWaiting at_zero = Unit
IsWaiting at_reset = Unit
IsWaiting at_enabled = Unit
IsWaiting at_cooldown = Unit
IsWaiting at_heal = Unit
