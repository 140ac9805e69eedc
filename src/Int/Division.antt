-- ===== src/Int/Division.antt =====
-- Division: the quotient and the remainder belong together, and small facts on rounding.
use profit_monopoly.Prelude.{arith, ℕ, ◌*◌, ◌+◌, ◌/◌, ◌<◌, ◌≤◌}

-- The floor of a quotient, as two bounds.
pub div_bounds : (a b : ℕ) → 0 < b → ((a / b) * b ≤ a) × (a < (a / b) * b + b)
div_bounds a b h = grind arith

pub div-le : (a b c : ℕ) → 0 < b → a ≤ c * b → a / b ≤ c
div-le a b c h p = grind arith

pub le-div : (a b c : ℕ) → 0 < b → c * b ≤ a → c ≤ a / b
le-div a b c h p = grind arith

pub div_mono : (a b c : ℕ) → a ≤ b → a / c ≤ b / c
div_mono a b c h = grind arith
