-- ===== src/Gas/Latest.antt =====
-- gas/estimator.go: an estimate goes by the last update that succeeded.
use profit_monopoly.Prelude.{
  List, Option, Option-cases, Run, [], inl, inr, none, ok, panic, refl, some, ℕ, ◌∷◌, ◌≡◌, ap, ◌∙◌,
}
use profit_monopoly.Int.{pos, ℤ, ◌*ℤ◌, ◌+ℤ◌}
use profit_monopoly.Gas.{
  Answer, Estimator, EstimatorError, estimate_gas_cost, new_estimator, update, update_loop,
}

-- The fees of an answer that makes an update succeed.
abbrev pub fees : Answer → Option (Option ℤ × ℤ)
fees a = elim a.block [
  | none ↦ none
  | some base_fee ↦ elim a.tip [ none ↦ none | some tip ↦ some (base_fee, tip) ]
]

abbrev pub or_before : Option (Option ℤ × ℤ) → Option (Option ℤ × ℤ) → Option (Option ℤ × ℤ)
or_before none before = before
or_before (some new) before = some new

-- The fees of the last of the answers that has any.
abbrev pub latest : Option (Option ℤ × ℤ) → List Answer → Option (Option ℤ × ℤ)
latest before [] = before
latest before (a ∷ answers) = latest (or_before (fees a) before) answers

abbrev holding : Option (Option ℤ × ℤ) → Estimator
holding none = record { base_gas_price = none; priority_fee = none }
holding (some (base_fee, tip)) = record { base_gas_price = base_fee; priority_fee = some tip }

update-holding :
    (a : Answer) (before : Option (Option ℤ × ℤ))
    → (update a (holding before)).1 ≡ holding (or_before (fees a) before)
unfolding update
update-holding a before = elim (Option-cases a.block) [
  | inl n ↦ rw (update, n) refl
  | inr (base_fee, b) ↦ elim (Option-cases a.tip) [
    | inl n ↦ rw (update, b, n) refl
    | inr (tip, t) ↦ rw (update, b, t) refl
  ]
]

update_loop-holding :
    (answers : List Answer) (before : Option (Option ℤ × ℤ))
    → update_loop answers (holding before) ≡ holding (latest before answers)
unfolding update_loop
update_loop-holding [] before = refl
update_loop-holding (a ∷ answers) before =
    ap (update_loop answers) (update-holding a before)
    ∙ update_loop-holding answers (or_before (fees a) before)

-- The cost of a gas limit under the fees of an update.
abbrev pub cost : ℕ → Option (Option ℤ × ℤ) → Run EstimatorError ℤ
cost gas_limit none = panic
cost gas_limit (some (none, tip)) = panic
cost gas_limit (some (some base_fee, tip)) = ok ((base_fee +ℤ tip) *ℤ pos gas_limit)

-- After any updates of a new estimator the estimate of a gas limit is that limit times the sum of
-- the two fees of the last update that succeeded; it is a panic if none has, or if the block of
-- that update had no base fee.
pub estimate_gas_cost-latest :
    (answers : List Answer) (gas_limit : ℕ)
    → estimate_gas_cost gas_limit (update_loop answers new_estimator)
      ≡ cost gas_limit (latest none answers)
unfolding new_estimator estimate_gas_cost
estimate_gas_cost-latest answers gas_limit =
    ap (estimate_gas_cost gas_limit) (update_loop-holding answers none)
    ∙ charged (latest none answers)
  where
    charged :
        (f : Option (Option ℤ × ℤ)) → estimate_gas_cost gas_limit (holding f) ≡ cost gas_limit f
    charged none = refl
    charged (some (none, tip)) = refl
    charged (some (some base_fee, tip)) = refl
