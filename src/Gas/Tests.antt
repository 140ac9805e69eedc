-- ===== src/Gas/Tests.antt =====
-- gas/estimator.go: an estimate after three updates, of which the last fails.
use profit_monopoly.Prelude.{List, [], none, ok, refl, some, ◌∷◌, ◌≡◌}
use profit_monopoly.Int.{pos, ◌*ℤ◌, ◌+ℤ◌}
use profit_monopoly.Gas.{Answer, estimate_gas_cost, new_estimator, update_loop}

abbrev fees_of : List Answer
fees_of =
    record { block = some (some (pos 30)); tip = some (pos 2) }
    ∷ record { block = some (some (pos 40)); tip = some (pos 3) }
    ∷ record { block = some none; tip = none }
    ∷ []

last_success : estimate_gas_cost 21000 (update_loop fees_of new_estimator) ≡ ok (pos 903000)
unfolding estimate_gas_cost update_loop new_estimator ◌*ℤ◌ ◌+ℤ◌
last_success = refl
