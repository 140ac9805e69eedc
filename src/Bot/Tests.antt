-- ===== src/Bot/Tests.antt =====
-- cmd/bot/bot.go: the theorems on a short run.
use profit_monopoly.Prelude.{false, [], ◌∷◌, arith, true, refl, ◌≡◌, ◌⊎◌}
use profit_monopoly.Bot.{
  Bot, Step, StopReturns, Steps, analyse, analyses, done, execute, next, receives, send, sends,
  started, stops,
}
use profit_monopoly.Bot.Order.{IsOrdered, started-IsOrdered}
use profit_monopoly.Bot.Stopping.{stop_stuck}

abbrev found : Bot
found = analyse (7 ∷ 9 ∷ []) started

abbrev one_sent : Bot
one_sent = send 7 (9 ∷ []) found

abbrev stopped : Bot
stopped = record one_sent { closed = true }

abbrev one_executed : Bot
one_executed = execute 7 [] stopped

to_executed : Steps started one_executed
unfolding analyse send
to_executed = next started found one_executed (analyses started (7 ∷ 9 ∷ []) refl refl refl) (
    next found one_sent one_executed (sends found 7 (9 ∷ []) refl refl refl refl (omega arith)) (
      next one_sent stopped one_executed (stops one_sent refl refl) (
        next stopped one_executed one_executed (receives stopped 7 [] refl refl refl)
          (done one_executed))))

started-IsOrdered_example : IsOrdered one_executed
started-IsOrdered_example = started-IsOrdered one_executed to_executed

abbrev last_receive : Steps stopped one_executed
unfolding analyse send
last_receive =
    next stopped one_executed one_executed (receives stopped 7 [] refl refl refl)
      (done one_executed)

stop_stuck_example :
    (¬ StopReturns one_executed)
    × (one_executed.pending ≡ 9 ∷ [])
    × (one_executed.sender_done ≡ false)
    × ((one_executed.panicked ≡ true) ⊎ Step one_executed (record one_executed { panicked = true }))
unfolding analyse send execute
stop_stuck_example = stop_stuck stopped one_executed 9 [] last_receive (refl, refl) refl refl refl
