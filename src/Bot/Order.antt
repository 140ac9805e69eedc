-- ===== src/Bot/Order.antt =====
-- cmd/bot/bot.go: opportunities are executed in the order in which they were found.
use mathlib.Core.List.{append-nil, append_assoc}
use profit_monopoly.Prelude.{
  List, [], ◌++◌, ◌∷◌, arith, false, true, length, length-append, refl, sym, ap, ◌∙◌, ℕ, ◌≡◌, ◌≤◌,
  ◌⊎◌, inl, inr,
}
use profit_monopoly.Bot.{
  Bot, Step, Steps, analyse, analyses, cancels, done, ends_sending, execute, next, opportunity_room,
  quit_sending, quits_receiving, quits_sending, receives, receives_closed, send, sends,
  sends_closed, started, stops, stops_again,
}

-- What was found is executed, in the channel, about to be sent or lost, in this order; and nothing
-- is lost while the sender runs.
abbrev pub IsOrdered : Bot → Type 0
IsOrdered b =
    (b.analysed ≡ b.executed ++ (b.opportunities ++ (b.pending ++ b.lost)))
    × ((b.sender_done ≡ true) ⊎ (b.lost ≡ []))
    × (length b.opportunities ≤ opportunity_room)

nothing_lost :
    (b : Bot) → b.sender_done ≡ false → (b.sender_done ≡ true) ⊎ (b.lost ≡ []) → b.lost ≡ []
nothing_lost b runs (inl ended) = absurd (cc (sym runs ∙ ended))
nothing_lost b runs (inr kept) = kept

-- Each step moves an end of one list to the other end of the next.
move_found :
    (all ex q p l found : List ℕ)
    → all ≡ ex ++ (q ++ (p ++ l))
    → p ≡ []
    → l ≡ []
    → all ++ found ≡ ex ++ (q ++ (found ++ l))
move_found all ex q p l found order idle kept =
    let joined : (ex ++ (q ++ [])) ++ found ≡ ex ++ (q ++ (found ++ [])) =
      simp (append_assoc, append-nil) refl in
    rw (order, idle, kept) joined

move_sent :
    (all ex q p l rest : List ℕ) (o : ℕ)
    → all ≡ ex ++ (q ++ (p ++ l))
    → p ≡ o ∷ rest
    → all ≡ ex ++ ((q ++ o ∷ []) ++ (rest ++ l))
move_sent all ex q p l rest o order next_one =
    let joined : ex ++ (q ++ ((o ∷ rest) ++ l)) ≡ ex ++ ((q ++ o ∷ []) ++ (rest ++ l)) =
      simp append_assoc refl in
    order ∙ (ap (λ r. ex ++ (q ++ (r ++ l))) next_one ∙ joined)

move_executed :
    (all ex q p l rest : List ℕ) (o : ℕ)
    → all ≡ ex ++ (q ++ (p ++ l))
    → q ≡ o ∷ rest
    → all ≡ (ex ++ o ∷ []) ++ (rest ++ (p ++ l))
move_executed all ex q p l rest o order first =
    let joined : ex ++ ((o ∷ rest) ++ (p ++ l)) ≡ (ex ++ o ∷ []) ++ (rest ++ (p ++ l)) =
      simp append_assoc refl in
    order ∙ (ap (λ r. ex ++ (r ++ (p ++ l))) first ∙ joined)

move_lost :
    (all ex q p l : List ℕ) → all ≡ ex ++ (q ++ (p ++ l)) → l ≡ [] → all ≡ ex ++ (q ++ ([] ++ p))
move_lost all ex q p l order kept =
    order ∙ (ap (λ r. ex ++ (q ++ (p ++ r))) kept ∙ ap (λ r. ex ++ (q ++ r)) (append-nil p))

Step-IsOrdered : (a b : Bot) → Step a b → IsOrdered a → IsOrdered b
unfolding analyse send quit_sending execute
Step-IsOrdered _ _ (analyses b found _ runs idle) (order, lost, room) = (
  move_found b.analysed b.executed b.opportunities b.pending b.lost found order idle
      (nothing_lost b runs lost),
  lost,
  room,
)
Step-IsOrdered _ _ (ends_sending b _ runs idle) (order, lost, room) = (order, inl refl, room)
Step-IsOrdered _ _ (sends b o rest _ runs next_one _ less) (order, lost, room) = (
  move_sent b.analysed b.executed b.opportunities b.pending b.lost rest o order next_one,
  lost,
  omega (arith, length-append b.opportunities (o ∷ [])),
)
Step-IsOrdered _ _ (sends_closed b o rest _ _ _ _) h = h
Step-IsOrdered _ _ (quits_sending b o rest _ runs next_one _) (order, lost, room) = (
  move_lost b.analysed b.executed b.opportunities b.pending b.lost order (nothing_lost b runs lost),
  inl refl,
  room,
)
Step-IsOrdered _ _ (receives b o rest _ _ first) (order, lost, room) =
    let shorter = ap length first in
    (
      move_executed b.analysed b.executed b.opportunities b.pending b.lost rest o order first,
      lost,
      omega (arith, shorter),
    )
Step-IsOrdered _ _ (receives_closed b _ _ _ _) h = h
Step-IsOrdered _ _ (quits_receiving b _ _ _) h = h
Step-IsOrdered _ _ (stops b _ _) h = h
Step-IsOrdered _ _ (stops_again b _ _) h = h
Step-IsOrdered _ _ (cancels b _) h = h

Steps-IsOrdered : (a b : Bot) → Steps a b → IsOrdered a → IsOrdered b
Steps-IsOrdered _ _ (done b) h = h
Steps-IsOrdered _ _ (next a b c s rest) h = Steps-IsOrdered b c rest (Step-IsOrdered a b s h)

-- However the goroutines of a started bot, its Stop and its context interleave, the opportunities
-- found are those executed, those in the channel, those about to be sent and those lost, in this
-- order; none is lost while the sender runs, and the channel holds 100 at most.
pub started-IsOrdered : (b : Bot) → Steps started b → IsOrdered b
started-IsOrdered b run = Steps-IsOrdered started b run (refl, inr refl, omega arith)
