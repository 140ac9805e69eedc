-- ===== src/Bot/Stopping.antt =====
-- cmd/bot/bot.go: a Stop while the sender has something to send.
use profit_monopoly.Prelude.{
  Bool-cases, List, ◌∷◌, false, true, refl, sym, ◌∙◌, ℕ, ◌≡◌, ◌⊎◌, inl, inr,
}
use profit_monopoly.Bot.{
  Bot, Step, StopReturns, Steps, analyse, analyses, cancels, done, ends_sending, execute, next,
  quit_sending, quits_receiving, quits_sending, receives, receives_closed, send, sends,
  sends_closed, stops, stops_again,
}

-- The channel is closed, and the sender has an opportunity for it.
abbrev IsStuck : Bot → Type 0
IsStuck b =
    (b.closed ≡ true)
    × (b.sender_done ≡ false)
    × ((o : ℕ) × (rest : List ℕ) × (b.pending ≡ o ∷ rest))

-- The context is not cancelled in these steps.
abbrev pub NotCancelled : (a b : Bot) → Steps a b → Type 0
NotCancelled _ _ (done b) = b.cancelled ≡ false
NotCancelled _ _ (next a b c s rest) = (a.cancelled ≡ false) × NotCancelled b c rest

Step-IsStuck : (a b : Bot) → Step a b → a.cancelled ≡ false → IsStuck a → IsStuck b
unfolding analyse send quit_sending execute
Step-IsStuck _ _ (analyses b found _ _ idle) live (closed, runs, (o, rest, p)) =
    absurd (cc (sym idle ∙ p))
Step-IsStuck _ _ (ends_sending b _ _ idle) live (closed, runs, (o, rest, p)) =
    absurd (cc (sym idle ∙ p))
Step-IsStuck _ _ (sends b _ _ _ _ _ open_ _) live (closed, _, _) = absurd (cc (sym open_ ∙ closed))
Step-IsStuck _ _ (sends_closed b _ _ _ _ _ _) live h = h
Step-IsStuck _ _ (quits_sending b _ _ _ _ _ c) live h = absurd (cc (sym live ∙ c))
Step-IsStuck _ _ (receives b _ _ _ _ _) live h = h
Step-IsStuck _ _ (receives_closed b _ _ _ _) live h = h
Step-IsStuck _ _ (quits_receiving b _ _ c) live h = h
Step-IsStuck _ _ (stops b _ _) live (_, runs, p) = (refl, runs, p)
Step-IsStuck _ _ (stops_again b _ _) live h = h
Step-IsStuck _ _ (cancels b _) live h = h

-- No step changes what a stuck sender has to send.
Step-pending : (a b : Bot) → Step a b → a.cancelled ≡ false → IsStuck a → b.pending ≡ a.pending
unfolding analyse send quit_sending execute
Step-pending _ _ (analyses b found _ _ idle) live (closed, runs, (o, rest, p)) =
    absurd (cc (sym idle ∙ p))
Step-pending _ _ (ends_sending b _ _ idle) live (closed, runs, (o, rest, p)) =
    absurd (cc (sym idle ∙ p))
Step-pending _ _ (sends b _ _ _ _ _ open_ _) live (closed, _, _) = absurd (cc (sym open_ ∙ closed))
Step-pending _ _ (sends_closed b _ _ _ _ _ _) live h = refl
Step-pending _ _ (quits_sending b _ _ _ _ _ c) live h = absurd (cc (sym live ∙ c))
Step-pending _ _ (receives b _ _ _ _ _) live h = refl
Step-pending _ _ (receives_closed b _ _ _ _) live h = refl
Step-pending _ _ (quits_receiving b _ _ c) live h = refl
Step-pending _ _ (stops b _ _) live h = refl
Step-pending _ _ (stops_again b _ _) live h = refl
Step-pending _ _ (cancels b _) live h = refl

Steps-pending :
    (a b : Bot) (run : Steps a b) → NotCancelled a b run → IsStuck a → b.pending ≡ a.pending
Steps-pending _ _ (done b) live h = refl
Steps-pending _ _ (next a b c s rest) (live, later) h =
    Steps-pending b c rest later (Step-IsStuck a b s live h) ∙ Step-pending a b s live h

Steps-IsStuck : (a b : Bot) (run : Steps a b) → NotCancelled a b run → IsStuck a → IsStuck b
Steps-IsStuck _ _ (done b) live h = h
Steps-IsStuck _ _ (next a b c s rest) (live, later) h =
    Steps-IsStuck b c rest later (Step-IsStuck a b s live h)

-- When Stop has closed the channel while the sender has an opportunity to send, then in each state
-- that the bot can reach while the context is not cancelled the wait of Stop has not ended, the
-- sender has sent none of what it had to send and has not ended, and the bot has panicked or a
-- step of the sender that panics is possible.
pub stop_stuck :
    (a b : Bot) (o : ℕ) (rest : List ℕ) (run : Steps a b)
    → NotCancelled a b run
    → a.closed ≡ true
    → a.sender_done ≡ false
    → a.pending ≡ o ∷ rest
    → (¬ StopReturns b)
      × (b.pending ≡ o ∷ rest)
      × (b.sender_done ≡ false)
      × ((b.panicked ≡ true) ⊎ Step b (record b { panicked = true }))
stop_stuck a b o rest run live closed runs p =
    let (shut, going, (q, qs, left)) = Steps-IsStuck a b run live (closed, runs, (o, rest, p)) in
    (
      λ (_, ended, _). absurd (cc (sym going ∙ ended)),
      Steps-pending a b run live (closed, runs, (o, rest, p)) ∙ p,
      going,
      elim (Bool-cases b.panicked) [
        | inl t ↦ inl t
        | inr n ↦ inr (sends_closed b q qs n going left shut)
      ],
    )
