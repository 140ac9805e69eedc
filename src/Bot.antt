-- ===== src/Bot.antt =====
-- cmd/bot/bot.go: the two goroutines of a bot and the channel of opportunities between them, as a
-- step relation. An opportunity is a number; the analysis of a transaction is a step that brings
-- opportunities. `analysed` is what the analysis has found so far, `executed` what
-- executeOpportunity was called on, and `lost` what a sender that quits leaves unsent.
pub mod Order
pub mod Stopping
mod Tests
use profit_monopoly.Prelude.{Bool, List, [], ◌++◌, ◌∷◌, false, true, length, ℕ, ◌<◌, ◌≡◌}

pub record Bot : Type 0 where
  pub pending : List ℕ
  pub opportunities : List ℕ
  pub closed : Bool
  pub cancelled : Bool
  pub sender_done : Bool
  pub receiver_done : Bool
  pub panicked : Bool
  pub analysed : List ℕ
  pub executed : List ℕ
  pub lost : List ℕ

-- `make(chan *mempool.Opportunity, 100)`
abbrev pub opportunity_room : ℕ
opportunity_room = 100

-- A bot after New and Start
abbrev pub started : Bot
started = record {
  pending = [];
  opportunities = [];
  closed = false;
  cancelled = false;
  sender_done = false;
  receiver_done = false;
  panicked = false;
  analysed = [];
  executed = [];
  lost = [];
}

-- The state after a step of the sender, of the receiver, of Stop, or of the context.
unfoldable pub analyse : List ℕ → Bot → Bot
analyse found b = record b { pending = found; analysed = b.analysed ++ found }

unfoldable pub send : ℕ → List ℕ → Bot → Bot
send o rest b = record b { pending = rest; opportunities = b.opportunities ++ o ∷ [] }

unfoldable pub quit_sending : Bot → Bot
quit_sending b = record b { pending = []; lost = b.pending; sender_done = true }

unfoldable pub execute : ℕ → List ℕ → Bot → Bot
execute o rest b = record b { opportunities = rest; executed = b.executed ++ o ∷ [] }

-- A step. A send on a closed channel panics, and so does closing it twice; a receive from a closed
-- channel takes what is in it first. A panic ends the process.
pub data Step : Bot → Bot → Type 0 where
  -- the next transaction; its opportunities are found
  analyses :
      (b : Bot) (found : List ℕ)
      → b.panicked ≡ false
      → b.sender_done ≡ false
      → b.pending ≡ []
      → Step b (analyse found b)
  -- the channel of transactions is closed
  ends_sending :
      (b : Bot)
      → b.panicked ≡ false
      → b.sender_done ≡ false
      → b.pending ≡ []
      → Step b (record b { sender_done = true })
  sends :
      (b : Bot) (o : ℕ) (rest : List ℕ)
      → b.panicked ≡ false
      → b.sender_done ≡ false
      → b.pending ≡ o ∷ rest
      → b.closed ≡ false
      → length b.opportunities < opportunity_room
      → Step b (send o rest b)
  sends_closed :
      (b : Bot) (o : ℕ) (rest : List ℕ)
      → b.panicked ≡ false
      → b.sender_done ≡ false
      → b.pending ≡ o ∷ rest
      → b.closed ≡ true
      → Step b (record b { panicked = true })
  quits_sending :
      (b : Bot) (o : ℕ) (rest : List ℕ)
      → b.panicked ≡ false
      → b.sender_done ≡ false
      → b.pending ≡ o ∷ rest
      → b.cancelled ≡ true
      → Step b (quit_sending b)
  receives :
      (b : Bot) (o : ℕ) (rest : List ℕ)
      → b.panicked ≡ false
      → b.receiver_done ≡ false
      → b.opportunities ≡ o ∷ rest
      → Step b (execute o rest b)
  receives_closed :
      (b : Bot)
      → b.panicked ≡ false
      → b.receiver_done ≡ false
      → b.opportunities ≡ []
      → b.closed ≡ true
      → Step b (record b { receiver_done = true })
  quits_receiving :
      (b : Bot)
      → b.panicked ≡ false
      → b.receiver_done ≡ false
      → b.cancelled ≡ true
      → Step b (record b { receiver_done = true })
  -- Stop up to its wait
  stops : (b : Bot) → b.panicked ≡ false → b.closed ≡ false → Step b (record b { closed = true })
  stops_again :
      (b : Bot) → b.panicked ≡ false → b.closed ≡ true → Step b (record b { panicked = true })
  cancels : (b : Bot) → b.panicked ≡ false → Step b (record b { cancelled = true })

pub data Steps : Bot → Bot → Type 0 where
  done : (b : Bot) → Steps b b
  next : (a b c : Bot) → Step a b → Steps b c → Steps a c

-- Stop returns once both goroutines are done.
abbrev pub StopReturns : Bot → Type 0
StopReturns b = (b.closed ≡ true) × (b.sender_done ≡ true) × (b.receiver_done ≡ true)
