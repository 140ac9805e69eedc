-- ===== src/Network/Standard/Shutdown.antt =====
-- mempool/network/standard.go: a manager that was stopped or closed.
use profit_monopoly.Prelude.{
  Bool-cases, List, Option-cases, [], ◌∷◌, true, inl, inr, none, some, panic, refl, Run, ◌≡◌, ◌≢◌,
}
use profit_monopoly.Network.Standard.{
  Call, NetworkError, Socket, StandardNetworkManager, call, close, close_done, closes_all,
  initialize, initializes, process_transaction, processes, read, reads, receive, receives_from,
  run_calls, send, sends, start, starts, stop, stops, update_metrics, updates, write, writes,
}

pub data Ending : Type 0 where
  stopping closing : Ending

abbrev pub end :
    Ending → StandardNetworkManager → Run NetworkError (Unit {0}) × StandardNetworkManager
end stopping m = stop m
end closing m = close m

-- The channel is closed, and a connection is set.
abbrev IsShut : StandardNetworkManager → Type 0
IsShut m = (m.done_closed ≡ true) × ((s : Socket) × (m.conn ≡ some s))

end_shut : (a : Ending) (m : StandardNetworkManager) → IsShut m → (end a m).0 ≡ panic
unfolding stop close close_done
end_shut stopping m (closed, (s, e)) = rw (stop, e, closed) refl
end_shut closing m (closed, (s, e)) = rw (close, e, closed) refl

end_first :
    (a : Ending) (m : StandardNetworkManager)
    → (m.conn ≢ none)
    → ((end a m).0 ≢ panic)
    → IsShut (end a m).1
unfolding stop close close_done
end_first stopping m set first = elim (Option-cases m.conn) [
  | inl n ↦ absurd (set n)
  | inr (s, e) ↦ elim (Bool-cases m.done_closed) [
    | inl t ↦ absurd (first (end_shut stopping m (t, (s, e))))
    | inr f ↦ rw (stop, e, f) (refl, (s, e))
  ]
]
end_first closing m set first = elim (Option-cases m.conn) [
  | inl n ↦ absurd (set n)
  | inr (s, e) ↦ elim (Bool-cases m.done_closed) [
    | inl t ↦ absurd (first (end_shut closing m (t, (s, e))))
    | inr f ↦ rw (close, e, f) (refl, (s, e))
  ]
]

call-IsShut : (c : Call) (m : StandardNetworkManager) → IsShut m → IsShut (call c m)
unfolding call initialize start stop close close_done update_metrics read write process_transaction
    send receive
call-IsShut (initializes none) m (closed, (s, e)) = elim (Option-cases m.config) [
  | inl n ↦ rw (call, initialize, n) (closed, (s, e))
  | inr (p, f) ↦ rw (call, initialize, f) (closed, (s, e))
]
call-IsShut (initializes (some t)) m (closed, (s, e)) = elim (Option-cases m.config) [
  | inl n ↦ rw (call, initialize, n) (closed, (s, e))
  | inr (p, f) ↦ rw (call, initialize, f) (closed, (t, refl))
]
call-IsShut starts m (closed, (s, e)) = rw (call, start, e) (closed, (s, e))
call-IsShut updates m h = h
call-IsShut stops m (closed, (s, e)) = rw (call, stop, e, closed) (refl, (s, e))
call-IsShut closes_all m (closed, (s, e)) = rw (call, close, e, closed) (refl, (s, e))
call-IsShut (reads room) m (closed, (s, e)) = elim (Option-cases (s.read_from room)) [
  | inl n ↦ rw (call, read, e, n) (closed, (s, e))
  | inr (bytes, f) ↦ rw (call, read, e, f) (closed, (s, e))
]
call-IsShut (writes bytes) m (closed, (s, e)) =
    rw (call, write, e, s.write_to-nil bytes) (closed, (s, e))
call-IsShut (processes none) m h = h
call-IsShut (processes (some tx)) m h = h
call-IsShut (sends none bytes) m h = h
call-IsShut (sends (some none) bytes) m h = h
call-IsShut (sends (some (some n)) bytes) m h = h
call-IsShut (receives_from none) m h = h
call-IsShut (receives_from (some none)) m h = h
call-IsShut (receives_from (some (some n))) m h = h

run_calls-IsShut :
    (cs : List Call) (m : StandardNetworkManager) → IsShut m → IsShut (run_calls cs m)
unfolding run_calls
run_calls-IsShut [] m h = h
run_calls-IsShut (c ∷ cs) m h = run_calls-IsShut cs (call c m) (call-IsShut c m h)

-- Once Stop or Close has returned on a manager that has a connection, every later Stop or Close
-- panics, whatever calls are made in between, a new Initialize included.
pub end_twice :
    (m : StandardNetworkManager) (cs : List Call) (a b : Ending)
    → m.conn ≢ none
    → (end a m).0 ≢ panic
    → (end b (run_calls cs (end a m).1)).0 ≡ panic
end_twice m cs a b set first =
    end_shut b (run_calls cs (end a m).1)
      (run_calls-IsShut cs (end a m).1 (end_first a m set first))
