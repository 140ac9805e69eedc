-- ===== src/Network/Standard/Sent.antt =====
-- mempool/network/standard.go: what the counter of sent bytes counts.
use profit_monopoly.Prelude.{
  Bool-cases, List, Option-cases, [], ◌∷◌, arith, inl, inr, length, none, some, true, ok, refl, ◌≡◌,
  ◌≢◌, ◌+◌, ℕ,
}
use profit_monopoly.Network.Standard.{
  Call, Socket, StandardNetworkManager, call, close, close_done, closes_all, initialize,
  initializes, process_transaction, processes, read, reads, receive, receives_from, run_calls, send,
  sends, start, starts, stop, stops, update_metrics, updates, write, writes,
}

-- The bytes of the calls of Send that succeed.
abbrev pub bytes_of : List Call → ℕ
bytes_of [] = 0
bytes_of (sends (some (some _)) bytes ∷ cs) = length bytes + bytes_of cs
bytes_of (_ ∷ cs) = bytes_of cs

abbrev sent_by : Call → ℕ
sent_by c = bytes_of (c ∷ [])

close_done-bytes :
    (s : Socket) (m : StandardNetworkManager)
    → (close_done s m).1.metrics.bytes_sent ≡ m.metrics.bytes_sent
unfolding close_done
close_done-bytes s m = elim (Bool-cases m.done_closed) [
  | inl t ↦ rw (close_done, t) refl
  | inr f ↦ rw (close_done, f) refl
]

call-bytes :
    (c : Call) (m : StandardNetworkManager)
    → (call c m).metrics.bytes_sent ≡ m.metrics.bytes_sent + sent_by c
unfolding call initialize start stop close update_metrics read write process_transaction send
    receive
call-bytes (initializes listen) m = elim (Option-cases m.config) [
  | inl n ↦ rw (call, initialize, n) (omega arith)
  | inr (p, f) ↦ elim (Option-cases listen) [
    | inl n ↦ rw (call, initialize, f, n) (omega arith)
    | inr (s, e) ↦ rw (call, initialize, f, e) (omega arith)
  ]
]
call-bytes starts m = elim (Option-cases m.conn) [
  | inl n ↦ rw (call, start, n) (omega arith)
  | inr (s, e) ↦ rw (call, start, e) (omega arith)
]
call-bytes updates m = omega arith
call-bytes stops m = elim (Option-cases m.conn) [
  | inl n ↦ rw (call, stop, n) (omega arith)
  | inr (s, e) ↦ rw (call, stop, e) (omega (arith, close_done-bytes s m))
]
call-bytes closes_all m = elim (Option-cases m.conn) [
  | inl n ↦ rw (call, close, n) (omega arith)
  | inr (s, e) ↦
      rw (call, close, e)
        (omega (arith, close_done-bytes s (record m { indexer_cancelled = true })))
]
call-bytes (reads room) m = elim (Option-cases m.conn) [
  | inl n ↦ rw (call, read, n) (omega arith)
  | inr (s, e) ↦ elim (Option-cases (s.read_from room)) [
    | inl n ↦ rw (call, read, e, n) (omega arith)
    | inr (bytes, f) ↦ rw (call, read, e, f) (omega arith)
  ]
]
call-bytes (writes bytes) m = elim (Option-cases m.conn) [
  | inl n ↦ rw (call, write, n) (omega arith)
  | inr (s, e) ↦ rw (call, write, e, s.write_to-nil bytes) (omega arith)
]
call-bytes (processes none) m = omega arith
call-bytes (processes (some tx)) m = omega arith
call-bytes (sends none bytes) m = omega arith
call-bytes (sends (some none) bytes) m = omega arith
call-bytes (sends (some (some n)) bytes) m = omega arith
call-bytes (receives_from none) m = omega arith
call-bytes (receives_from (some none)) m = omega arith
call-bytes (receives_from (some (some n))) m = omega arith

bytes_of-cons : (c : Call) (cs : List Call) → bytes_of (c ∷ cs) ≡ sent_by c + bytes_of cs
bytes_of-cons (initializes _) cs = omega arith
bytes_of-cons starts cs = omega arith
bytes_of-cons updates cs = omega arith
bytes_of-cons stops cs = omega arith
bytes_of-cons closes_all cs = omega arith
bytes_of-cons (reads _) cs = omega arith
bytes_of-cons (writes _) cs = omega arith
bytes_of-cons (processes _) cs = omega arith
bytes_of-cons (sends none _) cs = omega arith
bytes_of-cons (sends (some none) _) cs = omega arith
bytes_of-cons (sends (some (some _)) _) cs = omega arith
bytes_of-cons (receives_from _) cs = omega arith

run_calls_bytes :
    (cs : List Call) (m : StandardNetworkManager)
    → (run_calls cs m).metrics.bytes_sent ≡ m.metrics.bytes_sent + bytes_of cs
unfolding run_calls
run_calls_bytes [] m = omega arith
run_calls_bytes (c ∷ cs) m =
    omega (arith, run_calls_bytes cs (call c m), call-bytes c m, bytes_of-cons c cs)

write_fails : (bytes : List ℕ) (n : ℕ) (m : StandardNetworkManager) → (write bytes m).0 ≢ ok n
unfolding write
write_fails bytes n m = elim (Option-cases m.conn) [
  | inl x ↦ rw (write, x) (λ e. absurd (cc e))
  | inr (s, e) ↦ rw (write, e, s.write_to-nil bytes) (λ w. absurd (cc w))
]

-- No Write ever succeeds, since it gives the socket a nil address; and after any calls the counter
-- of sent bytes has grown by the bytes of the calls of Send that succeed and by no others.
pub run_calls-write :
    (cs : List Call) (bytes : List ℕ) (n : ℕ) (m : StandardNetworkManager)
    → let after = run_calls cs m in
      ((write bytes after).0 ≢ ok n)
      × (after.metrics.bytes_sent ≡ m.metrics.bytes_sent + bytes_of cs)
run_calls-write cs bytes n m = (write_fails bytes n (run_calls cs m), run_calls_bytes cs m)
