-- ===== src/Network/Optimizer/Counting.antt =====
-- mempool/network/network.go: what the counters of a NetworkOptimizer count.
use profit_monopoly.Prelude.{
  Bool, Bool-cases, List, [], ◌∷◌, arith, false, if◌then◌else◌, inl, inr, none, refl, some, suc,
  zero, ℕ, ◌%◌, ◌+◌, ◌^◌, ◌≡◌, ap, ◌∙◌,
}
use profit_monopoly.Network.Optimizer.{
  Conn, NetworkOptimizer, Use, conn_optimizes, optimize_conn, optimize_rx_queue, optimize_tx_queue,
  processed_one, receive, receives, report_tick, run_uses, rx_optimizes, send, sends, ticks,
  tx_optimizes, use_once,
}

abbrev all_options : Conn → Bool
all_options c =
    if c.is_tcp
    then (if c.keep_alive
        then (if c.keep_alive_period
            then (if c.read_buffer then c.write_buffer else false)
            else false)
        else false)
    else false

-- How many errors a use should count: a connection that is not nil refuses.
abbrev pub failures : Use → ℕ
failures (conn_optimizes (some c)) = if all_options c then 0 else 1
failures (sends (some none) (_ ∷ _)) = 1
failures (receives (some none) (suc _)) = 1
failures _ = 0

abbrev pub failures_of : List Use → ℕ
failures_of [] = 0
failures_of (u ∷ us) = failures u + failures_of us

-- What the ticks report of the packets that the receive queue has processed so far.
abbrev pub reports : ℕ → List Use → ℕ
reports processed [] = 0
reports processed (ticks ∷ us) = processed + reports processed us
reports processed (rx_optimizes ∷ us) = reports ((processed + 1) % 2 ^ 64) us
reports processed (_ ∷ us) = reports processed us

-- Nothing is ever dropped.
abbrev NoDrops : NetworkOptimizer → Type 0
NoDrops n = (n.rx_stats.dropped_packets ≡ 0) × (n.tx_stats.dropped_packets ≡ 0)

optimize_conn_lem :
    (c : Conn) (n : NetworkOptimizer)
    → let after = (optimize_conn (some c) n).1 in
      (after.metrics.errors ≡ n.metrics.errors + (if all_options c then 0 else 1))
      × (after.metrics.rx_packets ≡ n.metrics.rx_packets)
      × (after.rx_stats ≡ n.rx_stats)
      × (after.tx_stats ≡ n.tx_stats)
unfolding optimize_conn
optimize_conn_lem c n = elim (Bool-cases c.is_tcp) [
  | inr x ↦ rw (optimize_conn, x) (omega arith, refl, refl, refl)
  | inl t ↦ elim (Bool-cases c.keep_alive) [
    | inr x ↦ rw (optimize_conn, t, x) (omega arith, refl, refl, refl)
    | inl k ↦ elim (Bool-cases c.keep_alive_period) [
      | inr x ↦ rw (optimize_conn, t, k, x) (omega arith, refl, refl, refl)
      | inl p ↦ elim (Bool-cases c.read_buffer) [
        | inr x ↦ rw (optimize_conn, t, k, p, x) (omega arith, refl, refl, refl)
        | inl r ↦ elim (Bool-cases c.write_buffer) [
          | inr x ↦ rw (optimize_conn, t, k, p, r, x) (omega arith, refl, refl, refl)
          | inl w ↦ rw (optimize_conn, t, k, p, r, w) (omega arith, refl, refl, refl)
        ]
      ]
    ]
  ]
]

report_tick_lem :
    (n : NetworkOptimizer)
    → NoDrops n
    → ((report_tick n).metrics.errors ≡ n.metrics.errors)
      × ((report_tick n).metrics.rx_packets ≡ n.metrics.rx_packets + n.rx_stats.packets_processed)
unfolding report_tick
report_tick_lem n (rx, tx) = (rw (report_tick, rx, tx) refl, ground arith)

-- Any uses of an optimizer that has dropped nothing add to its counter of errors one for each use
-- that a connection refuses and for nothing else, and to its counter of received packets, for each
-- tick, all the packets that the receive queue had processed by then, counted modulo 2^64, so that
-- a packet is counted at every tick that follows it.
pub run_uses_counts :
    (us : List Use) (n : NetworkOptimizer)
    → NoDrops n
    → ((run_uses us n).metrics.errors ≡ n.metrics.errors + failures_of us)
      × ((run_uses us n).metrics.rx_packets
          ≡ n.metrics.rx_packets + reports n.rx_stats.packets_processed us)
unfolding run_uses use_once optimize_rx_queue optimize_tx_queue processed_one send receive
    report_tick optimize_conn
run_uses_counts [] n clean = (omega arith, omega arith)
run_uses_counts (ticks ∷ us) n clean =
    let (errors, packets) = report_tick_lem n clean in
    let (all, rx) = run_uses_counts us (report_tick n) clean in
    (omega (arith, errors, all), omega (arith, packets, rx))
run_uses_counts (rx_optimizes ∷ us) n clean =
    let (all, rx) = run_uses_counts us (optimize_rx_queue n) clean in (omega (arith, all), rx)
run_uses_counts (tx_optimizes ∷ us) n clean =
    let (all, rx) = run_uses_counts us (optimize_tx_queue n) clean in (omega (arith, all), rx)
run_uses_counts (conn_optimizes none ∷ us) n clean =
    let (all, rx) = run_uses_counts us n clean in (omega (arith, all), rx)
run_uses_counts (conn_optimizes (some c) ∷ us) n (rx_clean, tx_clean) =
    let (errors, packets, rx_stats, tx_stats) = optimize_conn_lem c n in
    let after = (optimize_conn (some c) n).1 in
    let (all, rx) = run_uses_counts us after (
      ap (λ s. s.dropped_packets) rx_stats ∙ rx_clean,
      ap (λ s. s.dropped_packets) tx_stats ∙ tx_clean,
    ) in
    let same = ap (λ s. reports s.packets_processed us) rx_stats in
    (omega (arith, errors, all), omega (arith, packets, rx, same))
run_uses_counts (sends none bytes ∷ us) n clean =
    let (all, rx) = run_uses_counts us n clean in (omega (arith, all), rx)
run_uses_counts (sends (some none) [] ∷ us) n clean =
    let (all, rx) = run_uses_counts us n clean in (omega (arith, all), rx)
run_uses_counts (sends (some (some k)) [] ∷ us) n clean =
    let (all, rx) = run_uses_counts us n clean in (omega (arith, all), rx)
run_uses_counts (sends (some none) (b ∷ bytes) ∷ us) n clean =
    let (all, rx) = run_uses_counts us (use_once (sends (some none) (b ∷ bytes)) n) clean in
    (omega (arith, all), rx)
run_uses_counts (sends (some (some k)) (b ∷ bytes) ∷ us) n clean =
    let (all, rx) = run_uses_counts us (use_once (sends (some (some k)) (b ∷ bytes)) n) clean in
    (omega (arith, all), rx)
run_uses_counts (receives none room ∷ us) n clean =
    let (all, rx) = run_uses_counts us n clean in (omega (arith, all), rx)
run_uses_counts (receives (some none) zero ∷ us) n clean =
    let (all, rx) = run_uses_counts us n clean in (omega (arith, all), rx)
run_uses_counts (receives (some (some k)) zero ∷ us) n clean =
    let (all, rx) = run_uses_counts us n clean in (omega (arith, all), rx)
run_uses_counts (receives (some none) (suc room) ∷ us) n clean =
    let (all, rx) = run_uses_counts us (use_once (receives (some none) (suc room)) n) clean in
    (omega (arith, all), rx)
run_uses_counts (receives (some (some k)) (suc room) ∷ us) n clean =
    let (all, rx) = run_uses_counts us (use_once (receives (some (some k)) (suc room)) n) clean in
    (omega (arith, all), rx)
