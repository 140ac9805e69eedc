-- ===== src/Network/Optimizer.antt =====
-- mempool/network/network.go: NetworkOptimizer. A method holds the mutex throughout. A connection is
-- what its calls answer. The counters are the sums that Prometheus holds; latencies are left out.
pub mod Counting
mod Tests
use profit_monopoly.Prelude.{
  Bool, List, Option, [], ◌∷◌, false, true, if◌then◌else◌, length, ltb, none, not, some, suc, zero,
  ℕ, ◌%◌, ◌+◌, ◌^◌, ◌||◌, Run, err, ok, panic, guard, or_err, ◌>>=◌, ◌>>◌,
}
use profit_monopoly.Int.{leb_ℤ, pos, ℤ}

pub record OptimizerConfig : Type 0 where
  pub rx_queue_size : ℤ
  pub tx_queue_size : ℤ
  pub enable_huge_pages : Bool

pub data OptimizerError : Type 0 where
  logger_nil config_nil queue_sizes connection_nil not_tcp option_failed : OptimizerError
  data_empty buffer_empty send_failed receive_failed huge_pages_disabled : OptimizerError

pub record QueueStats : Type 0 where
  pub packets_processed : ℕ
  pub dropped_packets : ℕ

pub record ConnMetrics : Type 0 where
  pub rx_packets : ℕ
  pub tx_packets : ℕ
  pub errors : ℕ
  pub connections : ℕ
  pub bytes_sent : ℕ
  pub bytes_recv : ℕ

pub record NetworkOptimizer : Type 0 where
  pub config : OptimizerConfig
  pub rx_stats : QueueStats
  pub tx_stats : QueueStats
  pub metrics : ConnMetrics

-- A net.Conn: whether it is a TCP connection, and whether the four options are set.
pub record Conn : Type 0 where
  pub is_tcp : Bool
  pub keep_alive : Bool
  pub keep_alive_period : Bool
  pub read_buffer : Bool
  pub write_buffer : Bool

unfoldable pub no_packets : QueueStats
no_packets = record { packets_processed = 0; dropped_packets = 0 }

-- The optimizer that the constructor builds
unfoldable pub fresh_optimizer : OptimizerConfig → NetworkOptimizer
unfolding no_packets
fresh_optimizer config = record {
  config = config;
  rx_stats = no_packets;
  tx_stats = no_packets;
  metrics = record {
    rx_packets = 0;
    tx_packets = 0;
    errors = 0;
    connections = 0;
    bytes_sent = 0;
    bytes_recv = 0;
  };
}

-- NewNetworkOptimizer, with a logger or without, and on whether Prometheus takes the metrics:
-- NewNetworkMetrics registers them by promauto under the name "network.optimizer", which panics on
-- a name that is refused. They are never nil.
unfoldable pub new_network_optimizer :
    Bool → Bool → Option OptimizerConfig → Run OptimizerError NetworkOptimizer
unfolding fresh_optimizer
new_network_optimizer registers logger config = do
  guard logger logger_nil
  c ← or_err config config_nil
  guard (not (leb_ℤ c.rx_queue_size (pos 0) || leb_ℤ c.tx_queue_size (pos 0))) queue_sizes
  if registers then ok (fresh_optimizer c) else panic

-- A tick of reportMetrics; a sum of two uint64 wraps around.
unfoldable pub report_tick : NetworkOptimizer → NetworkOptimizer
report_tick n =
    let rx = n.rx_stats.packets_processed in
    let tx = n.tx_stats.packets_processed in
    let dropped = (n.rx_stats.dropped_packets + n.tx_stats.dropped_packets) % 2 ^ 64 in
    let some_dropped = ltb 0 n.rx_stats.dropped_packets || ltb 0 n.tx_stats.dropped_packets in
    record n {
      metrics = record n.metrics {
        rx_packets = if ltb 0 rx then n.metrics.rx_packets + rx else n.metrics.rx_packets;
        tx_packets = if ltb 0 tx then n.metrics.tx_packets + tx else n.metrics.tx_packets;
        errors = if some_dropped then n.metrics.errors + dropped else n.metrics.errors;
      };
    }

unfoldable pub processed_one : QueueStats → QueueStats
processed_one s = record s { packets_processed = (s.packets_processed + 1) % 2 ^ 64 }

-- OptimizeRxQueue and OptimizeTxQueue
unfoldable pub optimize_rx_queue : NetworkOptimizer → NetworkOptimizer
unfolding processed_one
optimize_rx_queue n = record n { rx_stats = processed_one n.rx_stats }

unfoldable pub optimize_tx_queue : NetworkOptimizer → NetworkOptimizer
unfolding processed_one
optimize_tx_queue n = record n { tx_stats = processed_one n.tx_stats }

-- SetupHugePages
unfoldable pub setup_huge_pages : NetworkOptimizer → Run OptimizerError (Unit {0})
setup_huge_pages n = guard n.config.enable_huge_pages huge_pages_disabled

-- `n.metrics.Errors.Inc()` before an error is returned
abbrev pub count_failure {ℓ} :
    {A : Type ℓ} → OptimizerError → NetworkOptimizer → Run OptimizerError A × NetworkOptimizer
count_failure e n =
    (err e, record n { metrics = record n.metrics { errors = suc n.metrics.errors } })

-- OptimizeConn; `none` is a nil connection.
unfoldable pub optimize_conn :
    Option Conn → NetworkOptimizer → Run OptimizerError (Unit {0}) × NetworkOptimizer
optimize_conn none n = (err connection_nil, n)
optimize_conn (some conn) n =
    let counted = record n {
      metrics = record n.metrics { connections = suc n.metrics.connections };
    } in
    if conn.is_tcp
    then (if conn.keep_alive
        then (if conn.keep_alive_period
            then (if conn.read_buffer
                then (if conn.write_buffer
                    then (ok tt, counted)
                    else count_failure option_failed counted)
                else count_failure option_failed counted)
            else count_failure option_failed counted)
        else count_failure option_failed counted)
    else count_failure not_tcp counted

-- Send, with what the Write of the connection answers, `none` for an error.
unfoldable pub send :
    Option (Option ℕ) → List ℕ → NetworkOptimizer → Run OptimizerError (Unit {0}) × NetworkOptimizer
send none bytes n = (err connection_nil, n)
send (some answer) [] n = (err data_empty, n)
send (some none) (b ∷ bytes) n = count_failure send_failed n
send (some (some _)) (b ∷ bytes) n = (
  ok tt,
  record n {
    metrics = record n.metrics { bytes_sent = n.metrics.bytes_sent + suc (length bytes) };
  },
)

-- Receive into a buffer of `room` bytes, with what the Read of the connection answers.
unfoldable pub receive :
    Option (Option ℕ) → ℕ → NetworkOptimizer → Run OptimizerError ℕ × NetworkOptimizer
receive none room n = (err connection_nil, n)
receive (some answer) zero n = (err buffer_empty, n)
receive (some none) (suc room) n = count_failure receive_failed n
receive (some (some k)) (suc room) n =
    (ok k, record n { metrics = record n.metrics { bytes_recv = n.metrics.bytes_recv + k } })

-- What changes an optimizer.
pub data Use : Type 0 where
  ticks rx_optimizes tx_optimizes : Use
  conn_optimizes : Option Conn → Use
  sends : Option (Option ℕ) → List ℕ → Use
  receives : Option (Option ℕ) → ℕ → Use

unfoldable pub use_once : Use → NetworkOptimizer → NetworkOptimizer
unfolding report_tick optimize_rx_queue optimize_tx_queue optimize_conn send receive
use_once ticks n = report_tick n
use_once rx_optimizes n = optimize_rx_queue n
use_once tx_optimizes n = optimize_tx_queue n
use_once (conn_optimizes conn) n = (optimize_conn conn n).1
use_once (sends conn bytes) n = (send conn bytes n).1
use_once (receives conn room) n = (receive conn room n).1

unfoldable pub run_uses : List Use → NetworkOptimizer → NetworkOptimizer
unfolding use_once
run_uses [] n = n
run_uses (u ∷ us) n = run_uses us (use_once u n)
