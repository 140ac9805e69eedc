-- ===== src/Network/Standard.antt =====
-- mempool/network/standard.go: StandardNetworkManager, a UDP socket with an indexer. A method holds
-- the mutex throughout. The socket is a parameter: a record of what its methods do, or the answer of
-- a call as an argument. `done_closed` says that the channel `done` is closed; closing it again
-- panics. The counters are the sums that Prometheus holds; latencies, the context and the options of
-- the socket are left out.
pub mod Shutdown
pub mod Sent
mod Tests
use profit_monopoly.Prelude.{
  Bool, List, Option, [], ◌∷◌, false, true, if◌then◌else◌, length, none, some, suc, take, ℕ, ◌%◌,
  ◌+◌, ◌^◌, ◌≡◌, ◌≤◌, Run, err, ok, panic, ◌>>=◌,
}
use profit_monopoly.Int.{ℤ}
use profit_monopoly.Network.Index.{Transaction, get_effective_gas_price}
use profit_monopoly.Network.Indexer.{MempoolIndexer, add_transaction, low_word, new_mempool_indexer}

pub data NetworkError : Type 0 where
  config_nil listen_failed not_initialized not_connected close_failed : NetworkError
  read_failed write_failed nil_transaction nil_connection send_failed receive_failed : NetworkError

-- A net.PacketConn: ReadFrom with the size of the buffer, and WriteTo, `none` for an error. A UDP
-- socket refuses to write to a nil address.
pub record Socket : Type 0 where
  pub read_from : ℕ → Option (List ℕ)
  pub write_to : Option ℕ → List ℕ → Option ℕ
  pub closes : Bool
  pub read_from-le : (room : ℕ) (bytes : List ℕ) → read_from room ≡ some bytes → length bytes ≤ room
  pub write_to-nil : (bytes : List ℕ) → write_to none bytes ≡ none

pub record NetworkMetrics : Type 0 where
  pub bytes_recv : ℕ
  pub bytes_sent : ℕ
  pub errors : ℕ
  pub tx_count : ℕ
  pub tx_evictions : ℕ
  pub tx_lookups : ℕ
  pub gas_prices : List ℕ

pub record StandardNetworkManager : Type 0 where
  -- the port, `none` for a nil configuration
  pub config : Option ℕ
  pub conn : Option Socket
  pub done_closed : Bool
  pub indexer_cancelled : Bool
  -- how many goroutines run monitorMetrics
  pub monitors : ℕ
  pub indexer : MempoolIndexer
  pub metrics : NetworkMetrics

-- The literal of NewStandardNetworkManager.
unfoldable pub fresh_manager : Option ℕ → StandardNetworkManager
fresh_manager config = record {
  config = config;
  conn = none;
  done_closed = false;
  indexer_cancelled = false;
  monitors = 0;
  indexer = new_mempool_indexer 10000;
  metrics = record {
    bytes_recv = 0;
    bytes_sent = 0;
    errors = 0;
    tx_count = 0;
    tx_evictions = 0;
    tx_lookups = 0;
    gas_prices = [];
  };
}

-- NewStandardNetworkManager, on whether Prometheus takes the metrics: NewNetworkMetrics registers
-- them by promauto under the name "network.standard", which panics on a name that is refused.
unfoldable pub new_standard_network_manager :
    Bool → Option ℕ → Run (Unit {0}) StandardNetworkManager
unfolding fresh_manager
new_standard_network_manager registers config =
    if registers then ok (fresh_manager config) else panic

-- Initialize, with what net.ListenPacket answers.
unfoldable pub initialize :
    Option Socket → StandardNetworkManager → Run NetworkError (Unit {0}) × StandardNetworkManager
initialize listen m = elim m.config [
  | none ↦ (err config_nil, m)
  | some _ ↦ elim listen [
    | none ↦ (err listen_failed, m)
    | some socket ↦ (ok tt, record m { conn = some socket })
  ]
]

-- Start
unfoldable pub start : StandardNetworkManager → Run NetworkError (Unit {0}) × StandardNetworkManager
start m = elim m.conn [
  | none ↦ (err not_initialized, m)
  | some _ ↦ (ok tt, record m { monitors = suc m.monitors })
]

-- updateMetrics, a tick of monitorMetrics
unfoldable pub update_metrics : StandardNetworkManager → StandardNetworkManager
update_metrics m = record m {
  metrics = record m.metrics {
    tx_count = length m.indexer.tx_queue;
    tx_evictions = length m.indexer.tx_by_hash;
    tx_lookups = length m.indexer.tx_by_nonce;
  };
}

-- `close(m.done); return m.conn.Close()`
unfoldable pub close_done :
    Socket → StandardNetworkManager → Run NetworkError (Unit {0}) × StandardNetworkManager
close_done socket m =
    if m.done_closed
    then (panic, m)
    else (if socket.closes then ok tt else err close_failed, record m { done_closed = true })

-- Stop
unfoldable pub stop : StandardNetworkManager → Run NetworkError (Unit {0}) × StandardNetworkManager
unfolding close_done
stop m = elim m.conn [ none ↦ (ok tt, m) | some socket ↦ close_done socket m ]

-- Close
unfoldable pub close : StandardNetworkManager → Run NetworkError (Unit {0}) × StandardNetworkManager
unfolding close_done
close m = elim m.conn [
  | none ↦ (ok tt, m)
  | some socket ↦ close_done socket (record m { indexer_cancelled = true })
]

-- `m.metrics.Errors.Inc()`
unfoldable pub count_error : StandardNetworkManager → StandardNetworkManager
count_error m = record m { metrics = record m.metrics { errors = suc m.metrics.errors } }

unfoldable pub count_recv : ℕ → StandardNetworkManager → StandardNetworkManager
count_recv n m = record m { metrics = record m.metrics { bytes_recv = m.metrics.bytes_recv + n } }

unfoldable pub count_sent : ℕ → StandardNetworkManager → StandardNetworkManager
count_sent n m = record m { metrics = record m.metrics { bytes_sent = m.metrics.bytes_sent + n } }

-- Read into a buffer of `room` bytes
unfoldable pub read :
    ℕ → StandardNetworkManager → Run NetworkError (List ℕ) × StandardNetworkManager
unfolding count_error count_recv
read room m = elim m.conn [
  | none ↦ (err not_connected, m)
  | some socket ↦ elim (socket.read_from room) [
    | none ↦ (err read_failed, count_error m)
    | some bytes ↦ (ok bytes, count_recv (length bytes) m)
  ]
]

-- Write, which gives WriteTo a nil address.
unfoldable pub write : List ℕ → StandardNetworkManager → Run NetworkError ℕ × StandardNetworkManager
unfolding count_error count_sent
write bytes m = elim m.conn [
  | none ↦ (err not_connected, m)
  | some socket ↦ elim (socket.write_to none bytes) [
    | none ↦ (err write_failed, count_error m)
    | some n ↦ (ok n, count_sent n m)
  ]
]

-- ReadPacket
unfoldable pub read_packet :
    StandardNetworkManager → Run NetworkError (List ℕ) × StandardNetworkManager
unfolding read
read_packet m = read 65536 m

-- WritePacket
unfoldable pub write_packet :
    List ℕ → StandardNetworkManager → Run NetworkError (Unit {0}) × StandardNetworkManager
unfolding write
write_packet packet m = let (written, after) = write packet m in (written >>= λ _. ok tt, after)

-- ProcessTransaction
unfoldable pub process_transaction :
    Option Transaction
    → StandardNetworkManager
    → Run NetworkError (Unit {0}) × StandardNetworkManager
unfolding add_transaction get_effective_gas_price
process_transaction none m = (err nil_transaction, m)
process_transaction (some tx) m = (
  ok tt,
  record m {
    indexer = add_transaction tx m.indexer;
    metrics = record m.metrics {
      gas_prices = low_word (get_effective_gas_price tx) ∷ m.metrics.gas_prices;
    };
  },
)

-- The counts of GetMetrics: of the queue, of the map by hash and of the map by nonce.
unfoldable pub get_metrics : StandardNetworkManager → ℕ × ℕ × ℕ
get_metrics m =
    (length m.indexer.tx_queue, length m.indexer.tx_by_hash, length m.indexer.tx_by_nonce)

-- Send over a connection, `none` for nil, with what its Write answers.
unfoldable pub send :
    Option (Option ℕ)
    → List ℕ
    → StandardNetworkManager
    → Run NetworkError (Unit {0}) × StandardNetworkManager
unfolding count_error count_sent
send none bytes m = (err nil_connection, m)
send (some none) bytes m = (err send_failed, count_error m)
send (some (some _)) bytes m = (ok tt, count_sent (length bytes) m)

-- Receive from a connection, `none` for nil, with what its Read answers.
unfoldable pub receive :
    Option (Option ℕ) → StandardNetworkManager → Run NetworkError ℕ × StandardNetworkManager
unfolding count_error count_recv
receive none m = (err nil_connection, m)
receive (some none) m = (err receive_failed, count_error m)
receive (some (some n)) m = (ok n, count_recv n m)

-- The calls that change a manager.
pub data Call : Type 0 where
  initializes : Option Socket → Call
  starts updates stops closes_all : Call
  reads : ℕ → Call
  writes : List ℕ → Call
  processes : Option Transaction → Call
  sends : Option (Option ℕ) → List ℕ → Call
  receives_from : Option (Option ℕ) → Call

unfoldable pub call : Call → StandardNetworkManager → StandardNetworkManager
unfolding initialize start update_metrics stop close read write process_transaction send receive
call (initializes listen) m = (initialize listen m).1
call starts m = (start m).1
call updates m = update_metrics m
call stops m = (stop m).1
call closes_all m = (close m).1
call (reads room) m = (read room m).1
call (writes bytes) m = (write bytes m).1
call (processes tx) m = (process_transaction tx m).1
call (sends conn bytes) m = (send conn bytes m).1
call (receives_from conn) m = (receive conn m).1

unfoldable pub run_calls : List Call → StandardNetworkManager → StandardNetworkManager
unfolding call
run_calls [] m = m
run_calls (c ∷ cs) m = run_calls cs (call c m)
