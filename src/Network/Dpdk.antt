-- ===== src/Network/Dpdk.antt =====
-- mempool/network/dpdk_network.go: DPDKNetworkManager, which moves packet buffers between a network
-- card, two rings and its callers. The calls of DPDK are parameters: a record of what they do, and
-- the answers of the calls as arguments. `handed`, `freed` and `sent` are the buffers that DPDK has
-- handed over, those it was given back by rte_pktmbuf_free and those rte_eth_tx_burst took, by
-- their addresses. The counters are what Prometheus adds up.
pub mod Count
pub mod Ledger
pub mod Packets
mod Tests
use profit_monopoly.Prelude.{
  Bool, List, Option, [], ◌++◌, ◌∷◌, false, true, if◌then◌else◌, length, ltb, map, none, some, take,
  zero, suc, ℕ, ◌%◌, ◌+◌, ◌-◌, ◌^◌, ◌≡◌, ◌≤◌, ◌&&◌, Run, err, ok, panic, guard, or_err, ◌>>=◌, ◌>>◌,
}
use profit_monopoly.Int.{ltb_ℤ, pos, ℤ}

-- A struct rte_mbuf, by its address.
pub record Mbuf : Type 0 where
  pub address : ℕ
  pub bytes : List ℕ
  pub data_len : ℕ

abbrev pub max_rx_pkt_burst : ℕ
max_rx_pkt_burst = 32

abbrev pub max_tx_pkt_burst : ℕ
max_tx_pkt_burst = 32

-- rte_ring and rte_eth_tx_burst.
pub record Dpdk : Type 0 where
  -- the bytes that a buffer of the pool has room for (RTE_MBUF_DEFAULT_BUF_SIZE less its headroom)
  pub data_room : ℕ
  -- `none` for a negative answer
  pub enqueue : List Mbuf → Mbuf → Option (List Mbuf)
  pub dequeue : List Mbuf → Option (Mbuf × List Mbuf)
  -- what a burst takes, and what stays
  pub dequeue_burst : ℕ → List Mbuf → List Mbuf × List Mbuf
  pub tx_burst : List Mbuf → ℕ
  pub enqueue-some : (r s : List Mbuf) (p : Mbuf) → enqueue r p ≡ some s → s ≡ r ++ p ∷ []
  pub dequeue-some : (r s : List Mbuf) (p : Mbuf) → dequeue r ≡ some (p, s) → r ≡ p ∷ s
  pub burst-append : (n : ℕ) (r : List Mbuf) → (dequeue_burst n r).0 ++ (dequeue_burst n r).1 ≡ r
  pub burst-le : (n : ℕ) (r : List Mbuf) → length (dequeue_burst n r).0 ≤ n
  pub tx_burst-le : (r : List Mbuf) → tx_burst r ≤ length r

pub record Counters : Type 0 where
  pub rx_packets : ℕ
  pub tx_packets : ℕ
  pub rx_bytes : ℕ
  pub rx_errors : ℕ
  pub tx_errors : ℕ

pub record DpdkNetworkManager : Type 0 where
  pub running : Bool
  pub rx_looping : Bool
  pub tx_looping : Bool
  pub port_open : Bool
  pub rx_ring : List Mbuf
  pub tx_ring : List Mbuf
  pub metrics : Counters
  pub handed : List ℕ
  pub freed : List ℕ
  pub sent : List ℕ

pub data PortError : Type 0 where
  eal_failed mempool_failed configure_failed rx_queue_failed tx_queue_failed : PortError
  start_failed rx_ring_failed tx_ring_failed already_running alloc_failed enqueue_failed : PortError

-- What the calls of the constructor answer; `false` is a nil pointer.
pub record Answers : Type 0 where
  pub eal_init : ℤ
  pub pool_create : Bool
  pub dev_configure : ℤ
  pub rx_queue_setup : ℤ
  pub tx_queue_setup : ℤ
  pub dev_start : ℤ
  pub rx_ring_create : Bool
  pub tx_ring_create : Bool

-- `ret < 0`
abbrev pub succeeded : ℤ → Bool
succeeded ret = if ltb_ℤ ret (pos 0) then false else true

-- initializePort
unfoldable pub initialize_port : Answers → Run PortError (Unit {0})
initialize_port a = do
  guard (succeeded a.dev_configure) configure_failed
  guard (succeeded a.rx_queue_setup) rx_queue_failed
  guard (succeeded a.tx_queue_setup) tx_queue_failed
  guard (succeeded a.dev_start) start_failed

-- createRings, with one queue each way.
unfoldable pub create_rings : Answers → Run PortError (Unit {0})
create_rings a = do guard a.rx_ring_create rx_ring_failed; guard a.tx_ring_create tx_ring_failed

-- The manager that the constructor builds.
unfoldable pub idle_manager : DpdkNetworkManager
idle_manager = record {
  running = false;
  rx_looping = false;
  tx_looping = false;
  port_open = true;
  rx_ring = [];
  tx_ring = [];
  metrics = record { rx_packets = 0; tx_packets = 0; rx_bytes = 0; rx_errors = 0; tx_errors = 0 };
  handed = [];
  freed = [];
  sent = [];
}

-- NewDPDKNetworkManager; a failure to pin the cores is only logged.
unfoldable pub new_dpdk_network_manager : Answers → Run PortError DpdkNetworkManager
unfolding initialize_port create_rings idle_manager
new_dpdk_network_manager a = do
  guard (succeeded a.eal_init) eal_failed
  guard a.pool_create mempool_failed
  initialize_port a
  create_rings a
  ok idle_manager

-- Start
unfoldable pub start : DpdkNetworkManager → Run PortError DpdkNetworkManager
start m =
    if m.running
    then err already_running
    else ok (record m { running = true; rx_looping = true; tx_looping = true })

-- Stop, which waits for the two loops; they end when they see the flag.
unfoldable pub stop : DpdkNetworkManager → DpdkNetworkManager
stop m =
    if m.running
    then record m { running = false; rx_looping = false; tx_looping = false; port_open = false }
    else m

abbrev pub addresses : List Mbuf → List ℕ
addresses = map λ p. p.address

abbrev pub drop_mbufs : ℕ → List Mbuf → List Mbuf
drop_mbufs zero r = r
drop_mbufs (suc n) [] = []
drop_mbufs (suc n) (p ∷ r) = drop_mbufs n r

-- What happens to a manager: calls of its methods, rounds of its loops, and the end of a loop when
-- the context is done.
pub data PortEvent : Type 0 where
  starts stops rx_ends tx_ends tx_rounds : PortEvent
  rx_rounds : List Mbuf → PortEvent
  reads : ℕ → PortEvent
  writes : Option ℕ → List ℕ → PortEvent

-- The buffer that Write fills, with bytes that it has room for; its length field has 16 bits.
unfoldable pub packet : ℕ → List ℕ → Mbuf
packet address bytes = record { address = address; bytes = bytes; data_len = length bytes % 2 ^ 16 }

module _ (d : Dpdk) where
  -- A packet that rte_eth_rx_burst hands over: it enters the ring, or it is freed.
  unfoldable pub rx_packet : Mbuf → DpdkNetworkManager → DpdkNetworkManager
  rx_packet p m =
      let counted = record m {
        handed = p.address ∷ m.handed;
        metrics = record m.metrics { rx_bytes = m.metrics.rx_bytes + p.data_len };
      } in
      elim (d.enqueue m.rx_ring p) [
        | some ring ↦ record counted { rx_ring = ring }
        | none ↦ record counted {
          freed = p.address ∷ m.freed;
          metrics = record counted.metrics { rx_errors = suc m.metrics.rx_errors };
        }
      ]

  unfoldable pub rx_packets_of : List Mbuf → DpdkNetworkManager → DpdkNetworkManager
  unfolding rx_packet
  rx_packets_of [] m = m
  rx_packets_of (p ∷ ps) m = rx_packets_of ps (rx_packet p m)

  -- A round of rxLoop
  unfoldable pub rx_round : List Mbuf → DpdkNetworkManager → DpdkNetworkManager
  unfolding rx_packets_of
  rx_round burst m =
      rx_packets_of burst (record m {
        metrics = record m.metrics { rx_packets = m.metrics.rx_packets + length burst };
      })

  -- A round of txLoop; a burst that takes nothing changes nothing.
  unfoldable pub tx_round : DpdkNetworkManager → DpdkNetworkManager
  tx_round m =
      let (bufs, ring) = d.dequeue_burst max_tx_pkt_burst m.tx_ring in
      let n = d.tx_burst bufs in
      record m {
        tx_ring = ring;
        sent = addresses (take n bufs) ++ m.sent;
        freed = addresses (drop_mbufs n bufs) ++ m.freed;
        metrics = record m.metrics {
          tx_packets = m.metrics.tx_packets + n;
          tx_errors = m.metrics.tx_errors + (length bufs - n);
        };
      }

  -- Read into a buffer of `room` bytes: the bytes that are copied, and the manager.
  unfoldable pub read : ℕ → DpdkNetworkManager → List ℕ × DpdkNetworkManager
  read room m = elim (d.dequeue m.rx_ring) [
    | none ↦ ([], m)
    | some (p, ring) ↦
        let n = if ltb room p.data_len then room else p.data_len in
        (take n p.bytes, record m { rx_ring = ring; freed = p.address ∷ m.freed })
  ]

  -- Write, with the buffer that rte_pktmbuf_alloc answers. `p[0]` of an empty slice panics. The
  -- memcpy has no test of the length: beyond the room of the buffer it overwrites other memory, and
  -- there is no outcome to state; this is a panic too.
  unfoldable pub write :
      Option ℕ → List ℕ → DpdkNetworkManager → Run PortError ℕ × DpdkNetworkManager
  unfolding packet
  write none bytes m = (err alloc_failed, m)
  write (some address) [] m = (panic, record m { handed = address ∷ m.handed })
  write (some address) (b ∷ bytes) m =
      let allocated = record m { handed = address ∷ m.handed } in
      if ltb d.data_room (suc (length bytes))
      then (panic, allocated)
      else elim (d.enqueue m.tx_ring (packet address (b ∷ bytes))) [
        | none ↦ (err enqueue_failed, record allocated { freed = address ∷ m.freed })
        | some ring ↦ (ok (suc (length bytes)), record allocated { tx_ring = ring })
      ]

  unfoldable pub port_step : PortEvent → DpdkNetworkManager → DpdkNetworkManager
  unfolding start stop rx_round tx_round read write
  port_step starts m = elim (start m) [ ok started ↦ started | err _ ↦ m | panic ↦ m ]
  port_step stops m = stop m
  port_step rx_ends m = record m { rx_looping = false }
  port_step tx_ends m = record m { tx_looping = false }
  port_step tx_rounds m = if m.running && m.tx_looping then tx_round m else m
  port_step (rx_rounds burst) m = if m.running && m.rx_looping then rx_round burst m else m
  port_step (reads room) m = (read room m).1
  port_step (writes alloc bytes) m = (write alloc bytes m).1

  unfoldable pub run_port : List PortEvent → DpdkNetworkManager → DpdkNetworkManager
  unfolding port_step
  run_port [] m = m
  run_port (e ∷ es) m = run_port es (port_step e m)
