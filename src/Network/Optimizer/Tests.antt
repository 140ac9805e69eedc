-- ===== src/Network/Optimizer/Tests.antt =====
-- mempool/network/network.go: the theorem on a short history.
use profit_monopoly.Prelude.{List, [], ◌∷◌, false, none, refl, some, true, ◌≡◌, ◌+◌}
use profit_monopoly.Int.{pos}
use profit_monopoly.Network.Optimizer.{
  Conn, OptimizerConfig, Use, conn_optimizes, fresh_optimizer, receives, run_uses, rx_optimizes,
  sends, ticks,
}
use profit_monopoly.Network.Optimizer.Counting.{failures_of, reports, run_uses_counts}

abbrev config : OptimizerConfig
config = record { rx_queue_size = pos 1024; tx_queue_size = pos 1024; enable_huge_pages = false }

abbrev pipe : Conn
pipe = record {
  is_tcp = false;
  keep_alive = true;
  keep_alive_period = true;
  read_buffer = true;
  write_buffer = true;
}

abbrev uses : List Use
uses =
    rx_optimizes
    ∷ ticks
    ∷ conn_optimizes (some pipe)
    ∷ sends (some none) (4 ∷ [])
    ∷ ticks
    ∷ receives (some none) 16
    ∷ []

-- One packet, and the two ticks after it.
packet_twice : (run_uses uses (fresh_optimizer config)).metrics.rx_packets ≡ 2
unfolding run_uses fresh_optimizer
packet_twice = refl

run_uses_counts_example :
    let n = fresh_optimizer config in
    ((run_uses uses n).metrics.errors ≡ n.metrics.errors + failures_of uses)
    × ((run_uses uses n).metrics.rx_packets
        ≡ n.metrics.rx_packets + reports n.rx_stats.packets_processed uses)
unfolding fresh_optimizer
run_uses_counts_example = run_uses_counts uses (fresh_optimizer config) (refl, refl)
