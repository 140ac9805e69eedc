-- ===== src/Network/Dpdk/Tests.antt =====
-- mempool/network/dpdk_network.go: the theorems on a small history.
use profit_monopoly.Prelude.{
  List, Option, [], arith, length, none, panic, refl, some, suc, take, true, ◌++◌, ◌∷◌, ◌≡◌, ◌≤◌, ℕ,
  zero,
}
use profit_monopoly.Int.{pos}
use profit_monopoly.Network.Dpdk.{
  Answers, Dpdk, Mbuf, PortEvent, drop_mbufs, idle_manager, new_dpdk_network_manager, packet, read,
  reads, run_port, rx_packet, rx_rounds, starts, stops, tx_rounds, write, writes,
}
use profit_monopoly.Network.Dpdk.Ledger.{Balanced, run_port-Balanced}
use profit_monopoly.Network.Dpdk.Count.{take-drop_mbufs}
use profit_monopoly.Network.Dpdk.Packets.{read-write}

-- A DPDK for the tests: rings that never fill, and a card that takes one packet of a burst.
abbrev ring_dequeue : List Mbuf → Option (Mbuf × List Mbuf)
ring_dequeue [] = none
ring_dequeue (p ∷ r) = some (p, r)

ring_dequeue-some : (r s : List Mbuf) (p : Mbuf) → ring_dequeue r ≡ some (p, s) → r ≡ p ∷ s
ring_dequeue-some [] s p e = absurd (cc e)
ring_dequeue-some (q ∷ r) s p e = let head : q ≡ p = cc in let rest : r ≡ s = cc in cc

length-take_le : (n : ℕ) (r : List Mbuf) → length (take n r) ≤ n
length-take_le zero r = omega arith
length-take_le (suc n) [] = omega arith
length-take_le (suc n) (p ∷ r) = omega (arith, length-take_le n r)

ring_enqueue-some :
    (r s : List Mbuf) (p : Mbuf)
    → ◌≡◌ {A = Option (List Mbuf)} (some (r ++ p ∷ [])) (some s)
    → s ≡ r ++ p ∷ []
ring_enqueue-some r s p e = cc e

abbrev one_of : List Mbuf → ℕ
one_of [] = 0
one_of (p ∷ r) = 1

one_of-le : (r : List Mbuf) → one_of r ≤ length r
one_of-le [] = omega arith
one_of-le (p ∷ r) = omega arith

abbrev card : Dpdk
card = record {
  data_room = 2048;
  enqueue = λ r p. some (r ++ p ∷ []);
  dequeue = ring_dequeue;
  dequeue_burst = λ n r. (take n r, drop_mbufs n r);
  tx_burst = one_of;
  enqueue-some = ring_enqueue-some;
  dequeue-some = ring_dequeue-some;
  burst-append = take-drop_mbufs;
  burst-le = length-take_le;
  tx_burst-le = one_of-le;
}

abbrev answers : Answers
answers = record {
  eal_init = pos 4;
  pool_create = true;
  dev_configure = pos 0;
  rx_queue_setup = pos 0;
  tx_queue_setup = pos 0;
  dev_start = pos 0;
  rx_ring_create = true;
  tx_ring_create = true;
}

abbrev history : List PortEvent
history =
    starts
    ∷ rx_rounds (packet 7 (1 ∷ []) ∷ packet 9 (2 ∷ 3 ∷ []) ∷ [])
    ∷ reads 1
    ∷ writes (some 11) (5 ∷ [])
    ∷ writes (some 12) (6 ∷ [])
    ∷ tx_rounds
    ∷ stops
    ∷ []

run_port-Balanced_example : Balanced (run_port card history idle_manager)
unfolding new_dpdk_network_manager
run_port-Balanced_example =
    run_port-Balanced card answers idle_manager history refl
      (omega arith, omega arith, (omega arith, omega arith, tt))

abbrev message : List ℕ
message = 3 ∷ 4 ∷ []

read-write_example :
    (2 ≡ length message)
    × ((write card (some 8) message idle_manager).1.tx_ring
        ≡ idle_manager.tx_ring ++ packet 8 message ∷ [])
    × ((read card 16 (rx_packet card (packet 3 message) idle_manager)).0 ≡ 3 ∷ 4 ∷ [])
unfolding write rx_packet packet idle_manager
read-write_example =
    read-write card 8 16 2 message idle_manager idle_manager (packet 3 message) (packet 3 message)
      [] (omega arith) refl refl refl refl refl (omega arith)

-- A Write of more than the room has no outcome to state.
overlong : (write (record card { data_room = 1 }) (some 8) message idle_manager).0 ≡ panic
unfolding write
overlong = refl
