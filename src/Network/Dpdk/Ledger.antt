-- ===== src/Network/Dpdk/Ledger.antt =====
-- mempool/network/dpdk_network.go: no packet buffer is lost or freed twice.
use profit_monopoly.Prelude.{
  Bool-cases, List, Option, Option-cases, [], ◌∷◌, arith, inl, inr, length, length-append, none,
  some, take, ok, refl, bind_ok, guard, ◌>>◌, ok_inj, ltb, false, suc, ◌<◌, ◌≤◌, ℕ, ◌+◌, ◌≡◌, ◌&&◌,
  ap, sym, ◌∙◌, length-map,
}
use profit_monopoly.Network.Dpdk.{
  Answers, eal_failed, mempool_failed, succeeded, Dpdk, DpdkNetworkManager, Mbuf, PortEvent,
  addresses, create_rings, drop_mbufs, idle_manager, initialize_port, max_tx_pkt_burst, packet,
  new_dpdk_network_manager, port_step, read, reads, run_port, rx_ends, rx_packet, rx_packets_of,
  rx_rounds, start, starts, stop, stops, tx_ends, tx_round, tx_rounds, write, writes,
}
use profit_monopoly.Network.Dpdk.Count.{
  count, count-append, count-cons, count-ring_append, take-drop_mbufs, length-take,
}

-- Each time a buffer was handed over it is in a ring, was freed or was sent, and the counter of
-- sent packets is right.
abbrev pub Balanced : DpdkNetworkManager → Type 0
Balanced m =
    ((a : ℕ)
      → count a m.handed
        ≡ count a (addresses m.rx_ring)
          + count a (addresses m.tx_ring)
          + count a m.freed
          + count a m.sent)
    × (m.metrics.tx_packets ≡ length m.sent)

-- Each Write is of a slice that is not empty and that a buffer with this room takes.
abbrev pub WritesFit : ℕ → List PortEvent → Type 0
WritesFit room [] = Unit
WritesFit room (writes alloc bytes ∷ es) =
    (0 < length bytes) × (length bytes ≤ room) × WritesFit room es
WritesFit room (e ∷ es) = WritesFit room es

new_lem : (a : Answers) (m : DpdkNetworkManager) → new_dpdk_network_manager a ≡ ok m → Balanced m
unfolding new_dpdk_network_manager idle_manager
new_lem a m made =
    let made_rings = create_rings a >> ok idle_manager in
    let made_port = initialize_port a >> made_rings in
    let made_pool = guard a.pool_create mempool_failed >> made_port in
    let (_, _, pool) = bind_ok (guard (succeeded a.eal_init) eal_failed) (λ _. made_pool) m made in
    let (_, _, port) = bind_ok (guard a.pool_create mempool_failed) (λ _. made_port) m pool in
    let (_, _, rings) = bind_ok (initialize_port a) (λ _. made_rings) m port in
    let (_, _, rest) = bind_ok (create_rings a) (λ _. ok idle_manager) m rings in
    let fresh : idle_manager ≡ m = ok_inj idle_manager m rest in rw⁻¹ fresh (λ _. refl, refl)

module _ (d : Dpdk) where
  rx_packet-Balanced : (p : Mbuf) (m : DpdkNetworkManager) → Balanced m → Balanced (rx_packet d p m)
  unfolding rx_packet
  rx_packet-Balanced p m (each, sent) = elim (Option-cases (d.enqueue m.rx_ring p)) [
    | inl n ↦
        rw (rx_packet, n)
          (
            λ a.
                omega
                  (arith, each a, count-cons a p.address m.handed, count-cons a p.address m.freed),
            sent,
          )
    | inr (ring, e) ↦
        rw (rx_packet, e, d.enqueue-some m.rx_ring ring p e)
          (
            λ a. omega (
              arith,
              each a,
              count-cons a p.address m.handed,
              count-ring_append a m.rx_ring (p ∷ []),
              count-cons a p.address [],
            ),
            sent,
          )
  ]

  rx_packets_of-Balanced :
      (ps : List Mbuf) (m : DpdkNetworkManager) → Balanced m → Balanced (rx_packets_of d ps m)
  unfolding rx_packets_of
  rx_packets_of-Balanced [] m h = h
  rx_packets_of-Balanced (p ∷ ps) m h =
      rx_packets_of-Balanced ps (rx_packet d p m) (rx_packet-Balanced p m h)

  tx_round-Balanced : (m : DpdkNetworkManager) → Balanced m → Balanced (tx_round d m)
  unfolding tx_round
  tx_round-Balanced m (each, sent) =
      let bufs = (d.dequeue_burst max_tx_pkt_burst m.tx_ring).0 in
      let ring = (d.dequeue_burst max_tx_pkt_burst m.tx_ring).1 in
      let n = d.tx_burst bufs in
      let gone = take n bufs in
      let left = drop_mbufs n bufs in
      let split : (a : ℕ)
          → count a (addresses m.tx_ring)
            ≡ count a (addresses gone) + count a (addresses left) + count a (addresses ring) =
        λ a.
          ap (λ r. count a (addresses r)) (sym (d.burst-append max_tx_pkt_burst m.tx_ring))
          ∙ (count-ring_append a bufs ring
              ∙ ap (λ k. k + count a (addresses ring))
                  (ap (λ r. count a (addresses r)) (sym (take-drop_mbufs n bufs))
                    ∙ count-ring_append a gone left)) in
      (
        λ a. omega (
          arith,
          each a,
          split a,
          count-append a (addresses left) m.freed,
          count-append a (addresses gone) m.sent,
        ),
        omega (
          arith,
          sent,
          length-append (addresses gone) m.sent,
          length-map (λ p. p.address) gone,
          length-take n bufs (d.tx_burst-le bufs),
        ),
      )

  read-Balanced : (room : ℕ) (m : DpdkNetworkManager) → Balanced m → Balanced (read d room m).1
  unfolding read
  read-Balanced room m (each, sent) = elim (Option-cases (d.dequeue m.rx_ring)) [
    | inl n ↦ rw (read, n) (each, sent)
    | inr ((p, ring), e) ↦
        let split = d.dequeue-some m.rx_ring ring p e in
        let counted : (a : ℕ)
            → count a (addresses m.rx_ring) ≡ count a (p.address ∷ addresses ring) =
          λ a. ap (λ r. count a (addresses r)) split in
        rw (read, e)
          (
            λ a. omega (
              arith,
              each a,
              counted a,
              count-cons a p.address (addresses ring),
              count-cons a p.address m.freed,
            ),
            sent,
          )
  ]

  write-Balanced :
      (alloc : Option ℕ) (b : ℕ) (bytes : List ℕ) (m : DpdkNetworkManager)
      → suc (length bytes) ≤ d.data_room
      → Balanced m
      → Balanced (write d alloc (b ∷ bytes) m).1
  unfolding write
  write-Balanced none b bytes m fits h = h
  write-Balanced (some address) b bytes m fits (each, sent) =
      let p = packet address (b ∷ bytes) in
      let room : ltb d.data_room (suc (length bytes)) ≡ false = ground arith in
      elim (Option-cases (d.enqueue m.tx_ring p)) [
        | inl n ↦
            rw (write, room, n)
              (
                λ a.
                    omega
                      (arith, each a, count-cons a address m.handed, count-cons a address m.freed),
                sent,
              )
        | inr (ring, e) ↦
            rw (write, room, e, d.enqueue-some m.tx_ring ring p e)
              (
                λ a. omega (
                  arith,
                  each a,
                  count-cons a address m.handed,
                  count-ring_append a m.tx_ring (p ∷ []),
                  count-cons a address [],
                ),
                sent,
              )
      ]

  port_step-Balanced :
      (e : PortEvent) (es : List PortEvent) (m : DpdkNetworkManager)
      → WritesFit d.data_room (e ∷ es)
      → Balanced m
      → Balanced (port_step d e m)
  unfolding port_step start stop
  port_step-Balanced starts es m w h = elim (Bool-cases m.running) [
    | inl t ↦ rw (start, t) h
    | inr n ↦ rw (start, n) h
  ]
  port_step-Balanced stops es m w h = elim (Bool-cases m.running) [
    | inl t ↦ rw (stop, t) h
    | inr n ↦ rw (stop, n) h
  ]
  port_step-Balanced rx_ends es m w h = h
  port_step-Balanced tx_ends es m w h = h
  port_step-Balanced tx_rounds es m w h = elim (Bool-cases (m.running && m.tx_looping)) [
    | inl t ↦ rw t (tx_round-Balanced m h)
    | inr n ↦ rw n h
  ]
  port_step-Balanced (rx_rounds burst) es m w h = elim (Bool-cases (m.running && m.rx_looping)) [
    | inl t ↦ rw t (rx_packets_of-Balanced burst _ h)
    | inr n ↦ rw n h
  ]
  port_step-Balanced (reads room) es m w h = read-Balanced room m h
  port_step-Balanced (writes alloc []) es m w h = absurd (omega (arith, w.0))
  port_step-Balanced (writes alloc (b ∷ bytes)) es m w h = write-Balanced alloc b bytes m w.1 h

  run_port_lem :
      (es : List PortEvent) (m : DpdkNetworkManager)
      → WritesFit d.data_room es
      → Balanced m
      → Balanced (run_port d es m)
  unfolding run_port
  run_port_lem [] m w h = h
  run_port_lem (e ∷ es) m w h =
      run_port_lem es (port_step d e m) (rest e w) (port_step-Balanced e es m w h)
    where
      rest : (e : PortEvent) → WritesFit d.data_room (e ∷ es) → WritesFit d.data_room es
      rest starts w = w
      rest stops w = w
      rest rx_ends w = w
      rest tx_ends w = w
      rest tx_rounds w = w
      rest (rx_rounds _) w = w
      rest (reads _) w = w
      rest (writes _ _) w = w.2

  -- After any history of a new manager in which no Write is of an empty slice or of more bytes than
  -- a packet buffer has room for, each time that DPDK handed a buffer over, that buffer is in one of
  -- the rings, was freed or was sent: none is lost, and none is freed or sent twice. The counter of
  -- sent packets counts those sent.
  pub run_port-Balanced :
      (a : Answers) (m : DpdkNetworkManager) (es : List PortEvent)
      → new_dpdk_network_manager a ≡ ok m
      → WritesFit d.data_room es
      → Balanced (run_port d es m)
  run_port-Balanced a m es made w = run_port_lem es m w (new_lem a m made)
