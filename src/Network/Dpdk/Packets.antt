-- ===== src/Network/Dpdk/Packets.antt =====
-- mempool/network/dpdk_network.go: what a Write hands to the Read of a peer.
use profit_monopoly.Prelude.{
  Bool-cases, false, List, Option-cases, [], ◌++◌, ◌∷◌, arith, inl, inr, length, ltb, none, some,
  suc, take, ok, refl, ok_inj, true, ℕ, ◌^◌, ◌≡◌, ◌<◌, ◌≤◌, ◌∙◌, ap, sym,
}
use profit_monopoly.Network.Dpdk.{Dpdk, DpdkNetworkManager, Mbuf, packet, read, rx_packet, write}

take-length : (bytes : List ℕ) → take (length bytes) bytes ≡ bytes
take-length [] = refl
take-length (b ∷ bytes) = ap (λ l. b ∷ l) (take-length bytes)

module _ (d : Dpdk) where
  -- A Write that succeeds was of bytes that a buffer has room for.
  write_ok :
      (address n : ℕ) (bytes : List ℕ) (m : DpdkNetworkManager)
      → (write d (some address) bytes m).0 ≡ ok n
      → (n ≡ length bytes)
        × (length bytes ≤ d.data_room)
        × ((write d (some address) bytes m).1.tx_ring ≡ m.tx_ring ++ packet address bytes ∷ [])
  unfolding write
  write_ok address n [] m written = absurd (cc written)
  write_ok address n (b ∷ bytes) m written =
      elim (Bool-cases (ltb d.data_room (suc (length bytes)))) [
        | inl t ↦ absurd (panics t written)
        | inr f ↦ fitting f written
      ]
    where
      panics :
          ltb d.data_room (suc (length bytes)) ≡ true
          → (write d (some address) (b ∷ bytes) m).0 ≡ ok n
          → ⊥
      panics t = rw (write, t) (λ w. cc w)

      fitting :
          ltb d.data_room (suc (length bytes)) ≡ false
          → (write d (some address) (b ∷ bytes) m).0 ≡ ok n
          → (n ≡ suc (length bytes))
            × (suc (length bytes) ≤ d.data_room)
            × ((write d (some address) (b ∷ bytes) m).1.tx_ring
                ≡ m.tx_ring ++ packet address (b ∷ bytes) ∷ [])
      fitting f = elim (Option-cases (d.enqueue m.tx_ring (packet address (b ∷ bytes)))) [
        | inl x ↦ rw (write, f, x) (λ w. absurd (cc w))
        | inr (ring, x) ↦
            rw (write, f, x)
              (λ w. (
                sym (ok_inj (suc (length bytes)) n w),
                ground arith,
                d.enqueue-some m.tx_ring ring (packet address (b ∷ bytes)) x,
              ))
      ]

  -- What waits in an empty ring after one packet is that packet.
  rx_packet-dequeue :
      (p q : Mbuf) (peer : DpdkNetworkManager) (rest : List Mbuf)
      → peer.rx_ring ≡ []
      → d.dequeue (rx_packet d p peer).rx_ring ≡ some (q, rest)
      → q ≡ p
  unfolding rx_packet
  rx_packet-dequeue p q peer rest empty there = elim (Option-cases (d.enqueue peer.rx_ring p)) [
    | inl n ↦ absurd (refused n)
    | inr (ring, e) ↦ accepted ring e
  ]
    where
      waiting : (rx_packet d p peer).rx_ring ≡ q ∷ rest
      waiting = d.dequeue-some (rx_packet d p peer).rx_ring rest q there

      refused : d.enqueue peer.rx_ring p ≡ none → ⊥
      refused n =
          let kept : (rx_packet d p peer).rx_ring ≡ peer.rx_ring = rw (rx_packet, n) refl in
          let both : [] ≡ q ∷ rest = sym (kept ∙ empty) ∙ waiting in cc both

      accepted : (ring : List Mbuf) → d.enqueue peer.rx_ring p ≡ some ring → q ≡ p
      accepted ring e =
          let kept : (rx_packet d p peer).rx_ring ≡ ring = rw (rx_packet, e) refl in
          let alone : ring ≡ p ∷ [] =
            d.enqueue-some peer.rx_ring ring p e ∙ ap (λ r. r ++ p ∷ []) empty in
          let both : p ∷ [] ≡ q ∷ rest = sym (kept ∙ alone) ∙ waiting in cc both

  read_next :
      (room : ℕ) (bytes : List ℕ) (m : DpdkNetworkManager) (q : Mbuf) (rest : List Mbuf)
      → d.dequeue m.rx_ring ≡ some (q, rest)
      → q.data_len ≡ length bytes
      → q.bytes ≡ bytes
      → length bytes ≤ room
      → (read d room m).0 ≡ bytes
  unfolding read
  read_next room bytes m q rest there whole sent fits =
      let longer : ltb room (length bytes) ≡ false = ground arith in
      rw (read, there, whole, sent, longer) (take-length bytes)

  -- When the room of a packet buffer is below 2^16, a Write that succeeds answers the number of its
  -- bytes and puts one packet at the end of the ring to the card. When a buffer with the bytes and
  -- the length of this packet arrives at a peer with an empty ring and waits there, the next Read of
  -- the peer answers the bytes that were written, if its slice has room for them.
  pub read-write :
      (address room n : ℕ) (bytes : List ℕ) (m peer : DpdkNetworkManager) (received q : Mbuf)
      (rest : List Mbuf)
      → d.data_room < 2 ^ 16
      → (write d (some address) bytes m).0 ≡ ok n
      → received.bytes ≡ (packet address bytes).bytes
      → received.data_len ≡ (packet address bytes).data_len
      → peer.rx_ring ≡ []
      → d.dequeue (rx_packet d received peer).rx_ring ≡ some (q, rest)
      → n ≤ room
      → (n ≡ length bytes)
        × ((write d (some address) bytes m).1.tx_ring ≡ m.tx_ring ++ packet address bytes ∷ [])
        × ((read d room (rx_packet d received peer)).0 ≡ bytes)
  unfolding packet
  read-write address room n bytes m peer received q rest small written same len empty there fits =
      let (size, inside, ring) = write_ok address n bytes m written in
      let taken = rx_packet-dequeue received q peer rest empty there in
      let whole : q.data_len ≡ length bytes = rw (taken, len) (omega arith) in
      let sent : q.bytes ≡ bytes = rw (taken, same) refl in
      (
        size,
        ring,
        read_next room bytes (rx_packet d received peer) q rest there whole sent (omega arith),
      )
