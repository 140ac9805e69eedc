-- ===== src/Mempool/Pool/Reuse.antt =====
-- mempool/mmap_pool.go: Remove, and a slot that is written while it is in use.
use profit_monopoly.Prelude.{
  List, [], ap, arith, false, if◌then◌else◌, none, ok, refl, replicate, some, suc, sym, true, zero,
  ℕ, ℕ_discrete, ◌%◌, ◌+◌, ◌-◌, ◌<◌, ◌==◌, ◌^◌, ◌∙◌, ◌∷◌, ◌≡◌, ◌≢◌,
}
use profit_monopoly.Mempool.Pool.{
  Codec, MmapPool, add, delete_index, get, index_of, is_empty, max_transactions, remove,
  store_bytes, tx_entry_size, update, zero_slot,
}
use profit_monopoly.Mempool.Pool.Lookup.{
  IsSound, add_inv, get-found, index_of-store, live-ne-next_free, next_free-store,
}
use profit_monopoly.Mempool.Pool.Slots.{find_next_free_full}

index_of-delete :
    (h k : ℕ) (m : List (ℕ × ℕ))
    → index_of k (delete_index h m) ≡ (if h == k then none else index_of k m)
unfolding index_of delete_index
index_of-delete h k [] = ground arith
index_of-delete h k ((j, i) ∷ m) = ground (arith, index_of-delete h k m)

zeros-is_empty : (n : ℕ) → is_empty (replicate n 0) ≡ true
unfolding is_empty
zeros-is_empty zero = refl
zeros-is_empty (suc n) = zeros-is_empty n

-- What Remove leaves of the map, the slots and the next free slot, for a hash that is stored.
removed :
    (h i : ℕ) (p : MmapPool)
    → index_of h p.indices ≡ some i
    → (remove h p).0 ≡ record p {
      slots = update p.slots i zero_slot;
      count = (p.count + 2 ^ 32 - 1) % 2 ^ 32;
      indices = delete_index h p.indices;
    }
unfolding remove
removed h i p e = rw (e, remove) refl

pub zero_slot-is_empty : is_empty zero_slot ≡ true
unfolding zero_slot
zero_slot-is_empty = zeros-is_empty tx_entry_size

slots-update :
    (slots : ℕ → List ℕ) (i : ℕ) (bytes : List ℕ) (j : ℕ)
    → update slots i bytes j ≡ (if j == i then bytes else slots j)
unfolding update
slots-update slots i bytes j = refl

-- A hash that is still found was found before, and is another one.
found-delete :
    (h k i : ℕ) (m : List (ℕ × ℕ))
    → index_of k (delete_index h m) ≡ some i
    → (h ≢ k) × (index_of k m ≡ some i)
found-delete h k i m e = elim (ℕ_discrete h k) [
  | yes same ↦ absurd (ground (arith, index_of-delete h k m))
  | no other ↦ (other, ground (arith, index_of-delete h k m))
]

module _ (h i : ℕ) (p : MmapPool) (v : IsSound p) (e : index_of h p.indices ≡ some i) where
  abbrev freed : ℕ → List ℕ
  freed = update p.slots i zero_slot

  freed_live :
      (k j : ℕ)
      → index_of k (delete_index h p.indices) ≡ some j
      → (j < max_transactions) × (is_empty (freed j) ≡ false)
  freed_live k j f =
      let (other, before) = found-delete h k j p.indices f in
      let (range, used) = v.live k j before in
      let apart : j ≢ i = λ s. other (v.distinct h k j (e ∙ ap some (sym s)) before) in
      let kept : freed j ≡ p.slots j = ground (arith, slots-update p.slots i zero_slot j) in
      (range, ap is_empty kept ∙ used)

  freed_free : (p.next_free < max_transactions) × (is_empty (freed p.next_free) ≡ true)
  freed_free =
      let (range, empty) = v.free in
      let apart : p.next_free ≢ i = λ s. live-ne-next_free p h i v e (sym s) in
      let kept : freed p.next_free ≡ p.slots p.next_free =
        ground (arith, slots-update p.slots i zero_slot p.next_free) in
      (range, ap is_empty kept ∙ empty)

  -- Remove of a hash that is stored forgets it and no other, and keeps a sound pool sound: the
  -- next Add writes into a slot that no transaction lies in.
  pub remove-IsSound :
      ((k : ℕ)
        → index_of k (remove h p).0.indices ≡ (if h == k then none else index_of k p.indices))
      × IsSound (remove h p).0
  remove-IsSound = rw (removed h i p e) (
    (λ k. index_of-delete h k p.indices),
    record {
      live = freed_live;
      distinct = λ k l j f g.
          v.distinct k l j (found-delete h k j p.indices f).1 (found-delete h l j p.indices g).1;
      free = freed_free;
    },
  )

full-next_free :
    (h : ℕ) (bytes : List ℕ) (p : MmapPool)
    → ((j : ℕ) → j < max_transactions → is_empty ((store_bytes h bytes p).slots j) ≡ false)
    → (store_bytes h bytes p).next_free ≡ 0
full-next_free h bytes p taken =
    next_free-store h bytes p ∙ find_next_free_full (store_bytes h bytes p).slots taken

removed-next_free :
    (h i : ℕ) (p : MmapPool)
    → index_of h p.indices ≡ some i
    → (remove h p).0.next_free ≡ p.next_free
removed-next_free h i p e = rw (removed h i p e) refl

removed-indices :
    (h i k : ℕ) (p : MmapPool)
    → index_of h p.indices ≡ some i
    → index_of k (remove h p).0.indices ≡ (if h == k then none else index_of k p.indices)
removed-indices h i k p e = rw (removed h i p e) (index_of-delete h k p.indices)

module _ {Tx : Type 0} (codec : Codec Tx) where
  -- An Add that leaves no slot empty puts the next free slot at 0; a Remove of a transaction that
  -- lies elsewhere does not move it; and the Add after that writes into slot 0 although another
  -- transaction lies there: both hashes then read the same slot.
  pub add_reuses_slot :
      (tx tx' : Tx) (p p' p'' : MmapPool) (h k i : ℕ)
      → add codec tx p ≡ ok p'
      → ((j : ℕ) → j < max_transactions → is_empty (p'.slots j) ≡ false)
      → index_of h p'.indices ≡ some 0
      → index_of k p'.indices ≡ some i
      → h ≢ k
      → add codec tx' (remove k p').0 ≡ ok p''
      → h ≢ codec.hash tx'
      → (get codec h p'' ≡ get codec (codec.hash tx') p'')
        × (index_of h p''.indices ≡ index_of (codec.hash tx') p''.indices)
  add_reuses_slot tx tx' p p' p'' h k i a taken e f ne b ne' =
      let (bytes, _, _, _, stored) = add_inv codec tx p p' a in
      let (bytes', _, _, _, stored') = add_inv codec tx' (remove k p').0 p'' b in
      let r = (remove k p').0 in
      let at_zero : p'.next_free ≡ 0 =
        rw stored (full-next_free (codec.hash tx) bytes p (rw stored at taken)) in
      let still : index_of h r.indices ≡ some 0 = ground (arith, removed-indices k i h p' f) in
      let slot : r.next_free ≡ 0 = removed-next_free k i p' f ∙ at_zero in
      let old : index_of h p''.indices ≡ some 0 =
        rw stored' (ground (arith, index_of-store (codec.hash tx') h bytes' r)) in
      let new : index_of (codec.hash tx') p''.indices ≡ some 0 =
        rw stored' (ground (arith, index_of-store (codec.hash tx') (codec.hash tx') bytes' r)) in
      (
        get-found codec h 0 p'' old ∙ sym (get-found codec (codec.hash tx') 0 p'' new),
        old ∙ sym new,
      )
