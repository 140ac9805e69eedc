-- ===== src/Mempool/Pool/Lookup.antt =====
-- mempool/mmap_pool.go: what Get finds after Add.
use mathlib.Core.List.{append-nil}
use profit_monopoly.Prelude.{
  Bool-cases, List, Option-cases, ap, arith, false, if◌then◌else◌, inl, inr, leb, leb→le, length,
  ltb, ltb→lt, none, ok, refl, replicate, some, suc, sym, true, ℕ, ℕ_discrete, ◌++◌, ◌-◌, ◌<◌, ◌==◌,
  ◌∙◌, ◌≡◌, ◌≢◌, ◌≤◌, ◌⊎◌,
}
use profit_monopoly.Mempool.Pool.{
  Codec, MmapPool, add, find_next_free, get, index_of, is_empty, max_transactions, overwrite,
  store_bytes, tx_entry_size, update,
}
use profit_monopoly.Mempool.Pool.Slots.{find_next_free_lem, overwrite-occupied, overwrite-zeros}

-- Slots in use are in range, hold a byte that is not 0 and belong to one hash each; the slot that
-- Add writes next is in range and empty.
pub record IsSound (p : MmapPool) : Type 0 where
  pub live :
      (h i : ℕ)
      → index_of h p.indices ≡ some i
      → (i < max_transactions) × (is_empty (p.slots i) ≡ false)
  pub distinct : (h k i : ℕ) → index_of h p.indices ≡ some i → index_of k p.indices ≡ some i → h ≡ k
  pub free : (p.next_free < max_transactions) × (is_empty (p.slots p.next_free) ≡ true)

-- UnmarshalBinary reads back what MarshalBinary wrote, and refuses trailing bytes; no
-- serialization consists of zeros.
pub record IsCodec {Tx : Type 0} (codec : Codec Tx) : Type 0 where
  pub reads :
      (tx : Tx) (bytes : List ℕ) → codec.marshal tx ≡ some bytes → codec.unmarshal bytes ≡ some tx
  pub strict :
      (tx : Tx) (bytes : List ℕ) (n : ℕ)
      → codec.marshal tx ≡ some bytes
      → codec.unmarshal (bytes ++ replicate (suc n) 0) ≡ none
  pub occupied : (tx : Tx) (bytes : List ℕ) → codec.marshal tx ≡ some bytes → is_empty bytes ≡ false

-- A live slot is not the one that Add writes.
pub live-ne-next_free :
    (p : MmapPool) (h i : ℕ) → IsSound p → index_of h p.indices ≡ some i → i ≢ p.next_free
live-ne-next_free p h i v e same =
    let (_, used) = v.live h i e in let used' = rw same at used in cc (v.free.1)

-- The map after Add.
pub index_of-store :
    (h k : ℕ) (bytes : List ℕ) (p : MmapPool)
    → index_of k (store_bytes h bytes p).indices
      ≡ (if h == k then some p.next_free else index_of k p.indices)
unfolding store_bytes index_of
index_of-store h k bytes p = refl

-- The slots after Add.
pub slots-store :
    (h : ℕ) (bytes : List ℕ) (p : MmapPool) (i : ℕ)
    → (store_bytes h bytes p).slots i
      ≡ (if i == p.next_free then overwrite bytes (p.slots p.next_free) else p.slots i)
unfolding store_bytes update
slots-store h bytes p i = refl

pub next_free-store :
    (h : ℕ) (bytes : List ℕ) (p : MmapPool)
    → (store_bytes h bytes p).next_free ≡ find_next_free (store_bytes h bytes p).slots
unfolding store_bytes
next_free-store h bytes p = refl

-- A hash that is found after Add is the new one in the slot that was free, or was found before.
found-store :
    (h k i : ℕ) (bytes : List ℕ) (p : MmapPool)
    → index_of k (store_bytes h bytes p).indices ≡ some i
    → ((h ≡ k) × (i ≡ p.next_free)) ⊎ ((h ≢ k) × (index_of k p.indices ≡ some i))
found-store h k i bytes p e = elim (ℕ_discrete h k) [
  | yes same ↦ inl (same, ground (arith, index_of-store h k bytes p))
  | no other ↦ inr (other, ground (arith, index_of-store h k bytes p))
]

module _ (h : ℕ) (bytes : List ℕ) (p : MmapPool) (v : IsSound p) (b : is_empty bytes ≡ false) where
  stored_live :
      (k i : ℕ)
      → index_of k (store_bytes h bytes p).indices ≡ some i
      → (i < max_transactions) × (is_empty ((store_bytes h bytes p).slots i) ≡ false)
  stored_live k i e = elim (found-store h k i bytes p e) [
    | inl (same, here) ↦
        let used = overwrite-occupied bytes (p.slots p.next_free) b in
        let (range, _) = v.free in
        let slot : (store_bytes h bytes p).slots i ≡ overwrite bytes (p.slots p.next_free) =
          ground (arith, slots-store h bytes p i) in
        (omega arith, ap is_empty slot ∙ used)
    | inr (other, before) ↦
        let (range, used) = v.live k i before in
        let apart = live-ne-next_free p k i v before in
        let slot : (store_bytes h bytes p).slots i ≡ p.slots i =
          ground (arith, slots-store h bytes p i) in
        (range, ap is_empty slot ∙ used)
  ]

  stored_distinct :
      (k l i : ℕ)
      → index_of k (store_bytes h bytes p).indices ≡ some i
      → index_of l (store_bytes h bytes p).indices ≡ some i
      → k ≡ l
  stored_distinct k l i e f = elim (found-store h k i bytes p e) [
    | inl (a, x) ↦ elim (found-store h l i bytes p f) [
      | inl (c, y) ↦ sym a ∙ c
      | inr (_, y) ↦ absurd (live-ne-next_free p l i v y x)
    ]
    | inr (_, x) ↦ elim (found-store h l i bytes p f) [
      | inl (c, y) ↦ absurd (live-ne-next_free p k i v x y)
      | inr (_, y) ↦ v.distinct k l i x y
    ]
  ]

  stored-IsSound :
      (j : ℕ)
      → j < max_transactions
      → is_empty ((store_bytes h bytes p).slots j) ≡ true
      → IsSound (store_bytes h bytes p)
  stored-IsSound j lt free =
      let (below, empty) = find_next_free_lem (store_bytes h bytes p).slots j lt free in
      record {
        live = stored_live;
        distinct = stored_distinct;
        free = rw (next_free-store h bytes p) (omega arith, empty);
      }

module _ {Tx : Type 0} (codec : Codec Tx) where
  pub get-found :
      (h i : ℕ) (p : MmapPool)
      → index_of h p.indices ≡ some i
      → get codec h p ≡ codec.unmarshal (p.slots i)
  unfolding get
  get-found h i p e = rw (e, get) refl

  get-missing : (h : ℕ) (p : MmapPool) → index_of h p.indices ≡ none → get codec h p ≡ none
  unfolding get
  get-missing h p e = rw (e, get) refl

  -- What a successful Add did.
  pub add_inv :
      (tx : Tx) (p p' : MmapPool)
      → add codec tx p ≡ ok p'
      → (bytes : List ℕ) × (codec.marshal tx ≡ some bytes)
        × (length bytes ≤ tx_entry_size)
        × (p.count < max_transactions)
        × (p' ≡ store_bytes (codec.hash tx) bytes p)
  unfolding add
  add_inv tx p p' e = elim (Bool-cases (ltb p.count max_transactions)) [
    | inr f ↦ let e' = rw f at e in cc
    | inl a ↦ elim (Option-cases (codec.marshal tx)) [
      | inl n ↦ let e' = rw (a, n) at e in cc
      | inr (bytes, m) ↦ elim (Bool-cases (leb (length bytes) tx_entry_size)) [
        | inr f ↦ let e' = rw (a, m, f) at e in cc
        | inl b ↦ let e' = rw (a, m, b) at e in (bytes, m, leb→le _ _ b, ltb→lt _ _ a, cc)
      ]
    ]
  ]

  -- Add leaves what Get finds for every other hash as it was, in a sound pool.
  pub get-add_other :
      (tx : Tx) (p p' : MmapPool) (h : ℕ)
      → IsSound p
      → add codec tx p ≡ ok p'
      → h ≢ codec.hash tx
      → get codec h p' ≡ get codec h p
  get-add_other tx p p' h v e ne =
      let (bytes, m, _, _, stored) = add_inv tx p p' e in
      let k = codec.hash tx in
      let later : index_of h (store_bytes k bytes p).indices ≡ index_of h p.indices =
        ground (arith, index_of-store k h bytes p) in
      elim (Option-cases (index_of h p.indices)) [
        | inl n ↦ rw stored (get-missing h _ (later ∙ n) ∙ sym (get-missing h p n))
        | inr (i, s) ↦
            let apart = live-ne-next_free p h i v s in
            let same : (store_bytes k bytes p).slots i ≡ p.slots i =
              ground (arith, slots-store k bytes p i) in
            rw stored
              (get-found h i _ (later ∙ s) ∙ ap codec.unmarshal same ∙ sym (get-found h i p s))
      ]

  -- What UnmarshalBinary makes of a serialization with the zeros of its slot.
  padded :
      (tx : Tx) (bytes : List ℕ)
      → IsCodec codec
      → codec.marshal tx ≡ some bytes
      → length bytes ≤ tx_entry_size
      → codec.unmarshal (bytes ++ replicate (tx_entry_size - length bytes) 0)
        ≡ (if length bytes == tx_entry_size then some tx else none)
  padded tx bytes c m small = elim (Bool-cases (length bytes == tx_entry_size)) [
    | inl t ↦
        let fits : length bytes ≡ tx_entry_size = ground arith in
        let nothing : tx_entry_size - length bytes ≡ 0 = omega arith in
        rw (t, nothing, append-nil bytes) (c.reads tx bytes m)
    | inr f ↦
        let rest : tx_entry_size - length bytes ≡ suc (tx_entry_size - length bytes - 1) =
          ground arith in
        rw (f, rest) (c.strict tx bytes (tx_entry_size - length bytes - 1) m)
  ]

  -- Into a slot of zeros Add writes a transaction that Get finds again only if it fills the whole
  -- slot: a shorter one is read with the zeros behind it, which UnmarshalBinary refuses.
  pub get-add_self :
      (tx : Tx) (bytes : List ℕ) (p p' : MmapPool)
      → IsCodec codec
      → p.slots p.next_free ≡ replicate tx_entry_size 0
      → codec.marshal tx ≡ some bytes
      → add codec tx p ≡ ok p'
      → get codec (codec.hash tx) p' ≡ (if length bytes == tx_entry_size then some tx else none)
  get-add_self tx bytes p p' c z m e =
      let (bytes', m', small, _, stored) = add_inv tx p p' e in
      let k = codec.hash tx in
      let same : bytes' ≡ bytes = cc in
      let here : index_of k (store_bytes k bytes' p).indices ≡ some p.next_free =
        ground (arith, index_of-store k k bytes' p) in
      let slot : (store_bytes k bytes' p).slots p.next_free
          ≡ overwrite bytes' (p.slots p.next_free) =
        ground (arith, slots-store k bytes' p p.next_free) in
      let filled : overwrite bytes' (p.slots p.next_free)
          ≡ bytes' ++ replicate (tx_entry_size - length bytes') 0 =
        rw z (overwrite-zeros bytes' tx_entry_size small) in
      let read =
        get-found k p.next_free (store_bytes k bytes' p) here
        ∙ ap codec.unmarshal (slot ∙ filled)
        ∙ ap (λ b. codec.unmarshal (b ++ replicate (tx_entry_size - length b) 0)) same in
      rw stored (read ∙ padded tx bytes c m (rw same at small))

  -- Add keeps a pool sound as long as it leaves a slot free.
  pub add-IsSound :
      (tx : Tx) (p p' : MmapPool) (j : ℕ)
      → IsCodec codec
      → IsSound p
      → add codec tx p ≡ ok p'
      → j < max_transactions
      → is_empty (p'.slots j) ≡ true
      → IsSound p'
  add-IsSound tx p p' j c v e lt free =
      let (bytes, m, small, _, stored) = add_inv tx p p' e in
      rw stored
        (stored-IsSound (codec.hash tx) bytes p v (c.occupied tx bytes m) j lt (rw stored at free))
