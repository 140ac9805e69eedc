-- ===== src/Network/Index/Lookup.antt =====
-- mempool/network/indexer.go: what Get answers after Insert.
use profit_monopoly.Prelude.{
  Option, Option-cases, ==-ne, ==-self, arith, ℕ_discrete, false, inl, inr, leb, length, lookup,
  lookup_head, lookup_tail, none, refl, some, sym, true, ap, ◌∙◌, ℕ, ◌<◌, ◌≡◌, ◌≢◌, ◌⊎◌,
}
use profit_monopoly.Network.Index.{
  MempoolIndex, Transaction, TxEntry, TxShard, entry_of, get, get_shard, insert, insert_new,
  max_txs_per_shard, set_shard,
}

-- The transaction of an entry that was looked up.
abbrev pub tx_of : Option TxEntry → Option Transaction
tx_of none = none
tx_of (some entry) = some entry.tx

set_shard_self : (i : ℕ) (s : TxShard) (shards : ℕ → TxShard) → set_shard i s shards i ≡ s
set_shard_self i s shards = rw (==-self i) refl

set_shard_ne :
    (i j : ℕ) (s : TxShard) (shards : ℕ → TxShard) → j ≢ i → set_shard i s shards j ≡ shards j
set_shard_ne i j s shards h = rw (==-ne j i h) refl

module _ (sum64 : ℕ → ℕ) where
  insert_new_self :
      (now : ℕ) (tx : Transaction) (m : MempoolIndex)
      → lookup tx.hash ((insert_new sum64 now tx m).shards (get_shard sum64 tx.hash))
        ≡ some (entry_of now tx)
  unfolding insert_new
  insert_new_self now tx m =
      ap (lookup tx.hash) (set_shard_self (get_shard sum64 tx.hash) _ m.shards)
      ∙ lookup_head tx.hash (entry_of now tx) _

  insert_new_other :
      (now hash : ℕ) (tx : Transaction) (m : MempoolIndex)
      → hash ≢ tx.hash
      → length (m.shards (get_shard sum64 tx.hash)) < max_txs_per_shard
      → lookup hash ((insert_new sum64 now tx m).shards (get_shard sum64 hash))
        ≡ lookup hash (m.shards (get_shard sum64 hash))
  unfolding insert_new
  insert_new_other now hash tx m other room =
      elim (ℕ_discrete (get_shard sum64 hash) (get_shard sum64 tx.hash)) [
        | yes same ↦
            rw (below (length (m.shards (get_shard sum64 tx.hash))) room, same)
              (ap (lookup hash) (set_shard_self (get_shard sum64 tx.hash) _ m.shards)
                ∙ lookup_tail hash tx.hash (entry_of now tx) _ other)
        | no differ ↦
            ap (lookup hash)
              (set_shard_ne (get_shard sum64 tx.hash) (get_shard sum64 hash) _ m.shards differ)
      ]
    where
      below : (n : ℕ) → n < max_txs_per_shard → leb max_txs_per_shard n ≡ false
      below n h = ground arith

  get_lem :
      (hash : ℕ) (m : MempoolIndex)
      → (get sum64 hash m).0 ≡ tx_of (lookup hash (m.shards (get_shard sum64 hash)))
  unfolding get
  get_lem hash m = elim (Option-cases (lookup hash (m.shards (get_shard sum64 hash)))) [
    | inl absent ↦ rw (get, absent) refl
    | inr (entry, found) ↦ rw (get, found) refl
  ]

  -- Insert answers false and leaves the shards alone exactly if the hash is in the index; otherwise
  -- it answers true, and Get of the hash then answers the inserted transaction.
  pub get-insert_self :
      (now : ℕ) (tx : Transaction) (m : MempoolIndex)
      → let (inserted, after) = insert sum64 now tx m in
        ((inserted ≡ true)
          × ((get sum64 tx.hash m).0 ≡ none)
          × ((get sum64 tx.hash after).0 ≡ some tx))
        ⊎ ((inserted ≡ false) × ((get sum64 tx.hash m).0 ≢ none) × (after.shards ≡ m.shards))
  unfolding insert
  get-insert_self now tx m =
      elim (Option-cases (lookup tx.hash (m.shards (get_shard sum64 tx.hash)))) [
        | inl absent ↦
            rw (insert, absent)
              (inl (
                refl,
                get_lem tx.hash m ∙ ap tx_of absent,
                get_lem tx.hash (insert_new sum64 now tx m) ∙ ap tx_of (insert_new_self now tx m),
              ))
        | inr (entry, found) ↦ rw (insert, found) (inr (refl, present entry found, refl))
      ]
    where
      present :
          (entry : TxEntry)
          → lookup tx.hash (m.shards (get_shard sum64 tx.hash)) ≡ some entry
          → (get sum64 tx.hash m).0 ≢ none
      present entry found e = let answer = get_lem tx.hash m ∙ ap tx_of found in cc

  -- As long as the shard of a transaction is below its capacity, its insertion changes nothing of
  -- what Get answers for the other hashes.
  pub get-insert_other :
      (now hash : ℕ) (tx : Transaction) (m : MempoolIndex)
      → hash ≢ tx.hash
      → length (m.shards (get_shard sum64 tx.hash)) < max_txs_per_shard
      → (get sum64 hash (insert sum64 now tx m).1).0 ≡ (get sum64 hash m).0
  unfolding insert
  get-insert_other now hash tx m other room =
      elim (Option-cases (lookup tx.hash (m.shards (get_shard sum64 tx.hash)))) [
        | inl absent ↦
            rw (insert, absent)
              (get_lem hash (insert_new sum64 now tx m)
                ∙ ap tx_of (insert_new_other now hash tx m other room)
                ∙ sym (get_lem hash m))
        | inr (entry, found) ↦ rw (insert, found) (get_lem hash _ ∙ sym (get_lem hash m))
      ]
