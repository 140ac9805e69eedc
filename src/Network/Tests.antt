-- ===== src/Network/Tests.antt =====
-- mempool/network/: the theorems at small indices.
use profit_monopoly.Prelude.{
  List, ◌+◌, [], ◌∷◌, ℕ, ◌≡◌, ◌≢◌, ◌⊎◌, none, some, true, false, erase, arith, refl,
}
use profit_monopoly.Int.{pos}
use profit_monopoly.Network.Index.{
  Operation, Stats, Transaction, TxShard, cleans, entry_of, evict_oldest, get, gets, increment,
  insert, inserts, new_mempool_index, removes, run_operations,
}
use profit_monopoly.Network.Index.Lookup.{get-insert_self}
use profit_monopoly.Network.Index.Oldest.{NotBefore, Stands, evict_oldest_earliest}
use profit_monopoly.Network.Index.Shards.{IsSound}
use profit_monopoly.Network.Index.Sound.{run_operations-IsSound}

abbrev transfer : ℕ → Transaction
transfer h = record {
  hash = h;
  is_dynamic_fee = true;
  gas_tip_cap = pos 3;
  gas_fee_cap = pos 40;
  gas_price = pos 40;
  nonce = h;
}

-- A checksum for the tests.
abbrev checksum : ℕ → ℕ
checksum hash = hash

abbrev history : List Operation
history =
    inserts 5 (transfer 1)
    ∷ inserts 7 (transfer 257)
    ∷ gets 1
    ∷ inserts 9 (transfer 1)
    ∷ cleans (λ i. 1806 + i)
    ∷ removes 2
    ∷ []

run_operations-IsSound_example :
    IsSound checksum (run_operations checksum history new_mempool_index)
run_operations-IsSound_example =
    run_operations-IsSound checksum history (omega arith, (omega arith, (omega arith, tt)))

abbrev recent : TxShard
recent =
    (4, entry_of 60 (transfer 4))
    ∷ (5, entry_of 30 (transfer 5))
    ∷ (6, entry_of 50 (transfer 6))
    ∷ []

abbrev counters : Stats
counters = record { insertions = 3; evictions = 0; lookups = 0; collisions = 0 }

evict_oldest_earliest_example :
    (hash : ℕ) × (time : ℕ) × (evict_oldest recent counters
      ≡ (erase hash recent, record counters { evictions = increment 0 }))
    × Stands hash time recent
    × NotBefore time recent
unfolding entry_of
evict_oldest_earliest_example =
    evict_oldest_earliest 4 (entry_of 60 (transfer 4))
      ((5, entry_of 30 (transfer 5)) ∷ (6, entry_of 50 (transfer 6)) ∷ []) counters
      (omega arith, (omega arith, (omega arith, tt))) (refl, (refl, (refl, tt)))

get-insert_self_example :
    let (inserted, after) = insert checksum 5 (transfer 1) new_mempool_index in
    ((inserted ≡ true)
      × ((get checksum 1 new_mempool_index).0 ≡ none)
      × ((get checksum 1 after).0 ≡ some (transfer 1)))
    ⊎ ((inserted ≡ false)
        × ((get checksum 1 new_mempool_index).0 ≢ none)
        × (after.shards ≡ new_mempool_index.shards))
get-insert_self_example = get-insert_self checksum 5 (transfer 1) new_mempool_index
