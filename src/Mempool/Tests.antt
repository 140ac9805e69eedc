-- ===== src/Mempool/Tests.antt =====
-- mempool/: the theorems at inputs that meet their hypotheses.
use profit_monopoly.Prelude.{
  Bool, Bool-cases, List, Option, [], arith, none, ok, panic, refl, some, inl, inr, true, false,
  if◌then◌else◌, ℕ, ◌++◌, ◌+◌, ◌-◌, ◌<◌, ◌==◌, ◌≤◌, ◌∷◌, ◌≡◌, ◌↔◌, replicate, suc,
}
use profit_monopoly.Int.{pos}
use profit_monopoly.Mempool.Breaker.{
  CircuitBreaker, CircuitBreakerConfig, error, is_healthy, run_events, tick,
}
use profit_monopoly.Mempool.Breaker.Safety.{run_events_cooldown}
use profit_monopoly.Mempool.Breaker.Moves.{
  Move, Racing, asleep, at_add, at_mark, enters, errs, monitors, run_moves, wakes,
}
use profit_monopoly.Mempool.Breaker.Interrupted.{calling, interrupted, interrupted_stuck}
use profit_monopoly.Mempool.Monitor.{Event, LoopState, Phase, Transaction, run_loop}
use profit_monopoly.Mempool.Monitor.Batches.{held, run_loop-deliveries}
use profit_monopoly.Mempool.Monitor.Retries.{failures, run_loop_interrupted_failures}
use profit_monopoly.Mempool.Processing.{
  Counters, Pipeline, is_relevant_transaction, process_batch, process_batch_no_indexer,
}
use profit_monopoly.Mempool.Pool.{
  Codec, MmapPool, add, get, index_of, is_empty, overwrite, max_transactions, remove, store_bytes,
  update, zero_slot,
}
use profit_monopoly.Mempool.Pool.Lookup.{IsCodec, IsSound, add-IsSound, get-add_self}
use profit_monopoly.Mempool.Pool.Reuse.{add_reuses_slot, remove-IsSound, zero_slot-is_empty}

abbrev five_errors : CircuitBreakerConfig
five_errors = record { error_threshold = pos 5; reset_interval = 60; cooldown_period = 300 }

abbrev tripped : CircuitBreaker
tripped = record {
  error_count = 5;
  last_reset = 0;
  last_tripped = 100;
  enabled = false;
  healthy = false;
  trip_count = 1;
}

run_events_cooldown_example :
    let cb = run_events five_errors (tick 120 ∷ error 250 ∷ tick 399 ∷ []) tripped in
    (is_healthy cb ≡ false) × (cb.last_tripped ≡ 100)
run_events_cooldown_example =
    run_events_cooldown five_errors (tick 120 ∷ error 250 ∷ tick 399 ∷ []) tripped refl
      (omega arith)

-- Two calls in the middle of RecordError, one of them in a trip, and a monitor that wakes up.
abbrev racing : Racing
racing = record {
  breaker = tripped;
  calls = λ i. if i == 0 then at_mark else at_add;
  monitor = asleep;
}

abbrev racing_moves : List Move
racing_moves =
    wakes
    ∷ monitors 150
    ∷ errs 1 160
    ∷ monitors 170
    ∷ errs 0 180
    ∷ errs 0 190
    ∷ monitors 200
    ∷ monitors 200
    ∷ enters 1
    ∷ monitors 399
    ∷ errs 1 399
    ∷ []

-- The fifth error of a breaker that was never tripped.
abbrev four_counted : CircuitBreaker
four_counted = record {
  error_count = 4;
  last_reset = 0;
  last_tripped = 0;
  enabled = true;
  healthy = true;
  trip_count = 0;
}

abbrev later_tick : List Move
later_tick = wakes ∷ monitors 900 ∷ monitors 900 ∷ monitors 900 ∷ monitors 900 ∷ monitors 900 ∷ []

interrupted_stuck_example :
    let r =
      run_moves five_errors later_tick
        (run_moves five_errors (interrupted 310 320) (calling four_counted)) in
    (r.breaker.enabled ≡ true) × (is_healthy r.breaker ≡ false)
interrupted_stuck_example =
    interrupted_stuck five_errors four_counted 5 310 320 later_tick refl refl (omega arith)
      (omega arith) (omega arith) (omega arith) tt

abbrev tx_a : Transaction
tx_a = record { hash = 1; gas_price = pos 30 }

abbrev tx_b : Transaction
tx_b = record { hash = 2; gas_price = pos 300 }

abbrev streaming : LoopState
streaming = record {
  phase = Phase.streaming;
  batch = tx_a ∷ [];
  handed = (tx_b ∷ []) ∷ [];
  errors = 0;
  breaker = tripped;
}

run_loop-deliveries_example :
    let s =
      run_loop five_errors (Event.fetched tx_b ∷ Event.timer ∷ Event.fetch_failed ∷ []) streaming in
    (s.phase ≡ Phase.streaming) × (held five_errors s ≡ tx_b ∷ tx_a ∷ tx_b ∷ [])
run_loop-deliveries_example =
    run_loop-deliveries five_errors (Event.fetched tx_b ∷ Event.timer ∷ Event.fetch_failed ∷ [])
      streaming refl tt

run_loop_interrupted_failures_example :
    ((run_loop five_errors (Event.subscription_error 500 ∷ failures 2) streaming).phase
      ≡ Phase.exceeded)
    ↔ (2 ≤ 2)
run_loop_interrupted_failures_example =
    run_loop_interrupted_failures five_errors 2 500 streaming refl

abbrev healthy_breaker : CircuitBreaker
healthy_breaker = record tripped { enabled = true; healthy = true; error_count = 0 }

abbrev pipeline : Option (Transaction → Bool) → Pipeline
pipeline indexer = record {
  max_gas_price = pos 100;
  cache_contains = λ h. h == 9;
  breaker = healthy_breaker;
  limiter_wait = λ tx. true;
  tx_indexer = indexer;
}

abbrev fresh_counters : Counters
fresh_counters = record { processed = 0; errors = 0 }

process_batch_no_indexer_example :
    process_batch (pipeline none) (tx_b ∷ tx_a ∷ []) fresh_counters ≡ panic
unfolding is_relevant_transaction is_healthy
process_batch_no_indexer_example =
    process_batch_no_indexer (pipeline none) (tx_b ∷ tx_a ∷ []) fresh_counters refl (omega arith)

-- A transaction is a number, serialized to one byte above 0.
abbrev unmarshal : List ℕ → Option ℕ
unmarshal [] = none
unmarshal (b ∷ []) = if b == 0 then none else some (b - 1)
unmarshal (b ∷ c ∷ rest) = none

abbrev numbers : Codec ℕ
numbers = record { hash = λ t. t; marshal = λ t. some ((t + 1) ∷ []); unmarshal = unmarshal }

unmarshal_padded :
    (bytes : List ℕ) (t n : ℕ)
    → bytes ≡ (t + 1) ∷ []
    → unmarshal (bytes ++ replicate (suc n) 0) ≡ none
unmarshal_padded bytes t n e = rw e refl

written_occupied : (bytes : List ℕ) (t : ℕ) → bytes ≡ (t + 1) ∷ [] → is_empty bytes ≡ false
unfolding is_empty
written_occupied bytes t e = rw e (ground arith)

read_back : (bytes : List ℕ) (t : ℕ) → bytes ≡ (t + 1) ∷ [] → unmarshal bytes ≡ some t
read_back bytes t e = rw e (ground arith)

numbers-IsCodec : IsCodec numbers
numbers-IsCodec = record {
  reads = λ t bytes e. read_back bytes t (cc);
  strict = λ t bytes n e. unmarshal_padded bytes t n (cc);
  occupied = λ t bytes e. written_occupied bytes t (cc);
}

abbrev empty_pool : MmapPool
empty_pool = record { slots = λ i. zero_slot; count = 0; next_free = 0; indices = [] }

nothing_stored : (h i : ℕ) → ¬ (index_of h empty_pool.indices ≡ some i)
unfolding index_of
nothing_stored h i e = cc

empty_pool-IsSound : IsSound empty_pool
empty_pool-IsSound = record {
  live = λ h i e. absurd (nothing_stored h i e);
  distinct = λ h k i e f. absurd (nothing_stored h i e);
  free = (omega arith, zero_slot-is_empty);
}

abbrev stored : MmapPool
stored = store_bytes 4 (5 ∷ []) empty_pool

added : add numbers 4 empty_pool ≡ ok stored
unfolding add
added = refl

slot_left : is_empty (stored.slots 1) ≡ true
unfolding store_bytes update
slot_left = zero_slot-is_empty

stored-IsSound : IsSound stored
stored-IsSound =
    add-IsSound numbers 4 empty_pool stored 1 numbers-IsCodec empty_pool-IsSound added (omega arith)
      slot_left

stored_at : index_of 4 stored.indices ≡ some 0
unfolding store_bytes index_of
stored_at = refl

add-IsSound_example : IsSound (store_bytes 4 (5 ∷ []) empty_pool)
add-IsSound_example =
    add-IsSound numbers 4 empty_pool stored 1 numbers-IsCodec empty_pool-IsSound added (omega arith)
      slot_left

remove-IsSound_example :
    ((k : ℕ)
      → index_of k (remove 4 stored).0.indices
        ≡ (if 4 == k then none else index_of k stored.indices))
    × IsSound (remove 4 stored).0
remove-IsSound_example = remove-IsSound 4 0 stored stored-IsSound stored_at

get-add_self_example : get numbers 4 stored ≡ none
unfolding zero_slot
get-add_self_example =
    get-add_self numbers 4 (5 ∷ []) empty_pool stored numbers-IsCodec refl refl added

-- All slots but one hold a byte.
abbrev nearly_full : MmapPool
nearly_full = record {
  slots = λ i. if i == 7 then zero_slot else 1 ∷ [];
  count = 99999;
  next_free = 7;
  indices = (1, 0) ∷ (2, 3) ∷ [];
}

abbrev filled : MmapPool
filled = store_bytes 4 (5 ∷ []) nearly_full

filled_up : (j : ℕ) → j < max_transactions → is_empty (filled.slots j) ≡ false
unfolding store_bytes update overwrite is_empty zero_slot
filled_up j lt = elim (Bool-cases (j == 7)) [ inl t ↦ rw t refl | inr f ↦ rw f refl ]

adding : add numbers 4 nearly_full ≡ ok filled
unfolding add
adding = refl

abbrev refilled : MmapPool
refilled = store_bytes 6 (7 ∷ []) (remove 2 filled).0

adding_again : add numbers 6 (remove 2 filled).0 ≡ ok refilled
unfolding add remove store_bytes index_of
adding_again = refl

first_at : index_of 1 filled.indices ≡ some 0
unfolding store_bytes index_of
first_at = refl

second_at : index_of 2 filled.indices ≡ some 3
unfolding store_bytes index_of
second_at = refl

add_reuses_slot_example :
    (get numbers 1 refilled ≡ get numbers 6 refilled)
    × (index_of 1 refilled.indices ≡ index_of 6 refilled.indices)
add_reuses_slot_example =
    add_reuses_slot numbers 4 6 nearly_full filled refilled 1 2 3 adding filled_up first_at
      second_at (omega arith) adding_again (omega arith)
