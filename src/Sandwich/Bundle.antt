-- ===== src/Sandwich/Bundle.antt =====
-- utils/bundler.go: bundles of transactions. The client, the conversions to bytes and to a hash and
-- the signature are parameters; the builders are never called, since submitToBuilder is a stub.
use profit_monopoly.Prelude.{
  List, Option, Run, [], deref, guard, length, ltb, ok, or_err, ℕ, ◌%◌, ◌++◌, ◌+◌, ◌>>=◌, ◌>>◌, ◌^◌,
  ◌∷◌,
}
use profit_monopoly.Int.{pos, ℤ, ◌+ℤ◌}

pub record Tx : Type 0 where
  pub hash : List ℕ
  pub gas : ℕ
  pub value : ℤ

-- A bundle; `none` is a nil transaction.
pub record Bundle : Type 0 where
  pub txs : List (Option Tx)
  pub target_block : ℕ
  pub timestamp : ℕ

pub record BundleStats : Type 0 where
  pub tx_count : ℕ
  pub total_gas : ℕ
  pub total_value : ℤ
  pub target_block : ℕ

-- big.Int.Bytes, common.BytesToHash, BlockNumber and the signing with the configured key.
pub record Network : Type 0 where
  pub int_bytes : ℕ → List ℕ
  pub bytes_to_hash : List ℕ → List ℕ
  pub block_number : Option ℕ
  pub sign : List ℕ → Option (List ℕ)

pub data BundleError : Type 0 where
  empty_bundle block_number_failed sign_failed : BundleError

-- The loop over the transactions; Hash of a nil transaction dereferences it.
unfoldable pub tx_hashes : List (Option Tx) → Run BundleError (List ℕ)
tx_hashes [] = ok []
tx_hashes (tx ∷ txs) = do t ← deref tx; rest ← tx_hashes txs; ok (t.hash ++ rest)

-- The loop of GetBundleStats; TotalGas is a uint64.
unfoldable pub add_stats : List (Option Tx) → BundleStats → Run BundleError BundleStats
add_stats [] stats = ok stats
add_stats (tx ∷ txs) stats = do
  t ← deref tx
  add_stats txs (record stats {
    total_gas = (stats.total_gas + t.gas) % 2 ^ 64;
    total_value = stats.total_value +ℤ t.value;
  })

-- GetBundleStats
unfoldable pub get_bundle_stats : Bundle → Run BundleError BundleStats
unfolding add_stats
get_bundle_stats bundle = add_stats bundle.txs (record {
  tx_count = length bundle.txs;
  total_gas = 0;
  total_value = pos 0;
  target_block = bundle.target_block;
})

module _ (net : Network) where
  -- calculateBundleHash
  unfoldable pub calculate_bundle_hash : Bundle → Run BundleError (List ℕ)
  unfolding tx_hashes
  calculate_bundle_hash bundle = do
    guard (ltb 0 (length bundle.txs)) empty_bundle
    hashes ← tx_hashes bundle.txs
    ok (
        net.bytes_to_hash
          (hashes ++ net.int_bytes bundle.target_block ++ net.int_bytes bundle.timestamp))

  -- SubmitBundle with createBundle and submitToBuilders.
  unfoldable pub submit_bundle : ℕ → List (Option Tx) → Run BundleError (Unit {0})
  unfolding calculate_bundle_hash
  submit_bundle now txs = do
    guard (ltb 0 (length txs)) empty_bundle
    block ← or_err net.block_number block_number_failed
    hash ←
        calculate_bundle_hash
          (record { txs = txs; target_block = (block + 1) % 2 ^ 64; timestamp = now })
    _ ← or_err (net.sign hash) sign_failed
    ok tt
