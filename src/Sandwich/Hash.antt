-- ===== src/Sandwich/Hash.antt =====
-- utils/bundler.go: what the hash of a bundle depends on.
use mathlib.Core.List.{append_assoc}
use profit_monopoly.Prelude.{
  List, [], arith, length, length-append, lt→ltb, map, ok, refl, some, sym, ap, ◌∙◌, ℕ, ◌++◌, ◌≡◌,
  ◌≤◌, ◌∷◌,
}
use profit_monopoly.Sandwich.Bundle.{Bundle, Network, Tx, calculate_bundle_hash, tx_hashes}

-- BytesToHash crops from the left: of 32 bytes and more it reads the last 32.
abbrev pub Crops : Network → Type 0
Crops net =
    (xs ys zs : List ℕ)
    → 32 ≤ length zs
    → net.bytes_to_hash (xs ++ zs) ≡ net.bytes_to_hash (ys ++ zs)

-- A bundle that ends in a transaction, with none that is nil.
abbrev pub ending : List Tx → Tx → ℕ → ℕ → Bundle
ending txs last target_block timestamp = record {
  txs = map some txs ++ some last ∷ [];
  target_block = target_block;
  timestamp = timestamp;
}

tx_hashes_ending :
    (txs : List Tx) (last : Tx)
    → (xs : List ℕ) × (tx_hashes (map some txs ++ some last ∷ []) ≡ ok (xs ++ (last.hash ++ [])))
unfolding tx_hashes
tx_hashes_ending [] last = ([], refl)
tx_hashes_ending (t ∷ txs) last =
    let (xs, e) = tx_hashes_ending txs last in
    (t.hash ++ xs, rw e (ap ok (sym (append_assoc t.hash xs (last.hash ++ [])))))

regroup : (xs hs bs ts : List ℕ) → xs ++ hs ++ bs ++ ts ≡ xs ++ (hs ++ bs ++ ts)
regroup xs hs bs ts = ap (λ l. l ++ ts) (append_assoc xs hs bs) ∙ append_assoc xs (hs ++ bs) ts

calculate_bundle_hash_lem :
    (net : Network) (txs : List Tx) (last : Tx) (target_block timestamp : ℕ)
    → (xs : List ℕ) × (calculate_bundle_hash net (ending txs last target_block timestamp)
        ≡ ok (
            net.bytes_to_hash
              (xs ++ (last.hash ++ [] ++ net.int_bytes target_block ++ net.int_bytes timestamp))))
unfolding calculate_bundle_hash
calculate_bundle_hash_lem net txs last target_block timestamp =
    let (xs, e) = tx_hashes_ending txs last in
    (
      xs,
      rw
          (
            lt→ltb 0 (length (map some txs ++ some last ∷ []))
                (omega (arith, length-append (map some txs) (some last ∷ []))),
            e,
          )
          (ap (λ bytes. ok (net.bytes_to_hash bytes))
            (regroup xs (last.hash ++ []) (net.int_bytes target_block) (net.int_bytes timestamp))),
    )

-- Where BytesToHash keeps the last 32 bytes, the hash of a bundle without nil transactions is
-- always there and does not depend on its transactions but the last one, whose hash has 32 bytes:
-- two bundles that end in the same transaction, with the same target block and time, have the same
-- hash.
pub calculate_bundle_hash_last :
    (net : Network) (txs others : List Tx) (last : Tx) (target_block timestamp : ℕ)
    → Crops net
    → 32 ≤ length last.hash
    → (hash : List ℕ) × (calculate_bundle_hash net (ending txs last target_block timestamp)
        ≡ ok hash)
      × (calculate_bundle_hash net (ending others last target_block timestamp) ≡ ok hash)
calculate_bundle_hash_last net txs others last target_block timestamp crops long =
    let tail = last.hash ++ [] ++ net.int_bytes target_block ++ net.int_bytes timestamp in
    let (xs, e) = calculate_bundle_hash_lem net txs last target_block timestamp in
    let (ys, f) = calculate_bundle_hash_lem net others last target_block timestamp in
    let enough : 32 ≤ length tail = omega (
      arith,
      length-append (last.hash ++ [] ++ net.int_bytes target_block) (net.int_bytes timestamp),
      length-append (last.hash ++ []) (net.int_bytes target_block),
      length-append last.hash [],
    ) in
    (net.bytes_to_hash (xs ++ tail), e, f ∙ ap ok (crops ys xs tail enough))
