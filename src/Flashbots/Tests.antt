-- ===== src/Flashbots/Tests.antt =====
-- flashbots/client.go: the theorems at a relay for the tests.
use profit_monopoly.Prelude.{List, Option, [], ◌∷◌, true, none, ok, refl, some, ℕ, ◌+◌, ◌≡◌}
use profit_monopoly.Int.{pos}
use profit_monopoly.Flashbots.{
  Bundle, Params, Relay, get_stats, send_bundle, send_params, simulate_bundle, state_block,
}
use profit_monopoly.Flashbots.Answers.{restatus, simulate_bundle-restatus}

abbrev encode : Params → Option (List ℕ)
encode (send_params bundle) = some (1 ∷ bundle.reverting_tx_hashes)
encode _ = some (2 ∷ [])

abbrev first_byte : List ℕ → Option ℕ
first_byte [] = none
first_byte (b ∷ _) = some b

abbrev relay : Relay
relay = record {
  marshal = encode;
  url_parses = true;
  sign = λ payload. some (9 ∷ payload);
  transport = λ payload signature now. some (record { status = 200; body = 4 ∷ payload });
  body_reads = λ response. true;
  decode = λ body. some (record {
    success = true;
    gas_used = body;
    eth_sent = body;
    eth_received = 7 ∷ [];
    state_block = body;
  });
  decode_stats = λ body. some body;
  decode_uint64 = first_byte;
  decode_big = first_byte;
}

abbrev bundle : Bundle
bundle = record {
  txs = (1 ∷ 2 ∷ []) ∷ [];
  block_number = pos 18;
  min_timestamp = none;
  max_timestamp = none;
  reverting_tx_hashes = 5 ∷ [];
}

-- The block before block 0 is the last of 64 bits.
block_zero : state_block (pos 0) ≡ 18446744073709551615
unfolding state_block
block_zero = refl

send_bundle_accepted : send_bundle relay bundle 3 ≡ ok tt
unfolding send_bundle
send_bundle_accepted = refl

simulate_bundle-restatus_example :
    (simulate_bundle (restatus (λ s. s + 300) relay) bundle 3 ≡ simulate_bundle relay bundle 3)
    × (get_stats (restatus (λ s. s + 300) relay) (pos 18) 3 ≡ get_stats relay (pos 18) 3)
simulate_bundle-restatus_example = simulate_bundle-restatus (λ s. s + 300) relay bundle (pos 18) 3
