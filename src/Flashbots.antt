-- ===== src/Flashbots.antt =====
-- flashbots/client.go: the requests of a Client to the relay. The libraries that encode, sign and
-- carry a request are parameters: each answers `none` for an error. The id and the header are left
-- out, which depend on nothing that an answer depends on.
pub mod Answers
mod Tests
use profit_monopoly.Prelude.{
  Bool, List, Option, [], ◌∷◌, if◌then◌else◌, none, some, ℕ, ◌%◌, ◌+◌, ◌-◌, ◌==◌, ◌^◌, Run, err, ok,
  guard, or_err, ◌>>=◌, ◌>>◌,
}
use profit_monopoly.Int.{pos, ℤ, ◌-ℤ◌}
use profit_monopoly.Network.Indexer.{low_word}

pub record Bundle : Type 0 where
  pub txs : List (List ℕ)
  pub block_number : ℤ
  pub min_timestamp : Option ℤ
  pub max_timestamp : Option ℤ
  pub reverting_tx_hashes : List ℕ

-- The parameters of a request, by its method.
pub data Params : Type 0 where
  send_params : Bundle → Params
  -- the transactions, the block, the block of the state and the time
  simulation_params : List (List ℕ) → ℤ → ℕ → ℕ → Params
  stats_params : ℤ → Params

pub record BundleSimulation : Type 0 where
  pub success : Bool
  pub gas_used : ℕ
  pub eth_sent : Option ℕ
  pub eth_received : Option ℕ
  pub profit_in_wei : Option ℤ
  pub state_block_number : ℕ

-- The fields of an answer to a simulation.
pub record SimulationResult : Type 0 where
  pub success : Bool
  pub gas_used : List ℕ
  pub eth_sent : List ℕ
  pub eth_received : List ℕ
  pub state_block : List ℕ

pub record Response : Type 0 where
  pub status : ℕ
  pub body : List ℕ

pub data ClientError : Type 0 where
  marshal_failed request_failed sign_failed transport_failed read_failed decode_failed : ClientError
  status_failed : List ℕ → ClientError

-- json, http, crypto and hexutil, for a relay and a key.
pub record Relay : Type 0 where
  pub marshal : Params → Option (List ℕ)
  pub url_parses : Bool
  pub sign : List ℕ → Option (List ℕ)
  -- the payload and the signature, and the time of the call
  pub transport : List ℕ → List ℕ → ℕ → Option Response
  pub body_reads : Response → Bool
  pub decode : List ℕ → Option SimulationResult
  pub decode_stats : List ℕ → Option (List ℕ)
  -- DecodeUint64 and DecodeBig
  pub decode_uint64 : List ℕ → Option ℕ
  pub decode_big : List ℕ → Option ℕ

abbrev pub status_ok : ℕ
status_ok = 200

-- `bundle.BlockNumber.Uint64()-1`, which wraps around.
unfoldable pub state_block : ℤ → ℕ
state_block block_number = (low_word block_number + (2 ^ 64 - 1)) % 2 ^ 64

-- `x, _ := hexutil.DecodeUint64(s)`
abbrev pub or_zero : Option ℕ → ℕ
or_zero none = 0
or_zero (some n) = n

unfoldable pub profit_of : Option ℕ → Option ℕ → Option ℤ
profit_of (some sent) (some received) = some (pos received -ℤ pos sent)
profit_of _ _ = none

module _ (r : Relay) where
  -- The part that the three requests share, up to the response
  unfoldable pub post : Params → ℕ → Run ClientError Response
  post params now = do
    payload ← or_err (r.marshal params) marshal_failed
    guard r.url_parses request_failed
    signature ← or_err (r.sign payload) sign_failed
    or_err (r.transport payload signature now) transport_failed

  -- SendBundle
  unfoldable pub send_bundle : Bundle → ℕ → Run ClientError (Unit {0})
  unfolding post
  send_bundle bundle now = do
    response ← post (send_params bundle) now
    guard (r.body_reads response) read_failed
    guard (response.status == status_ok) (status_failed response.body)

  -- SimulateBundle
  unfoldable pub simulate_bundle : Bundle → ℕ → Run ClientError BundleSimulation
  unfolding post state_block profit_of
  simulate_bundle bundle now = do
    response ←
        post
          (simulation_params bundle.txs bundle.block_number (state_block bundle.block_number) now)
          now
    result ← or_err (r.decode response.body) decode_failed
    let sent = r.decode_big result.eth_sent
    let received = r.decode_big result.eth_received
    ok (record {
      success = result.success;
      gas_used = or_zero (r.decode_uint64 result.gas_used);
      eth_sent = sent;
      eth_received = received;
      profit_in_wei = profit_of sent received;
      state_block_number = or_zero (r.decode_uint64 result.state_block);
    })

  -- GetStats
  unfoldable pub get_stats : ℤ → ℕ → Run ClientError (List ℕ)
  unfolding post
  get_stats block_number now = do
    response ← post (stats_params block_number) now
    or_err (r.decode_stats response.body) decode_failed
