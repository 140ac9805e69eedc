-- ===== src/Config/Tests.antt =====
-- config/config.go: the theorems on a file that leaves the mempool section out.
use profit_monopoly.Prelude.{ℕ, false, leb, none, err, refl, some, true, ◌*◌, ◌-◌, ◌==◌, ◌^◌, ◌≡◌}
use profit_monopoly.Int.{pos}
use profit_monopoly.Config.{
  Config, Environment, Float, default_config, load_config, set_breaker, set_defaults, validate,
  router_required,
}
use profit_monopoly.Config.Validity.{IsLoaded, load_config-IsLoaded}

-- Decimals in steps of 10^-4, for the tests.
abbrev decimals : Float
decimals = record { Value = ℕ; decimal = λ m d. m * 10 ^ (4 - d); le = leb; eq = λ a b. a == b }

abbrev env : Environment
env = record {
  rpc_url = "http://node";
  ws_url = "ws://node";
  env_loads = true;
  file_reads = true;
  text_parses = true;
  node_answers = true;
  logger_builds = true;
}

abbrev file : Config decimals
file = record {
  mainnet_rpc = "";
  chain_id = pos 0;
  rpc_endpoint = "";
  ws_endpoint = "";
  max_pending_tx = pos 0;
  block_buffer_size = pos 7;
  min_profit_threshold = 0;
  gas_boost_factor = 0;
  data_dir = "";
  workers = pos 0;
  max_loan_amount = 50000;
  min_profit_ratio = 10200;
  max_slippage = 5000;
  circuit_breaker_threshold = 100000;
  rate_limit_per_second = pos 10;
  circuit_breaker = none;
  router_address = "0xE592";
  sandwich_executor = "0x1234";
  max_gas_price = some (pos 100);
  client = false;
  logger = false;
}

abbrev loaded : Config decimals
loaded =
    set_breaker decimals (record (set_defaults decimals env file) { client = true; logger = true })

load_config-IsLoaded_example : IsLoaded decimals file loaded
unfolding load_config
load_config-IsLoaded_example = load_config-IsLoaded decimals env file loaded refl

abbrev built : Config decimals
built = record (default_config decimals env) { client = true; logger = true }

-- The literal of NewConfig has no router.
default_config_router : validate decimals built ≡ err router_required
unfolding validate default_config
default_config_router = refl
