-- ===== src/Config.antt =====
-- config/config.go: the configuration, its defaults and its validation. A float64 is a value of a
-- type that comes with the comparisons of the code and with the constants it is compared with. The
-- file, the environment and the calls that can fail are arguments: the parsed file, the answers of
-- os.Getenv, and whether the call succeeds. Fields that neither the defaults nor the validation
-- read are left out: the pools, the lists of endpoints and providers, the relay and its key, the
-- largest fee, the ports, the level of the log and the rate.
pub mod Validity
mod Tests
use Prim.Native.String.{String, len}
use profit_monopoly.Prelude.{
  Bool, List, Option, [], ◌∷◌, false, true, if◌then◌else◌, ltb, none, some, not, ◌&&◌, ◌||◌, ℕ, ◌+◌,
  ◌*◌, ◌==◌, ◌^◌, ◌≡◌, Run, err, ok, panic, guard, ◌>>=◌, ◌>>◌,
}
use profit_monopoly.Int.{is_zero, leb_ℤ, negsuc, pos, ℤ}

-- A float64 and what the code does with it; `decimal m d` is the literal m / 10^d.
pub record Float : Type 1 where
  pub Value : Type 0
  pub decimal : ℕ → ℕ → Value
  pub le : Value → Value → Bool
  pub eq : Value → Value → Bool

abbrev pub is_empty : String → Bool
is_empty s = len s == 0

pub record CircuitBreakerConfig : Type 0 where
  pub error_threshold : ℤ
  pub reset_timeout : ℤ
  pub half_open_timeout : ℤ
  pub enabled : Bool

-- The default of LoadConfig and of NewConfig, with its times in nanoseconds.
unfoldable pub default_breaker : CircuitBreakerConfig
default_breaker = record {
  error_threshold = pos 5;
  reset_timeout = pos (300 * 10 ^ 9);
  half_open_timeout = pos (60 * 10 ^ 9);
  enabled = true;
}

pub data ConfigError : Type 0 where
  env_failed read_failed parse_failed dial_failed logger_failed : ConfigError
  rpc_required chain_required pending_positive buffer_positive boost_small : ConfigError
  loan_positive ratio_positive slippage_range threshold_positive : ConfigError
  router_required executor_required gas_price_required : ConfigError

-- What the process finds outside the configuration: the two endpoints of the environment, and
-- whether the .env file, the file, its text, the node and the logger are as they should be.
pub record Environment : Type 0 where
  pub rpc_url : String
  pub ws_url : String
  pub env_loads : Bool
  pub file_reads : Bool
  pub text_parses : Bool
  pub node_answers : Bool
  pub logger_builds : Bool

abbrev pub is_none {ℓ} : {A : Type ℓ} → Option A → Bool
is_none none = true
is_none (some _) = false

-- A sequence of `if test { return error }`
abbrev pub first_failure : List (Bool × ConfigError) → Run ConfigError (Unit {0})
first_failure [] = ok tt
first_failure ((test, e) ∷ rest) = let later = first_failure rest in if test then err e else later

module _ (f : Float) where
  pub record Config : Type 0 where
    pub mainnet_rpc : String
    pub chain_id : ℤ
    pub rpc_endpoint : String
    pub ws_endpoint : String
    pub max_pending_tx : ℤ
    pub block_buffer_size : ℤ
    pub min_profit_threshold : f.Value
    pub gas_boost_factor : f.Value
    pub data_dir : String
    pub workers : ℤ
    pub max_loan_amount : f.Value
    pub min_profit_ratio : f.Value
    pub max_slippage : f.Value
    pub circuit_breaker_threshold : f.Value
    pub rate_limit_per_second : ℤ
    pub circuit_breaker : Option CircuitBreakerConfig
    pub router_address : String
    pub sandwich_executor : String
    pub max_gas_price : Option ℤ
    -- whether a client and a logger are set
    pub client : Bool
    pub logger : Bool

  -- `if x == 0 { x = d }`
  abbrev pub or_int : ℤ → ℤ → ℤ
  or_int x d = if is_zero x then d else x

  abbrev pub or_text : String → String → String
  or_text s d = if is_empty s then d else s

  -- The defaults of LoadConfig for the mempool and the network
  unfoldable pub set_defaults : Environment → Config → Config
  set_defaults env c = record c {
    max_pending_tx = or_int c.max_pending_tx (pos 10000);
    block_buffer_size = or_int c.block_buffer_size (pos 50);
    gas_boost_factor =
        if f.eq c.gas_boost_factor (f.decimal 0 0) then f.decimal 12 1 else c.gas_boost_factor;
    data_dir = or_text c.data_dir "/tmp/mevbot_mempool.mmap";
    workers = or_int c.workers (pos 4);
    chain_id = or_int c.chain_id (pos 1);
    rpc_endpoint = or_text c.rpc_endpoint env.rpc_url;
    ws_endpoint = or_text c.ws_endpoint env.ws_url;
  }

  -- The dial of the node, of LoadConfig and of NewConfig
  unfoldable pub set_client : Environment → Config → Run ConfigError Config
  set_client env c =
      if not c.client && not (is_empty c.rpc_endpoint)
      then (if env.node_answers then ok (record c { client = true }) else err dial_failed)
      else ok c

  unfoldable pub set_logger : Environment → Config → Run ConfigError Config
  set_logger env c =
      if c.logger
      then ok c
      else if env.logger_builds
      then ok (record c { logger = true })
      else err logger_failed

  unfoldable pub set_breaker : Config → Config
  unfolding default_breaker
  set_breaker c = elim c.circuit_breaker [
    | none ↦ record c { circuit_breaker = some default_breaker }
    | some _ ↦ c
  ]

  abbrev pub zero_float : f.Value
  zero_float = f.decimal 0 0

  -- The tests of validate, in its order, with the error of each.
  unfoldable pub checks : Config → List (Bool × ConfigError)
  checks c =
      (is_empty c.rpc_endpoint, rpc_required)
      ∷ (is_zero c.chain_id, chain_required)
      ∷ (leb_ℤ c.max_pending_tx (pos 0), pending_positive)
      ∷ (leb_ℤ c.block_buffer_size (pos 0), buffer_positive)
      ∷ (f.le c.gas_boost_factor (f.decimal 10 1), boost_small)
      ∷ (f.le c.max_loan_amount zero_float, loan_positive)
      ∷ (f.le c.min_profit_ratio zero_float, ratio_positive)
      ∷ (f.le c.max_slippage zero_float || f.le (f.decimal 100 0) c.max_slippage, slippage_range)
      ∷ (f.le c.circuit_breaker_threshold zero_float, threshold_positive)
      ∷ (is_empty c.router_address, router_required)
      ∷ (is_empty c.sandwich_executor, executor_required)
      ∷ (is_none c.max_gas_price, gas_price_required)
      ∷ []

  -- validate
  unfoldable pub validate : Config → Run ConfigError (Unit {0})
  unfolding checks
  validate c = first_failure (checks c)

  -- LoadConfig, on what the file says.
  unfoldable pub load_config : Environment → Config → Run ConfigError Config
  unfolding set_defaults set_client set_logger set_breaker validate
  load_config env file = do
    guard env.env_loads env_failed
    guard env.file_reads read_failed
    guard env.text_parses parse_failed
    dialled ← set_client env (set_defaults env file)
    logged ← set_logger env dialled
    let c = set_breaker logged
    validate c
    ok c

  -- The literal of NewConfig
  unfoldable pub default_config : Environment → Config
  unfolding default_breaker
  default_config env = record {
    mainnet_rpc = env.rpc_url;
    chain_id = pos 1;
    rpc_endpoint = env.rpc_url;
    ws_endpoint = env.ws_url;
    max_pending_tx = pos 10000;
    block_buffer_size = pos 50;
    min_profit_threshold = f.decimal 1 2;
    gas_boost_factor = f.decimal 12 1;
    data_dir = "/tmp/mevbot_mempool.mmap";
    workers = pos 4;
    max_loan_amount = f.decimal 1000 0;
    min_profit_ratio = f.decimal 102 2;
    max_slippage = f.decimal 5 1;
    circuit_breaker_threshold = f.decimal 10 0;
    rate_limit_per_second = pos 100;
    circuit_breaker = some default_breaker;
    router_address = "";
    sandwich_executor = "";
    max_gas_price = some (pos (100 * 10 ^ 9));
    client = false;
    logger = false;
  }

  -- NewConfig
  unfoldable pub new_config : Environment → Run ConfigError Config
  unfolding default_config set_client set_logger
  new_config env = set_client env (default_config env) >>= set_logger env
