-- ===== src/Config/Validity.antt =====
-- config/config.go: what a configuration of LoadConfig has, and what validate says of NewConfig.
use profit_monopoly.Prelude.{
  Bool, Bool-cases, List, Option-cases, [], ◌∷◌, false, true, inl, inr, ap, bind_ok, err, guard, ok,
  ok_inj, refl, sym, ◌>>=◌, ◌>>◌, ◌≡◌, ◌⊎◌, ◌∙◌, ◌≢◌, ◌||◌, Option, none, some, arith, zero, suc,
}
use mathlib.Core.Path.{subst, subst⁻¹}
use Prim.Native.String.{String, len}
use profit_monopoly.Int.{is_zero, ℤ, pos, negsuc, leb_ℤ, ◌<ℤ◌}
use profit_monopoly.Config.{
  Config, ConfigError, CircuitBreakerConfig, default_breaker, is_none, or_int, dial_failed,
  logger_failed, Environment, Float, checks, default_config, env_failed, first_failure, is_empty,
  load_config, new_config, parse_failed, read_failed, set_breaker, set_client, set_defaults,
  set_logger, validate,
}

-- No test of the list holds.
abbrev pub Passes : List (Bool × ConfigError) → Type 0
Passes [] = Unit
Passes ((test, _) ∷ rest) = (test ≡ false) × Passes rest

first_failure_ok : (l : List (Bool × ConfigError)) → first_failure l ≡ ok tt → Passes l
first_failure_ok [] h = tt
first_failure_ok ((true, e) ∷ l) h = absurd (cc h)
first_failure_ok ((false, e) ∷ l) h = (refl, first_failure_ok l h)

-- Some test of the list holds.
abbrev Fails : List (Bool × ConfigError) → Type 0
Fails [] = ⊥
Fails ((test, _) ∷ rest) = (test ≡ true) ⊎ Fails rest

first_failure_err :
    (l : List (Bool × ConfigError)) → Fails l → (e : ConfigError) × (first_failure l ≡ err e)
first_failure_err [] h = absurd h
first_failure_err ((test, e) ∷ l) (inl t) = (e, rw t refl)
first_failure_err ((true, e) ∷ l) (inr h) = (e, refl)
first_failure_err ((false, e) ∷ l) (inr h) = first_failure_err l h

module _ (f : Float) where
  set_client_ok :
      (env : Environment) (c d : Config f)
      → set_client f env c ≡ ok d
      → (d ≡ record c { client = true }) ⊎ ((d ≡ c) × (is_empty c.rpc_endpoint ≡ true))
  unfolding set_client
  set_client_ok env c d h = elim (Bool-cases c.client) [
    | inl t ↦
        let e : set_client f env c ≡ ok c = simp (set_client, t) refl in
        let set : record c { client = true } ≡ c = ap (λ b. record c { client = b }) (sym t) in
        inl (sym (ok_inj c d (sym e ∙ h)) ∙ sym set)
    | inr n ↦ elim (Bool-cases (is_empty c.rpc_endpoint)) [
      | inl t ↦
          let e : set_client f env c ≡ ok c = simp (set_client, n, t) refl in
          inr (sym (ok_inj c d (sym e ∙ h)), t)
      | inr p ↦ elim (Bool-cases env.node_answers) [
        | inl t ↦
            let e : set_client f env c ≡ ok (record c { client = true }) =
              simp (set_client, n, p, t) refl in
            inl (sym (ok_inj (record c { client = true }) d (sym e ∙ h)))
        | inr q ↦
            let e : set_client f env c ≡ err dial_failed = simp (set_client, n, p, q) refl in
            absurd (cc (sym e ∙ h))
      ]
    ]
  ]

  set_logger_ok :
      (env : Environment) (c d : Config f)
      → set_logger f env c ≡ ok d
      → d ≡ record c { logger = true }
  unfolding set_logger
  set_logger_ok env c d h = elim (Bool-cases c.logger) [
    | inl t ↦
        let e : set_logger f env c ≡ ok c = simp (set_logger, t) refl in
        let set : record c { logger = true } ≡ c = ap (λ b. record c { logger = b }) (sym t) in
        sym (ok_inj c d (sym e ∙ h)) ∙ sym set
    | inr n ↦ elim (Bool-cases env.logger_builds) [
      | inl t ↦
          let e : set_logger f env c ≡ ok (record c { logger = true }) =
            simp (set_logger, n, t) refl in
          sym (ok_inj (record c { logger = true }) d (sym e ∙ h))
      | inr q ↦
          let e : set_logger f env c ≡ err logger_failed = simp (set_logger, n, q) refl in
          absurd (cc (sym e ∙ h))
    ]
  ]

  set_breaker_rpc : (c : Config f) → (set_breaker f c).rpc_endpoint ≡ c.rpc_endpoint
  unfolding set_breaker
  set_breaker_rpc c = elim (Option-cases c.circuit_breaker) [
    | inl n ↦ simp (set_breaker, n) refl
    | inr (b, e) ↦ simp (set_breaker, e) refl
  ]

  -- The parts of a LoadConfig that succeeds.
  load_parts :
      (env : Environment) (file c : Config f)
      → load_config f env file ≡ ok c
      → (dialled : Config f) × (logged : Config f) × (set_client f env (set_defaults f env file)
          ≡ ok dialled)
        × (set_logger f env dialled ≡ ok logged)
        × (c ≡ set_breaker f logged)
        × (validate f c ≡ ok tt)
  unfolding load_config
  load_parts env file c h =
      let last =
        λ (logged : Config f). validate f (set_breaker f logged) >> ok (set_breaker f logged) in
      let log = λ (dialled : Config f). set_logger f env dialled >>= last in
      let dial = set_client f env (set_defaults f env file) >>= log in
      let parse = guard env.text_parses parse_failed >> dial in
      let read = guard env.file_reads read_failed >> parse in
      let (_, _, at_read) = bind_ok (guard env.env_loads env_failed) (λ _. read) c h in
      let (_, _, at_parse) = bind_ok (guard env.file_reads read_failed) (λ _. parse) c at_read in
      let (_, _, at_dial) = bind_ok (guard env.text_parses parse_failed) (λ _. dial) c at_parse in
      let (dialled, d, at_log) =
        bind_ok (set_client f env (set_defaults f env file)) log c at_dial in
      let (logged, l, at_last) = bind_ok (set_logger f env dialled) last c at_log in
      let done = set_breaker f logged in
      let (u, v, at_end) = bind_ok (validate f done) (λ _. ok done) c at_last in
      let same : done ≡ c = ok_inj done c at_end in (dialled, logged, d, l, sym same, rw⁻¹ same v)

  -- The configuration that a LoadConfig answers, in the code's own terms.
  pub load_config-Passes :
      (env : Environment) (file c : Config f)
      → load_config f env file ≡ ok c
      → (c ≡ set_breaker f (record (set_defaults f env file) { client = true; logger = true }))
        × Passes (checks f c)
  unfolding validate checks
  load_config-Passes env file c h =
      let (dialled, logged, d, l, e, v) = load_parts env file c h in
      let pass = first_failure_ok (checks f c) v in
      let log = set_logger_ok env dialled logged l in
      elim (set_client_ok env (set_defaults f env file) dialled d) [
        | inl dial ↦ (
          e ∙ ap (set_breaker f) (log ∙ ap (λ (x : Config f). record x { logger = true }) dial),
          pass,
        )
        | inr (kept, empty) ↦
            let set : is_empty c.rpc_endpoint ≡ false = pass.0 in
            let rpc : c.rpc_endpoint ≡ (set_defaults f env file).rpc_endpoint =
              ap (λ x. x.rpc_endpoint) e
              ∙ (set_breaker_rpc logged
                  ∙ (ap (λ x. x.rpc_endpoint) log ∙ ap (λ x. x.rpc_endpoint) kept)) in
            absurd (cc (sym set ∙ (ap is_empty rpc ∙ empty)))
      ]

  -- A field that the file leaves at 0 has the default, any other has what the file says.
  abbrev pub IsDefaulted : ℤ → ℤ → ℤ → Type 0
  IsDefaulted read default answered =
      ((read ≡ pos 0) × (answered ≡ default)) ⊎ ((read ≢ pos 0) × (answered ≡ read))

  -- What a caller of LoadConfig may rely on.
  pub record IsLoaded (file c : Config f) : Type 0 where
    pub rpc : len c.rpc_endpoint ≢ 0
    pub chain : IsDefaulted file.chain_id (pos 1) c.chain_id
    pub workers : IsDefaulted file.workers (pos 4) c.workers
    pub pending : IsDefaulted file.max_pending_tx (pos 10000) c.max_pending_tx
    pub pending_positive : pos 0 <ℤ c.max_pending_tx
    pub buffer : IsDefaulted file.block_buffer_size (pos 50) c.block_buffer_size
    pub buffer_positive : pos 0 <ℤ c.block_buffer_size
    pub boost : f.le c.gas_boost_factor (f.decimal 10 1) ≡ false
    pub loan : f.le c.max_loan_amount (f.decimal 0 0) ≡ false
    pub ratio : f.le c.min_profit_ratio (f.decimal 0 0) ≡ false
    pub slippage_low : f.le c.max_slippage (f.decimal 0 0) ≡ false
    pub slippage_high : f.le (f.decimal 100 0) c.max_slippage ≡ false
    pub threshold : f.le c.circuit_breaker_threshold (f.decimal 0 0) ≡ false
    pub router : (c.router_address ≡ file.router_address) × (len c.router_address ≢ 0)
    pub executor : (c.sandwich_executor ≡ file.sandwich_executor) × (len c.sandwich_executor ≢ 0)
    pub gas_price : (price : ℤ) × (file.max_gas_price ≡ some price) × (c.max_gas_price ≡ some price)
    pub breaker : (b : CircuitBreakerConfig) × (c.circuit_breaker ≡ some b)
    pub connected : c.client ≡ true
    pub logging : c.logger ≡ true

  or_int-IsDefaulted : (x d : ℤ) → IsDefaulted x d (or_int f x d)
  or_int-IsDefaulted (pos zero) d = inl (refl, refl)
  or_int-IsDefaulted (pos (suc n)) d =
      let nonzero : is_zero (pos (suc n)) ≡ false = ground arith in
      inr (λ e. absurd (cc e), rw nonzero refl)
  or_int-IsDefaulted (negsuc n) d =
      let nonzero : is_zero (negsuc n) ≡ false = ground arith in
      inr (λ e. absurd (cc e), rw nonzero refl)

  not_empty : (s : String) → is_empty s ≡ false → len s ≢ 0
  not_empty s h = ground arith

  above_zero : (x : ℤ) → leb_ℤ x (pos 0) ≡ false → pos 0 <ℤ x
  above_zero x h = ground arith

  or_false : (a b : Bool) → (a || b) ≡ false → (a ≡ false) × (b ≡ false)
  or_false a b h = ground arith

  is_some : (x : Option ℤ) → is_none x ≡ false → (n : ℤ) × (x ≡ some n)
  is_some none h = absurd (cc h)
  is_some (some n) h = (n, refl)

  Passes-IsLoaded :
      (env : Environment) (file : Config f) (b : CircuitBreakerConfig)
      → let c = record (set_defaults f env file) {
        client = true;
        logger = true;
        circuit_breaker = some b;
      } in
        Passes (checks f c) → IsLoaded file c
  unfolding set_defaults checks
  Passes-IsLoaded env file b
        (
          rpc,
          (
            chain,
            (
              pending,
              (buffer, (boost, (loan, (ratio, (slippage, (thr, (router, (exec, (gas, _))))))))),
            ),
          ),
        ) =
      let (low, high) = or_false _ _ slippage in
      let (price, there) = is_some file.max_gas_price gas in
      record {
        rpc = not_empty _ rpc;
        chain = or_int-IsDefaulted file.chain_id (pos 1);
        workers = or_int-IsDefaulted file.workers (pos 4);
        pending = or_int-IsDefaulted file.max_pending_tx (pos 10000);
        pending_positive = above_zero _ pending;
        buffer = or_int-IsDefaulted file.block_buffer_size (pos 50);
        buffer_positive = above_zero _ buffer;
        boost = boost;
        loan = loan;
        ratio = ratio;
        slippage_low = low;
        slippage_high = high;
        threshold = thr;
        router = (refl, not_empty _ router);
        executor = (refl, not_empty _ exec);
        gas_price = (price, there, there);
        breaker = (b, refl);
        connected = refl;
        logging = refl;
      }

  set_breaker_cases :
      (c : Config f)
      → (b : CircuitBreakerConfig) × (set_breaker f c ≡ record c { circuit_breaker = some b })
  unfolding set_breaker
  set_breaker_cases c = elim (Option-cases c.circuit_breaker) [
    | inl n ↦ (default_breaker, simp (set_breaker, n) refl)
    | inr (b, e) ↦ (b, kept b e ∙ ap (λ o. record c { circuit_breaker = o }) e)
  ]
    where
      kept : (b : CircuitBreakerConfig) → c.circuit_breaker ≡ some b → set_breaker f c ≡ c
      kept b e = simp (set_breaker, e) refl

  -- A LoadConfig that succeeds answers a configuration with a node to call; with the chain, the
  -- workers and the two sizes of the mempool as in the file, or 1, 4, 10000 and 50 where the file has
  -- 0, the sizes above 0; with every fraction and bound in the range that validate allows; with the
  -- router, the executor and the highest gas price of the file, none of them missing; and with a
  -- circuit breaker, a client and a logger.
  pub load_config-IsLoaded :
      (env : Environment) (file c : Config f) → load_config f env file ≡ ok c → IsLoaded file c
  load_config-IsLoaded env file c h =
      let (e, pass) = load_config-Passes env file c h in
      let (b, made) =
        set_breaker_cases (record (set_defaults f env file) { client = true; logger = true }) in
      let same = e ∙ made in
      subst⁻¹ (IsLoaded file) same
        (Passes-IsLoaded env file b (subst (λ x. Passes (checks f x)) same pass))

  -- What NewConfig answers never passes validate: it has no router address.
  pub new_config-fails :
      (env : Environment) (c : Config f)
      → new_config f env ≡ ok c
      → (e : ConfigError) × (validate f c ≡ err e)
  unfolding new_config validate checks default_config
  new_config-fails env c h =
      let (dialled, d, l) =
        bind_ok (set_client f env (default_config f env)) (set_logger f env) c h in
      let router : c.router_address ≡ dialled.router_address =
        ap (λ x. x.router_address) (set_logger_ok env dialled c l) in
      let kept : dialled.router_address ≡ "" =
        elim (set_client_ok env (default_config f env) dialled d) [
          | inl e ↦ ap (λ x. x.router_address) e
          | inr (e, _) ↦ ap (λ x. x.router_address) e
        ] in
      let fails : is_empty c.router_address ≡ true = ap is_empty (router ∙ kept) in
      first_failure_err (checks f c)
        (inr (inr (inr (inr (inr (inr (inr (inr (inr (inl fails))))))))))
