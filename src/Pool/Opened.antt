-- ===== src/Pool/Opened.antt =====
-- What `Open` leaves open, and how the pool that it returns is configured.
use session_analysis_platfor.Strconv.{format_uint}
use session_analysis_platfor.Prelude.{
  ℕ, str_eq, ◌/◌, ◌<◌, ap, ◌∙◌, false, Bool-cases, inl, inr, eq_of_str_eq, ◌≡◌, refl, true, List,
  [], ◌∷◌, Option, none, some, Bytes, codes, str_eq_refl, arith,
}
use session_analysis_platfor.Prelude.Int.{pos, is_positive}
use session_analysis_platfor.Process.{pool, Call, held, served, Resource, same_resource}
use session_analysis_platfor.Pool.{
  Options, PoolConfig, PoolPackage, Opening, refused, opened, put, get, params_of, with_timeout,
  configure, after_ping, after_create, after_parse, open_pool,
}

get-put : (key value : Bytes) (m : List (Bytes × Bytes)) → get key (put key value m) ≡ some value
unfolding get put
get-put key value [] = rw (str_eq_refl key) refl
get-put key value ((k, v) ∷ m) = ground (arith, str_eq_refl key, get-put key value m)

-- the setting of the server's session for one name; none where it is not set
abbrev pub param : Bytes → PoolConfig → Option Bytes
param key cfg = get key (params_of cfg.runtime_params)

get-put_other :
    (key name value : Bytes) (m : List (Bytes × Bytes))
    → str_eq name key ≡ false
    → get key (put name value m) ≡ get key m
unfolding get put
get-put_other key name value [] h = rw h refl
get-put_other key name value ((k, v) ∷ m) h = elim (Bool-cases (str_eq k name)) [
  | inl e ↦
      let same : k ≡ name = eq_of_str_eq k name e in
      let n : str_eq k key ≡ false = ap (λ x. str_eq x key) same ∙ h in rw (e, h, n) refl
  | inr e ↦ rw e (ground (arith, get-put_other key name value m h))
]

-- A pool's config has the options set: its own settings are theirs; the server's `statement_timeout`
-- is theirs in milliseconds, and that of the connection string where they have none; and the server's
-- other settings are those of the connection string.
pub record IsConfigured (opts : Options) (parsed cfg : PoolConfig) : Type 0 where
  pub max_conns : cfg.max_conns ≡ opts.max_conns
  pub min_conns : cfg.min_conns ≡ opts.min_conns
  pub max_conn_lifetime : cfg.max_conn_lifetime ≡ opts.max_conn_lifetime
  pub max_conn_idle_time : cfg.max_conn_idle_time ≡ opts.max_conn_idle_time
  pub health_check_period : cfg.health_check_period ≡ opts.health_check_period
  pub connect_timeout : cfg.connect_timeout ≡ opts.connect_timeout
  pub statement_timeout :
      (n : ℕ)
      → opts.statement_timeout ≡ pos n
      → 0 < n
      → param (codes "statement_timeout") cfg ≡ some (format_uint (n / 1000000))
  pub no_statement_timeout :
      is_positive opts.statement_timeout ≡ false → cfg.runtime_params ≡ parsed.runtime_params
  pub others :
      (key : Bytes)
      → str_eq (codes "statement_timeout") key ≡ false
      → param key cfg ≡ param key parsed

positive_pos : (n : ℕ) → 0 < n → is_positive (pos n) ≡ true
positive_pos n h = ground (arith, h)

configure-IsConfigured :
    (opts : Options) (cfg : PoolConfig) → IsConfigured opts cfg (configure opts cfg)
unfolding configure with_timeout
configure-IsConfigured opts cfg = record {
  max_conns = refl;
  min_conns = refl;
  max_conn_lifetime = refl;
  max_conn_idle_time = refl;
  health_check_period = refl;
  connect_timeout = refl;
  statement_timeout = λ n e p.
      rw (e, positive_pos n p)
        (get-put (codes "statement_timeout") (format_uint (n / 1000000))
          (params_of cfg.runtime_params));
  no_statement_timeout = λ h. rw h refl;
  others = λ key h. elim (Bool-cases (is_positive opts.statement_timeout)) [
    | inr n ↦ rw n refl
    | inl p ↦
        rw p (get-put_other key (codes "statement_timeout") _ (params_of cfg.runtime_params) h)
  ];
}

-- What `Open` answers, against the calls that it has made.
abbrev pub OpenIsSound :
    List Resource → PoolPackage → Bytes → Options → List Call × Opening → Type 0
OpenIsSound base package_ url opts (calls, refused e) =
    (held calls base ≡ some base) × (served calls ≡ [])
OpenIsSound base package_ url opts (calls, opened cfg) =
    (held calls base ≡ some (pool ∷ base))
    × (served calls ≡ [])
    × (package_.ping_fails ≡ none)
    × ((parsed : PoolConfig) × (package_.parse_config url ≡ some parsed)
        × IsConfigured opts parsed cfg)

module _ (base : List Resource) (package_ : PoolPackage) (url : Bytes) (opts : Options) where
  after_ping-OpenIsSound :
      (parsed : PoolConfig) (o : Option Bytes)
      → package_.parse_config url ≡ some parsed
      → package_.ping_fails ≡ o
      → OpenIsSound base package_ url opts (after_ping (configure opts parsed) o)
  unfolding after_ping held same_resource served
  after_ping-OpenIsSound parsed (some e) h k = (refl, refl)
  after_ping-OpenIsSound parsed none h k =
      (refl, refl, k, (parsed, h, configure-IsConfigured opts parsed))

  after_create-OpenIsSound :
      (parsed : PoolConfig) (o : Option Bytes)
      → package_.parse_config url ≡ some parsed
      → OpenIsSound base package_ url opts (after_create package_ (configure opts parsed) o)
  unfolding after_create held served
  after_create-OpenIsSound parsed (some e) h = (refl, refl)
  after_create-OpenIsSound parsed none h = after_ping-OpenIsSound parsed package_.ping_fails h refl

  after_parse-OpenIsSound :
      (o : Option PoolConfig)
      → package_.parse_config url ≡ o
      → OpenIsSound base package_ url opts (after_parse package_ opts o)
  unfolding after_parse held served
  after_parse-OpenIsSound none h = (refl, refl)
  after_parse-OpenIsSound (some parsed) h = after_create-OpenIsSound parsed _ h

  -- An `Open` that fails leaves no pool open. One that succeeds leaves one and has reached the server.
  -- The two limits, the lifetime, the idle time, the health check's period and the connect timeout of
  -- its config are each that of the options; the server's `statement_timeout` is theirs in
  -- milliseconds, where it is positive; the server's other settings, and that one where it is not,
  -- are those of the connection string.
  pub open_pool-OpenIsSound : OpenIsSound base package_ url opts (open_pool package_ url opts)
  unfolding open_pool
  open_pool-OpenIsSound = after_parse-OpenIsSound (package_.parse_config url) refl
