-- ===== src/Pool.antt =====
-- internal/database/pool.go: the options of a pool, and `Open`.
pub mod Opened
use session_analysis_platfor.Prelude.{
  ℕ, zero, suc, ◌*◌, ◌/◌, List, [], ◌∷◌, Option, none, some, Bytes, codes, str_eq, if◌then◌else◌,
}
use session_analysis_platfor.Prelude.Int.{ℤ, pos, negsuc, is_positive}
use session_analysis_platfor.Strconv.{format_uint}
use session_analysis_platfor.Process.{pool, Call, acquire, release, ping}

-- `time.Duration`: nanoseconds
abbrev pub Duration : Type 0
Duration = ℤ

abbrev pub seconds : ℕ → Duration
seconds n = pos (n * 1000000000)

pub record Options : Type 0 where
  pub max_conns : ℤ
  pub min_conns : ℤ
  pub max_conn_lifetime : Duration
  pub max_conn_idle_time : Duration
  pub connect_timeout : Duration
  pub statement_timeout : Duration
  pub health_check_period : Duration

unfoldable pub ingest_options : Options
ingest_options = record {
  max_conns = pos 8;
  min_conns = pos 2;
  max_conn_lifetime = seconds 1800;
  max_conn_idle_time = seconds 300;
  connect_timeout = seconds 5;
  statement_timeout = seconds 1;
  health_check_period = seconds 30;
}

-- `pgxpool.Config`, as far as `Open` sets it; `none` is a nil map
pub record PoolConfig : Type 0 where
  pub max_conns : ℤ
  pub min_conns : ℤ
  pub max_conn_lifetime : Duration
  pub max_conn_idle_time : Duration
  pub health_check_period : Duration
  pub connect_timeout : Duration
  pub runtime_params : Option (List (Bytes × Bytes))

-- What the package pgxpool answers: the config that a connection string stands for, and the errors
-- of building a pool and of reaching the server.
pub record PoolPackage : Type 0 where
  pub parse_config : Bytes → Option PoolConfig
  pub create_fails : PoolConfig → Option Bytes
  pub ping_fails : Option Bytes

pub data OpenError : Type 0 where
  bad_connection_string : OpenError
  no_pool unreachable : Bytes → OpenError

pub data Opening : Type 0 where
  refused : OpenError → Opening
  opened : PoolConfig → Opening

-- `m[key] = value`
unfoldable pub put : Bytes → Bytes → List (Bytes × Bytes) → List (Bytes × Bytes)
put key value [] = (key, value) ∷ []
put key value ((k, v) ∷ m) = if str_eq k key then (key, value) ∷ m else (k, v) ∷ put key value m

unfoldable pub get : Bytes → List (Bytes × Bytes) → Option Bytes
get key [] = none
get key ((k, v) ∷ m) = if str_eq k key then some v else get key m

abbrev params_of : Option (List (Bytes × Bytes)) → List (Bytes × Bytes)
params_of none = []
params_of (some m) = m

-- `d.Milliseconds()` of a positive duration, written by `%d`
abbrev pub milliseconds : Duration → Bytes
milliseconds (pos n) = format_uint (n / 1000000)
milliseconds (negsuc n) = codes "0"

-- `if opts.StatementTimeout > 0 { … }`
with_timeout : Duration → Option (List (Bytes × Bytes)) → Option (List (Bytes × Bytes))
with_timeout d params =
    if is_positive d
    then some (put (codes "statement_timeout") (milliseconds d) (params_of params))
    else params

unfoldable pub configure : Options → PoolConfig → PoolConfig
unfolding with_timeout
configure opts cfg = record {
  max_conns = opts.max_conns;
  min_conns = opts.min_conns;
  max_conn_lifetime = opts.max_conn_lifetime;
  max_conn_idle_time = opts.max_conn_idle_time;
  health_check_period = opts.health_check_period;
  connect_timeout = opts.connect_timeout;
  runtime_params = with_timeout opts.statement_timeout cfg.runtime_params;
}

-- behind `pool.Ping`
after_ping : PoolConfig → Option Bytes → List Call × Opening
after_ping cfg (some e) = (acquire pool ∷ ping ∷ release pool ∷ [], refused (unreachable e))
after_ping cfg none = (acquire pool ∷ ping ∷ [], opened cfg)

-- behind `pgxpool.NewWithConfig`
after_create : PoolPackage → PoolConfig → Option Bytes → List Call × Opening
unfolding after_ping
after_create package_ cfg (some e) = ([], refused (no_pool e))
after_create package_ cfg none = after_ping cfg package_.ping_fails

-- behind `pgxpool.ParseConfig`
after_parse : PoolPackage → Options → Option PoolConfig → List Call × Opening
unfolding after_create
after_parse package_ opts none = ([], refused bad_connection_string)
after_parse package_ opts (some cfg) =
    after_create package_ (configure opts cfg) (package_.create_fails (configure opts cfg))

-- `Open`
unfoldable pub open_pool : PoolPackage → Bytes → Options → List Call × Opening
unfolding after_parse
open_pool package_ url opts = after_parse package_ opts (package_.parse_config url)
