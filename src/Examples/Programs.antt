-- ===== src/Examples/Programs.antt =====
-- The two programs, and what they start with: one run in which everything outside answers, and one
-- in which the metric exporter and the pool do not.
use session_analysis_platfor.Prelude.{
  ◌≡◌, refl, [], ◌∷◌, none, some, codes, true, if◌then◌else◌, str_eq,
}
use session_analysis_platfor.Config.{Service}
use session_analysis_platfor.Process.{signals, held}
use session_analysis_platfor.Telemetry.{Collector, setup}
use session_analysis_platfor.Telemetry.Unwind.{SetupIsClean, setup-SetupIsClean}
use session_analysis_platfor.Pool.{
  PoolConfig, PoolPackage, ingest_options, configure, open_pool, opened, seconds,
}
use session_analysis_platfor.Pool.Opened.{OpenIsSound, open_pool-OpenIsSound}
use session_analysis_platfor.Prelude.Int.{pos}
use session_analysis_platfor.Metrics.Register.{Meter, built, registration, new_ingest}
use session_analysis_platfor.Metrics.Register.Order.{
  first_refusal, up_to_refusal, instruments, new_ingest_lem,
}
use session_analysis_platfor.Programs.{Outside, interrupted}
use session_analysis_platfor.Programs.Ingester
use session_analysis_platfor.Programs.Ingester.Lifetime.{ServesUsable, run-ServesUsable}
use session_analysis_platfor.Programs.Queryapi
use session_analysis_platfor.Programs.Returned.{runs_give_back}
use session_analysis_platfor.Examples.Configured.{credentials}

abbrev answering : Collector
answering = record {
  resource = none;
  trace_exporter = none;
  metric_exporter = none;
  runtime = none;
  shutdown = λ r. none;
}

-- neither the metric exporter nor the tracer provider's shutdown succeeds
abbrev silent : Collector
silent = record answering {
  metric_exporter = some (codes "refused");
  shutdown = λ r. some (codes "late");
}

-- every connection string sets a statement timeout of its own
abbrev parsed : PoolConfig
parsed = record {
  max_conns = pos 4;
  min_conns = pos 0;
  max_conn_lifetime = seconds 3600;
  max_conn_idle_time = seconds 1800;
  health_check_period = seconds 60;
  connect_timeout = seconds 0;
  runtime_params = some ((codes "statement_timeout", codes "0") ∷ []);
}

abbrev reachable : PoolPackage
reachable = record {
  parse_config = λ url. some parsed;
  create_fails = λ cfg. none;
  ping_fails = none;
}

abbrev no_histogram : Meter
no_histogram name =
    if str_eq name (codes "sap_ingest_webhook_duration_seconds") then some (codes "taken") else none

abbrev fine : Outside
fine = record {
  environment = credentials;
  collector = answering;
  postgres = reachable;
  meter = λ name. none;
  serving = interrupted none;
}

abbrev service : Service
service = record {
  name = codes "ingester";
  version = codes "dev";
  environment = codes "local";
  listen_addr = codes ":8080";
  otlp_endpoint = codes "localhost:4317";
  otlp_insecure = true;
}

setup-SetupIsClean_example : SetupIsClean (signals ∷ []) silent (setup silent service)
setup-SetupIsClean_example = setup-SetupIsClean (signals ∷ []) silent service

open_pool-OpenIsSound_example :
    OpenIsSound [] reachable
      (codes "postgres://")
      ingest_options
      (open_pool reachable (codes "postgres://") ingest_options)
open_pool-OpenIsSound_example =
    open_pool-OpenIsSound [] reachable (codes "postgres://") ingest_options

opens : open_pool reachable (codes "postgres://") ingest_options ≡ (
  (open_pool reachable (codes "postgres://") ingest_options).0,
  opened (configure ingest_options parsed),
)
unfolding open_pool
opens = refl

new_ingest_lem_example :
    (new_ingest no_histogram ≡ built (first_refusal no_histogram instruments))
    × ((registration no_histogram).asked ≡ up_to_refusal no_histogram instruments)
new_ingest_lem_example = new_ingest_lem no_histogram

runs_give_back_example :
    (held (Ingester.main fine (codes "dev")).0 [] ≡ some [])
    × (held (Queryapi.main fine (codes "dev")).0 [] ≡ some [])
runs_give_back_example = runs_give_back fine (codes "dev")

run-ServesUsable_example : ServesUsable fine (codes "dev") (Ingester.run fine (codes "dev"))
run-ServesUsable_example = run-ServesUsable fine (codes "dev")
