-- ===== src/Programs/Ingester.antt =====
-- cmd/ingester/main.go: `run`, cut where it returns early.
pub mod Lifetime
use session_analysis_platfor.Prelude.{ℕ, List, [], ◌∷◌, ◌++◌, Option, none, some, Bytes, codes}
use session_analysis_platfor.Config
use session_analysis_platfor.Config.{Loading, load_ingester}
use session_analysis_platfor.Livekit.Verify.{Verifier, new_verifier}
use session_analysis_platfor.Telemetry.{Setup, setup}
use session_analysis_platfor.Telemetry
use session_analysis_platfor.Pool.{Opening, ingest_options, open_pool}
use session_analysis_platfor.Pool
use session_analysis_platfor.Metrics.Register.{Registered, misconfigured, measuring, new_ingest}
use session_analysis_platfor.Process.{signals, pool, Served, Call, acquire, release}
use session_analysis_platfor.Programs.{
  main_program, Outside, Run, bad_config, no_telemetry, no_database, no_secret, no_meter, before,
  deferred, serve, shutdown_telemetry,
}

abbrev pub service_name : Bytes
service_name = codes "sap-ingester"

abbrev pub default_listen_addr : Bytes
default_listen_addr = codes ":8080"

-- what the handler and the server are built with
abbrev pub served_by : Config.Ingester → Verifier → Served
served_by cfg v = record {
  addr = cfg.service.listen_addr;
  verifier = some v;
  max_body_bytes = some cfg.max_body_bytes;
}

module _ (out : Outside) where
  after_metrics : Config.Ingester → Verifier → Registered → Run
  after_metrics cfg v (misconfigured e) = ([], some (no_meter e))
  after_metrics cfg v (measuring m) = serve (served_by cfg v) out.serving

  after_verifier : Config.Ingester → Option Verifier → Run
  unfolding after_metrics
  after_verifier cfg none = ([], some no_secret)
  after_verifier cfg (some v) = after_metrics cfg v (new_ingest out.meter)

  after_open : Config.Ingester → List Call × Opening → Run
  unfolding after_verifier
  after_open cfg (calls, Pool.refused e) = (calls, some (no_database e))
  after_open cfg (calls, Pool.opened p) = before calls (
      deferred (release pool ∷ [])
        (after_verifier cfg (new_verifier cfg.livekit_api_key cfg.livekit_api_secret)))

  after_setup : Config.Ingester → List Call × Setup → Run
  unfolding after_open
  after_setup cfg (calls, Telemetry.failed es) = (calls, some (no_telemetry es))
  after_setup cfg (calls, Telemetry.ready rs) = before calls (
      deferred (shutdown_telemetry out.collector rs)
        (after_open cfg (open_pool out.postgres cfg.database_url ingest_options)))

  after_config : Loading Config.Ingester → Run
  unfolding after_setup
  after_config (Config.failed e) = ([], some (bad_config e))
  after_config (Config.loaded cfg) = after_setup cfg (setup out.collector cfg.service)

  -- `version` is stamped in when the program is built
  unfoldable pub run : Bytes → Run
  unfolding after_config
  run version = before (acquire signals ∷ []) (
      deferred (release signals ∷ [])
        (after_config (load_ingester out.environment service_name version default_listen_addr)))

  -- the calls of the program, and its exit code
  unfoldable pub main : Bytes → List Call × ℕ
  main version = main_program (run version)
