-- ===== src/Programs/Queryapi.antt =====
-- cmd/queryapi/main.go: `run`, cut where it returns early.
pub mod Lifetime
use session_analysis_platfor.Prelude.{ℕ, List, [], ◌∷◌, ◌++◌, Option, none, some, Bytes, codes}
use session_analysis_platfor.Config
use session_analysis_platfor.Config.{Loading, load_service}
use session_analysis_platfor.Telemetry.{Setup, setup}
use session_analysis_platfor.Telemetry
use session_analysis_platfor.Process.{signals, Served, Call, acquire, release}
use session_analysis_platfor.Programs.{
  Outside, Run, bad_config, no_telemetry, before, deferred, serve, shutdown_telemetry, main_program,
}

abbrev pub service_name : Bytes
service_name = codes "sap-queryapi"

abbrev pub default_listen_addr : Bytes
default_listen_addr = codes ":8081"

abbrev pub served_by : Config.Service → Served
served_by cfg = record { addr = cfg.listen_addr; verifier = none; max_body_bytes = none }

module _ (out : Outside) where
  after_setup : Config.Service → List Call × Setup → Run
  after_setup cfg (calls, Telemetry.failed es) = (calls, some (no_telemetry es))
  after_setup cfg (calls, Telemetry.ready rs) =
      before calls
        (deferred (shutdown_telemetry out.collector rs) (serve (served_by cfg) out.serving))

  after_config : Loading Config.Service → Run
  unfolding after_setup
  after_config (Config.failed e) = ([], some (bad_config e))
  after_config (Config.loaded cfg) = after_setup cfg (setup out.collector cfg)

  unfoldable pub run : Bytes → Run
  unfolding after_config
  run version = before (acquire signals ∷ []) (
      deferred (release signals ∷ [])
        (after_config (load_service out.environment service_name version default_listen_addr)))

  -- the calls of the program, and its exit code
  unfoldable pub main : Bytes → List Call × ℕ
  main version = main_program (run version)
