-- ===== src/Programs/Queryapi/Lifetime.antt =====
-- One run of the query API: what it gives back.
use session_analysis_platfor.Prelude.{refl, List, [], ◌∷◌, Bytes}
use session_analysis_platfor.Config
use session_analysis_platfor.Config.{Loading, load_service}
use session_analysis_platfor.Telemetry
use session_analysis_platfor.Telemetry.{Setup, setup}
use session_analysis_platfor.Telemetry.Unwind.{SetupIsClean, setup-SetupIsClean}
use session_analysis_platfor.Process.{
  Resource, signals, tracer, meter, Call, acquire, release, held, same_resource,
}
use session_analysis_platfor.Programs.{Outside, serve, shutdown_telemetry}
use session_analysis_platfor.Programs.Brackets.{
  Keeps, around-Keeps, serve-Keeps, held-shutdown_telemetry,
}
use session_analysis_platfor.Programs.Queryapi.{
  service_name, default_listen_addr, served_by, after_setup, after_config, run,
}

module _ (out : Outside) where
  after_setup-Keeps :
      (base : List Resource) (cfg : Config.Service) (o : List Call × Setup)
      → SetupIsClean base out.collector o
      → Keeps base (after_setup out cfg o)
  unfolding after_setup
  after_setup-Keeps base cfg (calls, Telemetry.failed es) (h, _, _) = h
  after_setup-Keeps base cfg (calls, Telemetry.ready rs) (e, h, u, _) =
      around-Keeps base (meter ∷ tracer ∷ base) calls (shutdown_telemetry out.collector rs)
        (serve (served_by cfg) out.serving) h (held-shutdown_telemetry base out.collector rs u)
        (serve-Keeps (meter ∷ tracer ∷ base) (served_by cfg) out.serving)

  after_config-Keeps :
      (base : List Resource) (l : Loading Config.Service) → Keeps base (after_config out l)
  unfolding after_config held
  after_config-Keeps base (Config.failed e) = refl
  after_config-Keeps base (Config.loaded cfg) =
      after_setup-Keeps base cfg _ (setup-SetupIsClean base out.collector cfg)

  pub query_run-Keeps : (version : Bytes) → Keeps [] (run out version)
  unfolding run held same_resource
  query_run-Keeps version =
      around-Keeps [] (signals ∷ []) (acquire signals ∷ []) (release signals ∷ [])
        (after_config out (load_service out.environment service_name version default_listen_addr))
        refl refl (after_config-Keeps (signals ∷ []) _)
