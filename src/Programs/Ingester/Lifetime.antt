-- ===== src/Programs/Ingester/Lifetime.antt =====
-- One run of the ingester: what it gives back, and what it serves.
use session_analysis_platfor.Prelude.{
  ◌≡◌, ◌≢◌, refl, inl, inr, ◌⊎◌, List, [], ◌∷◌, Option, none, some, Bytes,
}
use session_analysis_platfor.Config
use session_analysis_platfor.Config.{Loading, load_ingester}
use session_analysis_platfor.Config.Loaded.{IsUsable, verifier_of, load_ingester-IsUsable}
use session_analysis_platfor.Livekit.Verify.{Verifier, new_verifier}
use session_analysis_platfor.Telemetry
use session_analysis_platfor.Telemetry.{Setup, setup}
use session_analysis_platfor.Telemetry.Unwind.{SetupIsClean, setup-SetupIsClean}
use session_analysis_platfor.Pool
use session_analysis_platfor.Pool.{Opening, ingest_options, open_pool}
use session_analysis_platfor.Pool.Opened.{OpenIsSound, open_pool-OpenIsSound}
use session_analysis_platfor.Metrics.Register.{Registered, misconfigured, measuring, new_ingest}
use session_analysis_platfor.Process.{
  Resource, signals, tracer, meter, pool, Call, acquire, release, held, served, same_resource,
}
use session_analysis_platfor.Programs.{
  Outside, Run, no_secret, shutdown_telemetry, before, deferred,
}
use session_analysis_platfor.Programs.Brackets.{
  Keeps, around-Keeps, serve-Keeps, held-shutdown_telemetry, ServesAtMost, around-ServesAtMost,
  ServesAtMost-map, serve-ServesAtMost, served-shutdown_telemetry,
}
use session_analysis_platfor.Programs.Ingester.{
  service_name, default_listen_addr, served_by, after_metrics, after_verifier, after_open,
  after_setup, after_config, run,
}

module _ (out : Outside) where
  after_metrics-Keeps :
      (base : List Resource) (cfg : Config.Ingester) (v : Verifier) (m : Registered)
      → Keeps base (after_metrics out cfg v m)
  unfolding after_metrics held
  after_metrics-Keeps base cfg v (misconfigured x) = refl
  after_metrics-Keeps base cfg v (measuring i) = serve-Keeps base (served_by cfg v) out.serving

  after_verifier-Keeps :
      (base : List Resource) (cfg : Config.Ingester) (o : Option Verifier)
      → Keeps base (after_verifier out cfg o)
  unfolding after_verifier held
  after_verifier-Keeps base cfg none = refl
  after_verifier-Keeps base cfg (some v) = after_metrics-Keeps base cfg v _

  after_open-Keeps :
      (base : List Resource) (cfg : Config.Ingester) (o : List Call × Opening)
      → OpenIsSound base out.postgres cfg.database_url ingest_options o
      → Keeps base (after_open out cfg o)
  unfolding after_open held same_resource
  after_open-Keeps base cfg (calls, Pool.refused e) (h, v) = h
  after_open-Keeps base cfg (calls, Pool.opened p) (h, v, _, _) =
      around-Keeps base (pool ∷ base) calls (release pool ∷ [])
        (after_verifier out cfg (new_verifier cfg.livekit_api_key cfg.livekit_api_secret)) h refl
        (after_verifier-Keeps (pool ∷ base) cfg _)

  after_setup-Keeps :
      (base : List Resource) (cfg : Config.Ingester) (o : List Call × Setup)
      → SetupIsClean base out.collector o
      → Keeps base (after_setup out cfg o)
  unfolding after_setup
  after_setup-Keeps base cfg (calls, Telemetry.failed es) (h, _, _) = h
  after_setup-Keeps base cfg (calls, Telemetry.ready rs) (e, h, u, _) =
      around-Keeps base (meter ∷ tracer ∷ base) calls (shutdown_telemetry out.collector rs)
        (after_open out cfg (open_pool out.postgres cfg.database_url ingest_options)) h
        (held-shutdown_telemetry base out.collector rs u)
        (after_open-Keeps (meter ∷ tracer ∷ base) cfg _
          (open_pool-OpenIsSound _ out.postgres cfg.database_url ingest_options))

  after_config-Keeps :
      (base : List Resource) (l : Loading Config.Ingester) → Keeps base (after_config out l)
  unfolding after_config held
  after_config-Keeps base (Config.failed e) = refl
  after_config-Keeps base (Config.loaded cfg) =
      after_setup-Keeps base cfg _ (setup-SetupIsClean base out.collector cfg.service)

  pub run-Keeps : (version : Bytes) → Keeps [] (run out version)
  unfolding run held same_resource
  run-Keeps version =
      around-Keeps [] (signals ∷ []) (acquire signals ∷ []) (release signals ∷ [])
        (after_config out (load_ingester out.environment service_name version default_listen_addr))
        refl refl (after_config-Keeps (signals ∷ []) _)

  after_metrics-ServesAtMost :
      (cfg : Config.Ingester) (v : Verifier) (m : Registered)
      → ServesAtMost (Unit {0}) (served_by cfg v) (after_metrics out cfg v m)
  unfolding after_metrics served
  after_metrics-ServesAtMost cfg v (misconfigured x) = ((λ h. cc h), inl (refl, λ h. cc h))
  after_metrics-ServesAtMost cfg v (measuring i) = serve-ServesAtMost (served_by cfg v) out.serving

  after_open-ServesAtMost :
      (cfg : Config.Ingester) (o : List Call × Opening)
      → new_verifier cfg.livekit_api_key cfg.livekit_api_secret ≡ some (verifier_of cfg)
      → OpenIsSound [] out.postgres cfg.database_url ingest_options o
      → ServesAtMost
          (out.postgres.ping_fails ≡ none)
          (served_by cfg (verifier_of cfg))
          (after_open out cfg o)
  unfolding after_open after_verifier served
  after_open-ServesAtMost cfg (calls, Pool.refused e) w (h, v) = ((λ h. cc h), inl (v, λ h. cc h))
  after_open-ServesAtMost cfg (calls, Pool.opened p) w (h, v, pinged, _) =
      around-ServesAtMost (served_by cfg (verifier_of cfg)) calls (release pool ∷ [])
        (after_verifier out cfg (new_verifier cfg.livekit_api_key cfg.livekit_api_secret)) v refl
        (rw w (
          ServesAtMost-map _ (after_metrics out cfg (verifier_of cfg) (new_ingest out.meter))
            (λ _. pinged) (after_metrics-ServesAtMost cfg (verifier_of cfg) _)))

  after_setup-ServesAtMost :
      (cfg : Config.Ingester) (o : List Call × Setup)
      → new_verifier cfg.livekit_api_key cfg.livekit_api_secret ≡ some (verifier_of cfg)
      → SetupIsClean [] out.collector o
      → ServesAtMost
          (out.postgres.ping_fails ≡ none)
          (served_by cfg (verifier_of cfg))
          (after_setup out cfg o)
  unfolding after_setup
  after_setup-ServesAtMost cfg (calls, Telemetry.failed es) w (h, _, v) =
      ((λ h. cc h), inl (v, λ h. cc h))
  after_setup-ServesAtMost cfg (calls, Telemetry.ready rs) w (e, h, u, v) =
      around-ServesAtMost (served_by cfg (verifier_of cfg)) calls
        (shutdown_telemetry out.collector rs)
        (after_open out cfg (open_pool out.postgres cfg.database_url ingest_options)) v
        (served-shutdown_telemetry out.collector rs e)
        (after_open-ServesAtMost cfg _ w
          (open_pool-OpenIsSound _ out.postgres cfg.database_url ingest_options))

  -- What a run has served, and from what configuration.
  abbrev pub ServesUsable : Bytes → Run → Type 0
  ServesUsable version (calls, e) =
      (e ≢ some no_secret)
      × (((served calls ≡ []) × (e ≢ none))
          ⊎ ((cfg : Config.Ingester) × (load_ingester out.environment service_name version
                  default_listen_addr
                ≡ Config.loaded cfg)
              × IsUsable cfg
              × (out.postgres.ping_fails ≡ none)
              × (served calls ≡ served_by cfg (verifier_of cfg) ∷ [])))

  ServesUsable-of :
      (version : Bytes) (r : Run) (cfg : Config.Ingester)
      → load_ingester out.environment service_name version default_listen_addr ≡ Config.loaded cfg
      → IsUsable cfg
      → ServesAtMost (out.postgres.ping_fails ≡ none) (served_by cfg (verifier_of cfg)) r
      → ServesUsable version r
  ServesUsable-of version (calls, e) cfg l u (n, k) =
      (n, elim k [ inl z ↦ inl z | inr (p, z) ↦ inr (cfg, l, u, p, z) ])

  configured-ServesUsable :
      (version : Bytes) (l : Loading Config.Ingester)
      → load_ingester out.environment service_name version default_listen_addr ≡ l
      → ServesUsable version
          (before (acquire signals ∷ []) (deferred (release signals ∷ []) (after_config out l)))
  unfolding after_config served
  configured-ServesUsable version (Config.failed e) h = ((λ q. cc q), inl (refl, λ q. cc q))
  configured-ServesUsable version (Config.loaded cfg) h =
      let u =
        load_ingester-IsUsable out.environment service_name version default_listen_addr cfg h in
      ServesUsable-of version
        (before (acquire signals ∷ [])
          (deferred (release signals ∷ []) (after_setup out cfg (setup out.collector cfg.service))))
        cfg h u
        (around-ServesAtMost (served_by cfg (verifier_of cfg)) (acquire signals ∷ [])
          (release signals ∷ []) (after_setup out cfg (setup out.collector cfg.service)) refl refl
          (after_setup-ServesAtMost cfg _ u.verifies
            (setup-SetupIsClean [] out.collector cfg.service)))

  -- A run of the ingester fails without serving, or it has started one server: behind a usable
  -- configuration and a PostgreSQL server that has answered, with that configuration's address and
  -- limit and with the verifier of its secret. It never fails for want of a secret there.
  pub run-ServesUsable : (version : Bytes) → ServesUsable version (run out version)
  unfolding run
  run-ServesUsable version = configured-ServesUsable version _ refl
