-- ===== src/Telemetry.antt =====
-- internal/telemetry/telemetry.go: `Setup` and the shutdown function that it returns.
pub mod Unwind
use session_analysis_platfor.Prelude.{
  ℕ, zero, suc, List, [], ◌∷◌, ◌++◌, Option, none, some, Bytes, codes, length, get_elem?,
  if◌then◌else◌,
}
use session_analysis_platfor.Config.{Service}
use session_analysis_platfor.Process.{
  Resource, tracer, meter, signals, pool, ExporterOption, with_endpoint, with_insecure, Call,
  acquire, release, describe, connect, install, set_propagator, start_runtime,
}

-- What OpenTelemetry's packages answer in one run: an error's text, or none.
pub record Collector : Type 0 where
  pub resource : Option Bytes
  pub trace_exporter : Option Bytes
  pub metric_exporter : Option Bytes
  pub runtime : Option Bytes
  pub shutdown : Resource → Option Bytes

pub data TelemetryError : Type 0 where
  build_resource otlp_trace_exporter otlp_metric_exporter start_instrumentation :
      Bytes → TelemetryError
  provider_shutdown : Bytes → TelemetryError

-- the joined errors, or the providers that the shutdown function has captured
pub data Setup : Type 0 where
  failed : List TelemetryError → Setup
  ready : List Resource → Setup

-- `errors.Join` leaves a nil error out
abbrev pub shutdown_errors : Option Bytes → List TelemetryError
shutdown_errors none = []
shutdown_errors (some e) = provider_shutdown e ∷ []

-- `errs = append(errs, shutdowns[i](ctx))`
unwind_one : Collector → Option Resource → List Call × List TelemetryError
unwind_one c none = ([], [])
unwind_one c (some r) = (release r ∷ [], shutdown_errors (c.shutdown r))

-- `for i := len(shutdowns) - 1; i >= 0; i--`, with `i + 1` rounds left
unwind_loop :
    Collector
    → List Resource
    → ℕ
    → List Call
    → List TelemetryError
    → List Call × List TelemetryError
unwind_loop c rs zero calls errs = (calls, errs)
unwind_loop c rs (suc i) calls errs =
    unwind_loop c rs i (calls ++ (unwind_one c (get_elem? rs i)).0)
      (errs ++ (unwind_one c (get_elem? rs i)).1)

unfoldable pub unwind : Collector → List Resource → List Call × List TelemetryError
unfolding unwind_loop unwind_one
unwind c rs = unwind_loop c rs (length rs) [] []

-- the attributes of `newResource` that the program names itself
unfoldable pub new_resource : Service → List (Bytes × Bytes)
new_resource cfg =
    (codes "service.name", cfg.name)
    ∷ (codes "service.version", cfg.version)
    ∷ (codes "deployment.environment", cfg.environment)
    ∷ []

-- `traceOpts` and `metricOpts`
unfoldable pub exporter_options : Service → List ExporterOption
exporter_options cfg =
    with_endpoint cfg.otlp_endpoint ∷ (if cfg.otlp_insecure then with_insecure ∷ [] else [])

abbrev pub behind : List Call → List Call × Setup → List Call × Setup
behind calls (more, s) = (calls ++ more, s)

-- behind `runtime.Start`
after_runtime : Collector → Option Bytes → List Call × Setup
after_runtime c (some e) = (
  (unwind c (tracer ∷ meter ∷ [])).0,
  failed (start_instrumentation e ∷ (unwind c (tracer ∷ meter ∷ [])).1),
)
after_runtime c none = ([], ready (tracer ∷ meter ∷ []))

-- behind `otlpmetricgrpc.New`
after_metric_exporter : Collector → Option Bytes → List Call × Setup
unfolding after_runtime
after_metric_exporter c (some e) =
    ((unwind c (tracer ∷ [])).0, failed (otlp_metric_exporter e ∷ (unwind c (tracer ∷ [])).1))
after_metric_exporter c none =
    behind (acquire meter ∷ install meter ∷ start_runtime ∷ []) (after_runtime c c.runtime)

-- behind `otlptracegrpc.New`
after_trace_exporter : Collector → Service → Option Bytes → List Call × Setup
unfolding after_metric_exporter
after_trace_exporter c cfg (some e) = ([], failed (otlp_trace_exporter e ∷ []))
after_trace_exporter c cfg none =
    behind
      (acquire tracer ∷ install tracer ∷ set_propagator ∷ connect meter (exporter_options cfg) ∷ [])
      (after_metric_exporter c c.metric_exporter)

-- behind `newResource`
after_resource : Collector → Service → Option Bytes → List Call × Setup
unfolding after_trace_exporter
after_resource c cfg (some e) = ([], failed (build_resource e ∷ []))
after_resource c cfg none =
    behind (connect tracer (exporter_options cfg) ∷ [])
      (after_trace_exporter c cfg c.trace_exporter)

unfoldable pub setup : Collector → Service → List Call × Setup
unfolding after_resource
setup c cfg = behind (describe (new_resource cfg) ∷ []) (after_resource c cfg c.resource)
