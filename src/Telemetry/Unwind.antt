-- ===== src/Telemetry/Unwind.antt =====
-- What `Setup` leaves running, and what its shutdown function shuts down.
use mathlib.Core.List.{map, reverse, reverse-cons, map-append}
use session_analysis_platfor.Prelude.{
  ℕ, zero, suc, ◌≡◌, ◌≢◌, refl, ap, sym, ◌∙◌, List, [], ◌∷◌, ◌++◌, append_assoc, append-nil, Option,
  none, some, Bytes, length,
}
use session_analysis_platfor.Config.{Service}
use session_analysis_platfor.Process.{
  Resource, tracer, meter, Call, acquire, install, start_runtime, set_propagator, connect, describe,
  release, held, served, same_resource,
}
use session_analysis_platfor.Telemetry.{
  Collector, TelemetryError, Setup, failed, ready, shutdown_errors, unwind_one, unwind_loop, unwind,
  behind, after_runtime, after_metric_exporter, after_trace_exporter, after_resource, setup,
  exporter_options, new_resource,
}

-- the errors of shutting providers down one after another
abbrev pub errors_of : Collector → List Resource → List TelemetryError
errors_of c [] = []
errors_of c (r ∷ rs) = shutdown_errors (c.shutdown r) ++ errors_of c rs

errors_of-append :
    (c : Collector) (rs ss : List Resource)
    → errors_of c (rs ++ ss) ≡ errors_of c rs ++ errors_of c ss
errors_of-append c [] ss = refl
errors_of-append c (r ∷ rs) ss =
    ap (λ es. shutdown_errors (c.shutdown r) ++ es) (errors_of-append c rs ss)
    ∙ sym (append_assoc (shutdown_errors (c.shutdown r)) _ _)

-- the provider in front is shut down last
unwind_loop-cons :
    (c : Collector) (r : Resource) (rs : List Resource) (i : ℕ) (calls : List Call)
    (errs : List TelemetryError)
    → unwind_loop c (r ∷ rs) (suc i) calls errs ≡ (
      (unwind_loop c rs i calls errs).0 ++ release r ∷ [],
      (unwind_loop c rs i calls errs).1 ++ shutdown_errors (c.shutdown r),
    )
unfolding unwind_loop unwind_one
unwind_loop-cons c r rs zero calls errs = refl
unwind_loop-cons c r rs (suc i) calls errs = unwind_loop-cons c r rs i _ _

unwind_loop_all :
    (c : Collector) (rs : List Resource)
    → unwind_loop c rs (length rs) [] [] ≡ (map release (reverse rs), errors_of c (reverse rs))
unwind_loop_all c [] = unfold unwind_loop in refl
unwind_loop_all c (r ∷ rs) =
    unwind_loop-cons c r rs (length rs) [] []
    ∙ cc (
      unwind_loop_all c rs,
      reverse-cons r rs,
      map-append release (reverse rs) (r ∷ []),
      errors_of-append c (reverse rs) (r ∷ []),
      append-nil (shutdown_errors (c.shutdown r)),
    )

-- The shutdown function shuts every provider down, once, the last one installed first, and joins
-- the errors of all of them in that order.
pub unwind_lem :
    (c : Collector) (rs : List Resource)
    → unwind c rs ≡ (map release (reverse rs), errors_of c (reverse rs))
unfolding unwind
unwind_lem c rs = unwind_loop_all c rs

-- What is held behind `Setup`, on top of what is held below, and behind its shutdown function too.
abbrev CleanFrom : List Resource → List Resource → Collector → List Call × Setup → Type 0
CleanFrom base start c (calls, failed errs) =
    (held calls start ≡ some base) × (errs ≢ []) × (served calls ≡ [])
CleanFrom base start c (calls, ready rs) =
    (rs ≡ tracer ∷ meter ∷ [])
    × (held calls start ≡ some (meter ∷ tracer ∷ base))
    × (held (unwind c rs).0 (meter ∷ tracer ∷ base) ≡ some base)
    × (served calls ≡ [])

abbrev pub SetupIsClean : List Resource → Collector → List Call × Setup → Type 0
SetupIsClean base c s = CleanFrom base base c s

module _ (base : List Resource) where
  behind-CleanFrom :
      (c : Collector) (before mid : List Resource) (calls : List Call) (s : List Call × Setup)
      → ((more : List Call) → held (calls ++ more) before ≡ held more mid)
      → ((more : List Call) → served (calls ++ more) ≡ served more)
      → CleanFrom base mid c s
      → CleanFrom base before c (behind calls s)
  behind-CleanFrom c before mid calls (more, failed errs) k l (h, n, v) =
      (k more ∙ h, n, l more ∙ v)
  behind-CleanFrom c before mid calls (more, ready rs) k l (e, h, n, v) =
      (e, k more ∙ h, n, l more ∙ v)

  nonempty : (e : TelemetryError) (es : List TelemetryError) → e ∷ es ≢ []
  nonempty e es h = cc h

  after_runtime-CleanFrom :
      (c : Collector) (o : Option Bytes)
      → CleanFrom base (meter ∷ tracer ∷ base) c (after_runtime c o)
  unfolding after_runtime unwind held same_resource served
  after_runtime-CleanFrom c (some e) = (refl, nonempty _ _, refl)
  after_runtime-CleanFrom c none = (refl, refl, refl, refl)

  after_metric_exporter-CleanFrom :
      (c : Collector) (o : Option Bytes)
      → CleanFrom base (tracer ∷ base) c (after_metric_exporter c o)
  unfolding after_metric_exporter unwind held same_resource served
  after_metric_exporter-CleanFrom c (some e) = (refl, nonempty _ _, refl)
  after_metric_exporter-CleanFrom c none =
      behind-CleanFrom c (tracer ∷ base) (meter ∷ tracer ∷ base)
        (acquire meter ∷ install meter ∷ start_runtime ∷ []) (after_runtime c c.runtime) (λ _. refl)
        (λ _. refl) (after_runtime-CleanFrom c c.runtime)

  after_trace_exporter-CleanFrom :
      (c : Collector) (cfg : Service) (o : Option Bytes)
      → CleanFrom base base c (after_trace_exporter c cfg o)
  unfolding after_trace_exporter held served
  after_trace_exporter-CleanFrom c cfg (some e) = (refl, nonempty _ _, refl)
  after_trace_exporter-CleanFrom c cfg none =
      behind-CleanFrom c base (tracer ∷ base)
        (acquire tracer
          ∷ install tracer
          ∷ set_propagator
          ∷ connect meter (exporter_options cfg)
          ∷ [])
        (after_metric_exporter c c.metric_exporter) (λ _. refl) (λ _. refl)
        (after_metric_exporter-CleanFrom c c.metric_exporter)

  after_resource-CleanFrom :
      (c : Collector) (cfg : Service) (o : Option Bytes)
      → CleanFrom base base c (after_resource c cfg o)
  unfolding after_resource held served
  after_resource-CleanFrom c cfg (some e) = (refl, nonempty _ _, refl)
  after_resource-CleanFrom c cfg none =
      behind-CleanFrom c base base (connect tracer (exporter_options cfg) ∷ [])
        (after_trace_exporter c cfg c.trace_exporter) (λ _. refl) (λ _. refl)
        (after_trace_exporter-CleanFrom c cfg c.trace_exporter)

  -- Whatever OpenTelemetry's packages answer: a `Setup` that fails has given back every provider
  -- that it installed, the last one first, and returns an error; one that succeeds holds the tracer
  -- provider and the meter provider, and its shutdown function gives back both, the last one first.
  pub setup-SetupIsClean : (c : Collector) (cfg : Service) → SetupIsClean base c (setup c cfg)
  unfolding setup held served
  setup-SetupIsClean c cfg =
      behind-CleanFrom c base base (describe (new_resource cfg) ∷ [])
        (after_resource c cfg c.resource) (λ _. refl) (λ _. refl)
        (after_resource-CleanFrom c cfg c.resource)
