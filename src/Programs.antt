-- ===== src/Programs.antt =====
-- cmd/ingester/main.go and cmd/queryapi/main.go: start and shutdown. One run of a program is a
-- function from what it finds outside to the calls that it makes and the error that it returns.
pub mod Brackets
pub mod Ingester
pub mod Queryapi
pub mod Returned
pub mod Routes
use session_analysis_platfor.Prelude.{List, [], ◌∷◌, ◌++◌, Option, none, some, Bytes, codes, ℕ}
use session_analysis_platfor.Config.{Environment, ConfigError}
use session_analysis_platfor.Telemetry.{Collector, TelemetryError, unwind}
use session_analysis_platfor.Pool.{PoolPackage, OpenError}
use session_analysis_platfor.Metrics.Register.{Meter}
use session_analysis_platfor.Process.{
  Resource, signals, pool, Served, Call, acquire, release, listen, stop_listening, info, warn,
  fatal,
}

-- How serving ends: `ListenAndServe` fails, or a signal comes and `Shutdown` answers.
pub data Serving : Type 0 where
  listen_fails : Bytes → Serving
  interrupted : Option Bytes → Serving

-- What one run finds outside the program.
pub record Outside : Type 0 where
  pub environment : Environment
  pub collector : Collector
  pub postgres : PoolPackage
  pub meter : Meter
  pub serving : Serving

pub data RunError : Type 0 where
  bad_config : ConfigError → RunError
  no_telemetry : List TelemetryError → RunError
  no_database : OpenError → RunError
  no_secret : RunError
  no_meter not_served not_shut_down : Bytes → RunError

abbrev pub Run : Type 0
Run = List Call × Option RunError

-- calls before a run of the rest, and deferred calls behind it
abbrev pub before : List Call → Run → Run
before calls (more, e) = (calls ++ more, e)

abbrev pub deferred : List Call → Run → Run
deferred calls (more, e) = (more ++ calls, e)

shutdown_answer : Option Bytes → Option RunError
shutdown_answer none = none
shutdown_answer (some e) = some (not_shut_down e)

-- from the goroutine that listens on, which here has started when the signal comes
unfoldable pub serve : Served → Serving → Run
unfolding shutdown_answer
serve s (listen_fails e) = (info (codes "listening") ∷ listen s ∷ [], some (not_served e))
serve s (interrupted answer) = (
  info (codes "listening") ∷ listen s ∷ info (codes "shutting down") ∷ stop_listening ∷ [],
  shutdown_answer answer,
)

warned : List TelemetryError → List Call
warned [] = []
warned (e ∷ es) = warn (codes "telemetry shutdown") ∷ []

-- the deferred call of the shutdown function
unfoldable pub shutdown_telemetry : Collector → List Resource → List Call
unfolding warned
shutdown_telemetry c rs = (unwind c rs).0 ++ warned (unwind c rs).1

-- `main` behind `run`: the calls, and the exit code
unfoldable pub main_program : Run → List Call × ℕ
main_program (calls, none) = (calls, 0)
main_program (calls, some e) = (calls ++ fatal (codes "fatal") ∷ [], 1)
