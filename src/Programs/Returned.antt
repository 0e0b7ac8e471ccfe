-- ===== src/Programs/Returned.antt =====
-- What a run of either program leaves behind.
use session_analysis_platfor.Prelude.{◌≡◌, [], some, Bytes}
use session_analysis_platfor.Process.{held}
use session_analysis_platfor.Programs.{Outside}
use session_analysis_platfor.Programs.Brackets.{held-main_program}
use session_analysis_platfor.Programs.Ingester
use session_analysis_platfor.Programs.Ingester.Lifetime.{run-Keeps}
use session_analysis_platfor.Programs.Queryapi
use session_analysis_platfor.Programs.Queryapi.Lifetime.{query_run-Keeps}

-- However a run of the ingester or of the query API ends, with exit code 0 or 1, the program has given
-- back whatever it acquired, in the reverse order: the pool, the two telemetry providers, the signal
-- handler.
pub runs_give_back :
    (out : Outside) (version : Bytes)
    → (held (Ingester.main out version).0 [] ≡ some [])
      × (held (Queryapi.main out version).0 [] ≡ some [])
unfolding Ingester.main Queryapi.main
runs_give_back out version = (
  held-main_program [] (Ingester.run out version) (run-Keeps out version),
  held-main_program [] (Queryapi.run out version) (query_run-Keeps out version),
)
