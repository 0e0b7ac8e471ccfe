-- ===== src/Postgres/Record/Concurrent/Progress.antt =====
-- That calls which run at once never wait for each other forever.
use session_analysis_platfor.Prelude.{ℕ, suc, length, ◌≡◌, List, [], ◌∷◌, Option}
use session_analysis_platfor.Store.{Result, StoreError}
use session_analysis_platfor.Postgres.Tables.{Database}
use session_analysis_platfor.Postgres.Record.{record_event}
use session_analysis_platfor.Postgres.Record.Concurrent.{
  Call, Finished, finished, System, Step, Reach, here, next,
}
use session_analysis_platfor.Postgres.Record.Concurrent.Serial.{Serial}

-- the steps of a run, counted
abbrev pub steps : {s t : System} → Reach s t → ℕ
steps here = 0
steps (next r st) = suc (steps r)

Reach-after : {s t u : System} → Step s t → Reach t u → Reach s u
Reach-after st here = next here st
Reach-after st (next r q) = next (Reach-after st r) q

Reach-trans : {s t u : System} → Reach s t → Reach t u → Reach s u
Reach-trans r here = r
Reach-trans r (next q st) = next (Reach-trans r q) st

-- The call has returned last, with what it gives behind `n` other calls, which returned one after
-- another from the start; no key is held.
pub record HasReturned (start : Database) (n : ℕ) (c : Call) (t : System) : Type 0 where
  pub before : Database
  pub result : Result
  pub error : Option StoreError
  pub others : List Finished
  pub last : t.log ≡ finished c result error ∷ others
  pub all_others : length others ≡ n
  pub in_turn : Serial start others before
  pub whole : record_event c.world c.event before ≡ (t.database, result, error)
  pub free : t.in_flight ≡ []
