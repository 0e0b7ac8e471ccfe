-- ===== src/Postgres/Record/Concurrent/Serial.antt =====
-- Calls that run at once, against calls one after another.
use session_analysis_platfor.Prelude.{◌≡◌, ◌∙◌, List, [], ◌∷◌, Option}
use session_analysis_platfor.Store.{Result, StoreError}
use session_analysis_platfor.Postgres.Tables.{Database}
use session_analysis_platfor.Postgres.Record.{record_event}
use session_analysis_platfor.Postgres.Record.Concurrent.{
  Call, Finished, finished, System, idle, answers, inserts, finishes, Reach, here, next,
}
use session_analysis_platfor.Postgres.Record.Concurrent.Embedded.{Reach-Moves}
use session_analysis_platfor.Postgres.Record.Concurrent.Holding.{
  IsHolding, holding_is_whole, All-Taken,
}
use session_analysis_platfor.Postgres.Record.Concurrent.Orderly.{answered_whole, Moves-IsOrderly}

-- Calls one after another, each in the database that the one before has left.
pub data Serial (start : Database) : List Finished → Database → Type 0 where
  nothing : Serial start [] start
  then_call :
      {log : List Finished} {db db' : Database} (c : Call) (res : Result) (err : Option StoreError)
      → Serial start log db
      → record_event c.world c.event db ≡ (db', res, err)
      → Serial start (finished c res err ∷ log) db'

-- However calls of `record_event` interleave at their inserts, where each waits for the key of its
-- row while another call holds it, and where what a call does behind its insert is one step: the
-- committed database and what every call has returned are those of the same calls one after another,
-- in the order in which they returned.
pub Reach-Serial :
    {start : Database} {s : System} → Reach (idle start) s → Serial start s.log s.database
Reach-Serial here = nothing
Reach-Serial (next r (answers c db res err e)) =
    then_call c res err (Reach-Serial r) (answered_whole c _ db res err e).0
Reach-Serial (next r (inserts c e free)) = Reach-Serial r
Reach-Serial (next {t} r (finishes c rest db res err taken e)) =
    let o = Moves-IsOrderly (Reach-Moves r) in
    let (h, _) = All-Taken (λ x. IsHolding x t.database) taken o.holds in
    then_call c res err (Reach-Serial r) (holding_is_whole c t.database h ∙ e)
