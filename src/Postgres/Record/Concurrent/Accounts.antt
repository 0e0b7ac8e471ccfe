-- ===== src/Postgres/Record/Concurrent/Accounts.antt =====
-- What calls that run at once report, added up, against the tables that they leave.
use mathlib.Core.Path.{subst}
use session_analysis_platfor.Prelude.{ℕ, ◌+◌, ◌≡◌, List, [], ◌∷◌, none, some, All, length, arith}
use session_analysis_platfor.Store.{Result}
use session_analysis_platfor.Postgres.Tables.{Database}
use session_analysis_platfor.Postgres.Invariant.{WellFormed, record_event-WellFormed}
use session_analysis_platfor.Postgres.Atomic.{IsDefinite, record_event_atomic}
use session_analysis_platfor.Postgres.Counts.{count_open, bit, record_event-Balanced}
use session_analysis_platfor.Postgres.Record.Concurrent.{Finished, finished, System, idle, Reach}
use session_analysis_platfor.Postgres.Record.Concurrent.Serial.{
  Serial, nothing, then_call, Reach-Serial,
}

-- a number of the results of the calls without error, added up
abbrev pub reported : (Result → ℕ) → List Finished → ℕ
reported f [] = 0
reported f (finished c res none ∷ log) = f res + reported f log
reported f (finished c res (some e) ∷ log) = reported f log

-- the answer to the call's commit is known
abbrev pub IsAnswered : Finished → Type 0
IsAnswered (finished c res err) = IsDefinite c.world.commit

-- The rows of the tables are those of the start and those reported.
pub record Tallied (start : Database) (log : List Finished) (db : Database) : Type 0 where
  pub events : length db.events ≡ length start.events + reported (λ r. bit r.stored) log
  pub joins : length db.joins ≡ length start.joins + reported (λ r. bit r.join_opened) log
  pub open_joins :
      count_open db + reported (λ r. r.joins_closed) log
      ≡ count_open start + reported (λ r. bit r.join_opened) log

Serial-Tallied :
    {start db : Database} {log : List Finished}
    → Serial start log db
    → WellFormed start
    → All IsAnswered log
    → WellFormed db × Tallied start log db
Serial-Tallied nothing v as_ =
    (v, record { events = omega arith; joins = omega arith; open_joins = omega arith })
Serial-Tallied (then_call {db = db} {db'} c res none ser e) v (a, as_) =
    let (u, t) = Serial-Tallied ser v as_ in
    let b = record_event-Balanced c.world c.event db db' res u e in
    (
      subst (λ o. WellFormed o.0) e (record_event-WellFormed c.world c.event db u),
      record {
        events = omega (arith, t.events, b.all_events);
        joins = omega (arith, t.joins, b.all_joins);
        open_joins = omega (arith, t.open_joins, b.open_joins);
      },
    )
Serial-Tallied {start} (then_call {log} {db} {db'} c res (some x) ser e) v (a, as_) =
    let (u, t) = Serial-Tallied ser v as_ in
    let same = record_event_atomic c.world c.event db db' res x a e in
    rw same (u, record { events = t.events; joins = t.joins; open_joins = t.open_joins })

-- However calls of `record_event` interleave at their inserts, what a call does behind its insert
-- being one step, and as long as every commit was answered: the tables are well-formed, there is a
-- row of `event_raw` more for each call that reports an event as stored, a join more for each that
-- reports one as opened, and the joins reported as ended are those that are open no longer.
pub Reach-Tallied :
    {start : Database} {s : System}
    → Reach (idle start) s
    → WellFormed start
    → All IsAnswered s.log
    → WellFormed s.database × Tallied start s.log s.database
Reach-Tallied r v a = Serial-Tallied (Reach-Serial r) v a
