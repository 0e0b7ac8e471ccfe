-- ===== src/Postgres/Record/Concurrent.antt =====
-- Calls of `RecordEvent` that run at once, over one PostgreSQL server. A call is cut behind its
-- INSERT: until its transaction ends it holds the key of its row, and another INSERT of that key
-- waits, as PostgreSQL documents of unique indexes and ON CONFLICT. Here the statements on the joins
-- and the commit are one step; Interleaved leaves open what happens between them.
pub mod Accounts
pub mod Embedded
pub mod Holding
pub mod Interleaved
pub mod Once
pub mod Orderly
pub mod Progress
pub mod Recorded
pub mod Serial
use session_analysis_platfor.Prelude.{
  ◌≡◌, Bool, true, false, List, [], ◌∷◌, Option, none, some, Bytes, any,
}
use session_analysis_platfor.Session.{Event}
use session_analysis_platfor.Store.{Result, no_result, StoreError}
use session_analysis_platfor.Store.Contract.{same_event}
use session_analysis_platfor.Postgres.Tables.{Database, DriverError}
use session_analysis_platfor.Postgres.Statements.{Reply, refused, done, insert_event}
use session_analysis_platfor.Postgres.Replies.{with_event}
use session_analysis_platfor.Postgres.Record.{
  World, exec, apply_join_effect, after_effect, after_insert, after_begin,
}
use session_analysis_platfor.Postgres.Record.Outcomes.{Outcome}

pub record Call : Type 0 where
  pub world : World
  pub event : Event

-- What a call has come to behind its INSERT: it has returned, or its row is inserted and not yet
-- committed.
pub data Started : Type 0 where
  answered : Outcome → Started
  holding : Started

behind_insert : World → Event → Database → Reply (Option Bytes) → Started
unfolding after_insert
behind_insert w ev db (refused e) = answered (after_insert w ev db (refused e))
behind_insert w ev db (done none tx) = answered (after_insert w ev db (done none tx))
behind_insert w ev db (done (some id) tx) = holding

behind_begin : World → Event → Database → Option DriverError → Started
unfolding behind_insert after_begin
behind_begin w ev db (some e) = answered (after_begin w ev db (some e))
behind_begin w ev db none = behind_insert w ev db (exec w.insert_fails (insert_event w.now ev db))

-- `RecordEvent` up to the INSERT
unfoldable pub start_call : Call → Database → Started
unfolding behind_begin
start_call c db = behind_begin c.world c.event db c.world.begin_fails

-- `RecordEvent` from `applyJoinEffect` on
unfoldable pub finish_call : Call → Database → Outcome
finish_call c db = after_effect c.world db (
    apply_join_effect c.world c.event (record no_result { stored = true })
      (with_event c.world.now c.event db))

pub data Finished : Type 0 where
  finished : Call → Result → Option StoreError → Finished

-- What is committed, the calls that hold their keys, and the calls that have returned, the last one
-- first.
pub record System : Type 0 where
  pub database : Database
  pub in_flight : List Call
  pub log : List Finished

abbrev pub idle : Database → System
idle db = record { database = db; in_flight = []; log = [] }

-- one call taken out of a list
pub data Taken (c : Call) : List Call → List Call → Type 0 where
  first : {cs : List Call} → Taken c (c ∷ cs) cs
  later : {d : Call} {cs ds : List Call} → Taken c cs ds → Taken c (d ∷ cs) (d ∷ ds)

-- a call holds the key of this event
abbrev pub holds_key : Event → Call → Bool
holds_key ev c = same_event ev c.event

pub data Step (s : System) : System → Type 0 where
  answers :
      (c : Call) (db : Database) (res : Result) (err : Option StoreError)
      → start_call c s.database ≡ answered (db, res, err)
      → Step s (record s { database = db; log = finished c res err ∷ s.log })
  inserts :
      (c : Call)
      → start_call c s.database ≡ holding
      → any (holds_key c.event) s.in_flight ≡ false
      → Step s (record s { in_flight = c ∷ s.in_flight })
  finishes :
      (c : Call) (rest : List Call) (db : Database) (res : Result) (err : Option StoreError)
      → Taken c s.in_flight rest
      → finish_call c s.database ≡ (db, res, err)
      → Step s (record { database = db; in_flight = rest; log = finished c res err ∷ s.log })

pub data Reach (s : System) : System → Type 0 where
  here : Reach s s
  next : {t u : System} → Reach s t → Step t u → Reach s u
