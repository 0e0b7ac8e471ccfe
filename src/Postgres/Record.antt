-- ===== src/Postgres/Record.antt =====
-- `RecordEvent`, `applyJoinEffect` and `close`: one transaction for each event.
pub mod Cases
pub mod Outcomes
pub mod Success
pub mod Progress
pub mod Tries
pub mod Concurrent
use session_analysis_platfor.Prelude.{
  ℕ, zero, suc, ltb, ◌==◌, Bool, true, false, List, [], ◌∷◌, Option, none, some, Bytes, codes,
  is_empty, if◌then◌else◌, str_eq,
}
use session_analysis_platfor.Session.{
  Event, event_participant_joined, event_participant_left, event_room_finished,
  end_participant_left, end_room_finished, EndReason,
}
use session_analysis_platfor.Store.{
  Result, no_result, StoreError, partition_missing, close_out_of_order, failure, Writer,
}
use session_analysis_platfor.Time.{Time}
use session_analysis_platfor.Postgres.Tables.{
  Database, DriverError, is_partition_missing, classify_close,
}
use session_analysis_platfor.Postgres.Statements.{
  Reply, refused, done, insert_event, open_join, close_by_sid, close_by_identity, close_room,
}

-- What COMMIT does: it succeeds; it fails and the transaction is lost; or its answer is lost after
-- the server has committed.
pub data Commit : Type 0 where
  commits : Commit
  aborts : DriverError → Commit
  answer_lost : DriverError → Commit

-- What the world outside decides about one call: the clock, the random join id, and at each round
-- trip to the server an error of the connection or of the server instead of the statement's effect.
pub record World : Type 0 where
  pub now : Time
  pub new_join_id : Bytes
  pub begin_fails : Option DriverError
  pub insert_fails : Option DriverError
  pub effect_fails : Option DriverError
  pub fallback_fails : Option DriverError
  pub commit : Commit

-- `tx.Exec` and `tx.QueryRow`: the statement's reply, unless the round trip fails
unfoldable pub exec {ℓ} : {A : Type ℓ} → Option DriverError → Reply A → Reply A
exec none r = r
exec (some e) r = refused e

-- The result of `applyJoinEffect`: an error, or the filled-in result and the snapshot.
pub data Effect : Type 0 where
  effect_error : StoreError → Effect
  effect : Result → Database → Effect

-- `res.JoinOpened = tag.RowsAffected() > 0`
unfoldable pub opened : Result → Reply ℕ → Effect
opened res (refused e) = effect_error (failure (codes "postgres: open join"))
opened res (done n tx) = effect (record res { join_opened = ltb 0 n }) tx

-- `res.JoinsClosed = n; res.CloseUnmatched = n == 0`
pub left : Result → Reply ℕ → Effect
left res (refused e) = effect_error (classify_close e)
left res (done n tx) = effect (record res { joins_closed = n; close_unmatched = n == 0 }) tx

pub finished : Result → Reply ℕ → Effect
finished res (refused e) = effect_error (classify_close e)
finished res (done n tx) = effect (record res { joins_closed = n }) tx

-- `close` behind its first statement: the fallback where that ended no row
unfoldable pub fall_back : Reply ℕ → (Database → Reply ℕ) → Reply ℕ
fall_back (refused e) rest = refused e
fall_back (done zero tx) rest = rest tx
fall_back (done (suc n) tx) rest = done (suc n) tx

unfoldable pub close : World → Event → EndReason → Database → Reply ℕ
close w ev reason tx =
    if is_empty ev.participant_sid
    then exec w.fallback_fails (close_by_identity w.now reason ev tx)
    else fall_back (exec w.effect_fails (close_by_sid w.now reason ev tx))
        (λ tx'. exec w.fallback_fails (close_by_identity w.now reason ev tx'))

unfoldable pub apply_join_effect : World → Event → Result → Database → Effect
unfolding opened left finished
apply_join_effect w ev res tx =
    if str_eq ev.type event_participant_joined
    then opened res (exec w.effect_fails (open_join w.now w.new_join_id ev tx))
    else if str_eq ev.type event_participant_left
    then left res (close w ev end_participant_left tx)
    else if str_eq ev.type event_room_finished
    then finished res (exec w.effect_fails (close_room w.now end_room_finished ev tx))
    else effect res tx

-- `tx.Commit`: the database before, the transaction's snapshot, and the answer
unfoldable pub commit :
    Commit → Bytes → Result → Database → Database → Database × Result × Option StoreError
commit commits step res db tx = (tx, res, none)
commit (aborts e) step res db tx = (db, res, some (failure step))
commit (answer_lost e) step res db tx = (tx, res, some (failure step))

-- behind `applyJoinEffect`; on an error the deferred Rollback drops the snapshot
unfoldable pub after_effect : World → Database → Effect → Database × Result × Option StoreError
after_effect w db (effect_error e) = (db, record no_result { stored = true }, some e)
after_effect w db (effect res tx) = commit w.commit (codes "postgres: commit") res db tx

-- behind the insert's `Scan`
after_insert :
    World → Event → Database → Reply (Option Bytes) → Database × Result × Option StoreError
after_insert w ev db (refused e) = (
  db,
  no_result,
  some (
      if is_partition_missing e
      then partition_missing
      else failure (codes "postgres: insert event")),
)
after_insert w ev db (done none tx) =
    commit w.commit (codes "postgres: commit duplicate") no_result db tx
after_insert w ev db (done (some id) tx) =
    after_effect w db (apply_join_effect w ev (record no_result { stored = true }) tx)

-- behind `s.pool.Begin`
after_begin : World → Event → Database → Option DriverError → Database × Result × Option StoreError
after_begin w ev db (some e) = (db, no_result, some (failure (codes "postgres: begin")))
after_begin w ev db none = after_insert w ev db (exec w.insert_fails (insert_event w.now ev db))

unfoldable pub record_event : World → Event → Database → Database × Result × Option StoreError
unfolding after_begin after_insert after_effect
record_event w ev db = after_begin w ev db w.begin_fails

-- The store as the receiver's port, in a given world.
unfoldable pub writer : World → Writer Database
writer w = record { record_event = record_event w }
