-- ===== src/Postgres/Record/Concurrent/Recorded.antt =====
-- What calls that run at once leave in `event_raw`, whatever becomes of the joins.
use mathlib.Core.Path.{subst}
use session_analysis_platfor.Prelude.{
  ℕ, ◌+◌, ◌≡◌, refl, ap, Bool, true, ◌&&◌, ◌||◌, List, [], ◌∷◌, Option, none, some, All, any,
  length, length-append, arith,
}
use session_analysis_platfor.Session.{Event}
use session_analysis_platfor.Store.{Result, StoreError}
use session_analysis_platfor.Store.Contract.{same_event, succeeded}
use session_analysis_platfor.Postgres.Tables.{Database}
use session_analysis_platfor.Postgres.Statements.{event_row}
use session_analysis_platfor.Postgres.Record.{record_event}
use session_analysis_platfor.Postgres.Record.Success.{OnSuccess}
use session_analysis_platfor.Postgres.Record.Outcomes.{Outcome, stored_result}
use session_analysis_platfor.Postgres.Atomic.{
  IsDefinite, KeptOnError, after_effect-KeptOnError, EffectLeaves-of, record_event_durable,
  record_event_duplicate,
}
use session_analysis_platfor.Postgres.Counts.{bit}
use session_analysis_platfor.Postgres.Events.{
  in_event_raw, in_event_raw-with_event, Grows, after_effect-Grows, record_event-Grows,
}
use session_analysis_platfor.Postgres.Record.Concurrent.{Call, Finished, finished, System, idle}
use session_analysis_platfor.Postgres.Record.Concurrent.Accounts.{reported, IsAnswered}
use session_analysis_platfor.Postgres.Record.Concurrent.Interleaved.{
  Said, finish_said, finish_said-OnSuccess, effect_said-Yields, answers, inserts, finishes,
  joins_change, Moves, start, then_move,
}
use session_analysis_platfor.Postgres.Record.Concurrent.Orderly.{answered_whole}

-- the call was for this event and returned no error
abbrev pub recorded : Event → Finished → Bool
recorded ev (finished c res err) = succeeded err && same_event c.event ev

abbrev stored_bit : Result → ℕ
stored_bit r = bit r.stored

-- The rows are those of the start and one for each call that reports an event as stored, and the
-- events in them those of the start and of the calls without error.
pub record Recorded (start : Database) (log : List Finished) (db : Database) : Type 0 where
  pub member : (ev : Event) → in_event_raw db ev ≡ (any (recorded ev) log || in_event_raw start ev)
  pub rows : length db.events ≡ length start.events + reported stored_bit log

abbrev Counted : Database → Result → Database → Type 0
Counted db res tx = length tx.events ≡ length db.events + bit res.stored

-- one call's part of it
record Adds (c : Call) (db : Database) (o : Outcome) : Type 0 where
  member : (ev : Event) → Grows c.event db ev o
  kept : KeptOnError db o
  row : OnSuccess (Counted db) o

finish_said-Adds :
    (c : Call) (said fallback : Said) (db : Database)
    → IsDefinite c.world.commit
    → Adds c db (finish_said c said fallback db)
finish_said-Adds c said fallback db d = record {
  member = λ ev.
      let Q : Database → Type 0 =
        λ tx. in_event_raw tx ev ≡ (same_event c.event ev || in_event_raw db ev) in
      unfold finish_said in
      after_effect-Grows c.world c.event db ev _ d (
        EffectLeaves-of Q _ (
          effect_said-Yields _ (λ _. Q) c.event stored_result said fallback
            (λ _ _ _. in_event_raw-with_event c.world.now c.event ev db)));
  kept = unfold finish_said in after_effect-KeptOnError c.world db _ d;
  row = finish_said-OnSuccess (Counted db) c said fallback db (λ res _ st.
      let more = length-append {0} db.events (event_row c.world.now c.event ∷ []) in
      let one : bit res.stored ≡ 1 = ap bit st in omega (arith, more, one));
}

answered-Adds :
    (c : Call) (db db' : Database) (res : Result) (err : Option StoreError)
    → IsDefinite c.world.commit
    → record_event c.world c.event db ≡ (db', res, err)
    → db' ≡ db
    → Adds c db (db', res, err)
answered-Adds c db db' res (some e) d whole same = record {
  member = λ ev. subst (Grows c.event db ev) whole (record_event-Grows c.world c.event ev db d);
  kept = same;
  row = tt;
}
answered-Adds c db db' res none d whole same = record {
  member = λ ev. subst (Grows c.event db ev) whole (record_event-Grows c.world c.event ev db d);
  kept = tt;
  row =
      let old : in_event_raw db c.event ≡ true =
        subst (λ o. in_event_raw o c.event ≡ true) same
          (record_event_durable c.world c.event db db' res whole) in
      let (_, r) = record_event_duplicate c.world c.event db old in
      let nothing_stored : bit res.stored ≡ 0 = cc (r, whole) in
      let length_kept : length db'.events ≡ length db.events = ap (λ o. length o.events) same in
      omega (arith, nothing_stored, length_kept);
}

Adds-Recorded :
    (c : Call) (res : Result) (err : Option StoreError) (db db' : Database) {first : Database}
    {log : List Finished}
    → Adds c db (db', res, err)
    → Recorded first log db
    → Recorded first (finished c res err ∷ log) db'
Adds-Recorded c res (some e) db db' a r = record {
  member = λ ev. ground (arith, a.member ev, r.member ev);
  rows =
      let k : length db'.events ≡ length db.events = ap (λ o. length o.events) a.kept in
      omega (arith, k, r.rows);
}
Adds-Recorded c res none db db' a r = record {
  member = λ ev. ground (arith, a.member ev, r.member ev);
  rows = omega (arith, a.row, r.rows);
}

-- However calls of `record_event` run at once, each waiting for the key of its row while another
-- call holds it, whatever their statements on the joins come to, and whatever becomes of the joins
-- at any moment, as long as every commit was answered: the events of `event_raw` are those of the
-- start and those whose calls returned no error, and there is a row more for each call that reports
-- an event as stored.
pub Moves-Recorded :
    {db : Database} {s : System}
    → Moves (idle db) s
    → All IsAnswered s.log
    → Recorded db s.log s.database
Moves-Recorded start as_ = record { member = λ ev. refl; rows = omega arith }
Moves-Recorded (then_move {t} r (answers c db res err e)) (a, as_) =
    let (whole, same) = answered_whole c t.database db res err e in
    Adds-Recorded c res err t.database db (answered-Adds c t.database db res err a whole same)
      (Moves-Recorded r as_)
Moves-Recorded (then_move r (inserts c e free)) as_ = Moves-Recorded r as_
Moves-Recorded (then_move {t} r (finishes c rest said fallback db res err taken e)) (a, as_) =
    Adds-Recorded c res err t.database db
      (subst (Adds c t.database) e (finish_said-Adds c said fallback t.database a))
      (Moves-Recorded r as_)
Moves-Recorded (then_move r (joins_change joins)) as_ =
    let k = Moves-Recorded r as_ in record { member = k.member; rows = k.rows }
