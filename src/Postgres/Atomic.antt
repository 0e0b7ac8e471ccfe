-- ===== src/Postgres/Atomic.antt =====
-- The transaction of `RecordEvent`: errors, success, and the redelivery of an event.
use mathlib.Core.Path.{subst}
use session_analysis_platfor.Prelude.{
  ◌≡◌, refl, Bool, true, List, [], ◌∷◌, ◌++◌, none, some, Bytes, arith, any, str_eq_refl,
}
use session_analysis_platfor.Session.{Event}
use session_analysis_platfor.Store.{Result, no_result, StoreError}
use session_analysis_platfor.Time.{Time, time_eq_refl}
use session_analysis_platfor.Postgres.Tables.{EventRow, Database}
use session_analysis_platfor.Postgres.Statements.{event_row, same_key}
use session_analysis_platfor.Postgres.Replies.{with_event}
use session_analysis_platfor.Postgres.Record.{
  World, Commit, commit, Effect, effect, effect_error, after_effect, record_event,
}
use session_analysis_platfor.Postgres.Record.Cases.{EffectLeaves, apply_join_effect_beside}
use session_analysis_platfor.Postgres.Record.Success.{record_event_success}
use session_analysis_platfor.Postgres.Record.Outcomes.{
  EffectYields, Outcome, stored_result, record_event_outcome,
}

-- the answer to COMMIT is known
abbrev pub IsDefinite : Commit → Type 0
IsDefinite Commit.commits = Unit
IsDefinite (Commit.aborts e) = Unit
IsDefinite (Commit.answer_lost e) = ⊥

abbrev pub KeptOnError : Database → Outcome → Type 0
KeptOnError db (db', res, none) = Unit
KeptOnError db (db', res, some e) = db' ≡ db

commit-KeptOnError :
    (c : Commit) (step : Bytes) (res : Result) (db tx : Database)
    → IsDefinite c
    → KeptOnError db (commit c step res db tx)
unfolding commit
commit-KeptOnError Commit.commits step res db tx d = tt
commit-KeptOnError (Commit.aborts e) step res db tx d = refl
commit-KeptOnError (Commit.answer_lost e) step res db tx d = absurd d

pub after_effect-KeptOnError :
    (w : World) (db : Database) (e : Effect)
    → IsDefinite w.commit
    → KeptOnError db (after_effect w db e)
unfolding after_effect
after_effect-KeptOnError w db (effect_error e) d = refl
after_effect-KeptOnError w db (effect res tx) d = commit-KeptOnError w.commit _ res db tx d

pub record_event-KeptOnError :
    (w : World) (ev : Event) (db : Database)
    → IsDefinite w.commit
    → KeptOnError db (record_event w ev db)
record_event-KeptOnError w ev db d =
    record_event_outcome (KeptOnError db) w ev db (λ err _. refl)
      (λ _. commit-KeptOnError w.commit _ _ db db d) (λ _ _. after_effect-KeptOnError w db _ d)

-- If `record_event` returns an error, and not for the lost answer to a commit, both tables are as
-- they were: neither the event nor any join effect stays behind.
pub record_event_atomic :
    (w : World) (ev : Event) (db db' : Database) (res : Result) (e : StoreError)
    → IsDefinite w.commit
    → record_event w ev db ≡ (db', res, some e)
    → db' ≡ db
record_event_atomic w ev db db' res e d h =
    subst (KeptOnError db) h (record_event-KeptOnError w ev db d)

-- the event is in event_raw
abbrev pub IsRecorded : Event → Database → Type 0
IsRecorded ev db = any (same_key ev) db.events ≡ true

any-append_last :
    (p : EventRow → Bool) (rs : List EventRow) (r : EventRow)
    → p r ≡ true
    → any p (rs ++ r ∷ []) ≡ true
any-append_last p [] r h = ground arith
any-append_last p (x ∷ rs) r h = ground (arith, any-append_last p rs r h)

pub IsRecorded-new :
    (now : Time) (ev : Event) (db : Database) → IsRecorded ev (with_event now ev db)
unfolding event_row same_key
IsRecorded-new now ev db =
    any-append_last (same_key ev) db.events (event_row now ev) (rw (time_eq_refl, str_eq_refl) refl)

pub EffectYields-of :
    (Q : Database → Type 0) (e : Effect)
    → EffectLeaves Q e
    → EffectYields (λ _. Unit {0}) (λ _. Q) e
EffectYields-of Q (effect_error e) h = tt
EffectYields-of Q (effect res tx) h = h

pub EffectLeaves-of :
    (Q : Database → Type 0) (e : Effect)
    → EffectYields (λ _. Unit {0}) (λ _. Q) e
    → EffectLeaves Q e
EffectLeaves-of Q (effect_error e) h = tt
EffectLeaves-of Q (effect res tx) h = h

-- A call that returns no error has its event in `event_raw`, a duplicate included.
pub record_event_durable :
    (w : World) (ev : Event) (db db' : Database) (res : Result)
    → record_event w ev db ≡ (db', res, none)
    → IsRecorded ev db'
record_event_durable w ev db db' res h =
    record_event_success (λ _. IsRecorded ev) w ev db (λ old. old)
      (λ _ _. EffectYields-of (IsRecorded ev) _ (
        apply_join_effect_beside (IsRecorded ev) w ev (λ _ _ old. old) stored_result _
          (IsRecorded-new w.now ev db)))
      db' res h

abbrev Untouched : Database → Outcome → Type 0
Untouched db (db', res, e) = (db' ≡ db) × (res ≡ no_result)

commit-Untouched :
    (c : Commit) (step : Bytes) (db : Database) → Untouched db (commit c step no_result db db)
unfolding commit
commit-Untouched Commit.commits step db = (refl, refl)
commit-Untouched (Commit.aborts e) step db = (refl, refl)
commit-Untouched (Commit.answer_lost e) step db = (refl, refl)

-- A delivery of an event that `event_raw` holds changes neither table and reports that nothing was
-- stored, opened or ended, whatever fails around it.
pub record_event_duplicate :
    (w : World) (ev : Event) (db : Database)
    → IsRecorded ev db
    → ((record_event w ev db).0 ≡ db) × ((record_event w ev db).1 ≡ no_result)
record_event_duplicate w ev db h =
    record_event_outcome (Untouched db) w ev db (λ err _. (refl, refl))
      (λ _. commit-Untouched w.commit _ db) (λ _ new. cc (h, new))

-- Once a delivery was recorded without error, a redelivery of the event, in any world, leaves the
-- database as it is and reports no effect.
pub record_event_idempotent :
    (w w' : World) (ev : Event) (db db' : Database) (res : Result)
    → record_event w ev db ≡ (db', res, none)
    → ((record_event w' ev db').0 ≡ db') × ((record_event w' ev db').1 ≡ no_result)
record_event_idempotent w w' ev db db' res h =
    record_event_duplicate w' ev db' (record_event_durable w ev db db' res h)
