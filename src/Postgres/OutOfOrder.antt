-- ===== src/Postgres/OutOfOrder.antt =====
-- `ErrCloseOutOfOrder`: what is left of the event whose close was refused.
use mathlib.Core.Path.{subst}
use session_analysis_platfor.Prelude.{◌≡◌, refl, true, false, some, Bytes, any}
use session_analysis_platfor.Session.{Event}
use session_analysis_platfor.Store.{
  Result, no_result, StoreError, partition_missing, close_out_of_order, failure,
}
use session_analysis_platfor.Postgres.Tables.{Database}
use session_analysis_platfor.Postgres.Statements.{same_key}
use session_analysis_platfor.Postgres.Record.{
  World, Commit, commit, Effect, effect, effect_error, after_effect, record_event,
}
use session_analysis_platfor.Postgres.Record.Outcomes.{Outcome, IsInsertError, record_event_outcome}

abbrev LostIfRefused : Event → Database → Outcome → Type 0
LostIfRefused ev db (db', res, some close_out_of_order) =
    (db' ≡ db) × (res.stored ≡ true) × (any (same_key ev) db'.events ≡ false)
LostIfRefused ev db (db', res, e) = Unit

commit-LostIfRefused :
    (ev : Event) (c : Commit) (step : Bytes) (res : Result) (db tx : Database)
    → LostIfRefused ev db (commit c step res db tx)
unfolding commit
commit-LostIfRefused ev Commit.commits step res db tx = tt
commit-LostIfRefused ev (Commit.aborts e) step res db tx = tt
commit-LostIfRefused ev (Commit.answer_lost e) step res db tx = tt

after_effect-LostIfRefused :
    (w : World) (ev : Event) (db : Database) (e : Effect)
    → any (same_key ev) db.events ≡ false
    → LostIfRefused ev db (after_effect w db e)
unfolding after_effect
after_effect-LostIfRefused w ev db (effect_error partition_missing) n = tt
after_effect-LostIfRefused w ev db (effect_error close_out_of_order) n = (refl, refl, n)
after_effect-LostIfRefused w ev db (effect_error (failure m)) n = tt
after_effect-LostIfRefused w ev db (effect res tx) n = commit-LostIfRefused ev w.commit _ res db tx

insert_error-LostIfRefused :
    (ev : Event) (db : Database) (e : StoreError)
    → IsInsertError e
    → LostIfRefused ev db (db, no_result, some e)
insert_error-LostIfRefused ev db partition_missing i = tt
insert_error-LostIfRefused ev db close_out_of_order i = absurd i
insert_error-LostIfRefused ev db (failure m) i = tt

-- Whenever `record_event` answers that a close was out of order, the database is as it was, and
-- the event is not in `event_raw`, although the result says that it was stored.
pub record_event_out_of_order_lost :
    (w : World) (ev : Event) (db db' : Database) (res : Result)
    → record_event w ev db ≡ (db', res, some close_out_of_order)
    → (db' ≡ db) × (res.stored ≡ true) × (any (same_key ev) db'.events ≡ false)
record_event_out_of_order_lost w ev db db' res h = subst (LostIfRefused ev db) h (
    record_event_outcome (LostIfRefused ev db) w ev db (insert_error-LostIfRefused ev db)
      (λ _. commit-LostIfRefused ev w.commit _ no_result db db)
      (λ _ n. after_effect-LostIfRefused w ev db _ n))
