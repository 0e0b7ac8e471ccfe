-- ===== src/Postgres/Record/Success.antt =====
-- What a call of `record_event` that returns no error has done, as a rule for relations between the
-- result and the database behind it.
use mathlib.Core.Path.{subst}
use session_analysis_platfor.Prelude.{◌≡◌, true, false, none, some, Bytes, any}
use session_analysis_platfor.Session.{Event}
use session_analysis_platfor.Store.{Result, no_result}
use session_analysis_platfor.Postgres.Tables.{Database, covered}
use session_analysis_platfor.Postgres.Statements.{same_key}
use session_analysis_platfor.Postgres.Replies.{with_event}
use session_analysis_platfor.Postgres.Record.{
  World, Commit, commit, Effect, effect, effect_error, apply_join_effect, after_effect,
  record_event,
}
use session_analysis_platfor.Postgres.Record.Outcomes.{
  Outcome, EffectYields, stored_result, record_event_outcome,
}

abbrev pub OnSuccess {κ} : (Result → Database → Type κ) → Outcome → Type κ
OnSuccess Q (db', res, none) = Q res db'
OnSuccess Q (db', res, some e) = Unit

module _ {κ} (Q : Result → Database → Type κ) where
  commit-OnSuccess :
      (c : Commit) (step : Bytes) (res : Result) (db tx : Database)
      → Q res tx
      → OnSuccess Q (commit c step res db tx)
  unfolding commit
  commit-OnSuccess Commit.commits step res db tx h = h
  commit-OnSuccess (Commit.aborts e) step res db tx h = tt
  commit-OnSuccess (Commit.answer_lost e) step res db tx h = tt

  pub after_effect-OnSuccess :
      (w : World) (db : Database) (e : Effect)
      → EffectYields (λ _. Unit) Q e
      → OnSuccess Q (after_effect w db e)
  unfolding after_effect
  after_effect-OnSuccess w db (effect_error e) h = tt
  after_effect-OnSuccess w db (effect res tx) h = commit-OnSuccess w.commit _ res db tx h

  module _ (w : World) (ev : Event) (db : Database)
      (old : any (same_key ev) db.events ≡ true → Q no_result db)
      (new : covered db.partitions ev.occurred_at ≡ true
        → any (same_key ev) db.events ≡ false
        → EffectYields
            (λ _. Unit {κ})
            Q
            (apply_join_effect w ev stored_result (with_event w.now ev db))) where
    -- A duplicate is committed as it is found, and a new event with its effect on the joins.
    pub record_event-OnSuccess : OnSuccess Q (record_event w ev db)
    record_event-OnSuccess =
        record_event_outcome (OnSuccess Q) w ev db (λ _ _. tt)
          (λ o. commit-OnSuccess w.commit _ no_result db db (old o))
          (λ c n. after_effect-OnSuccess w db _ (new c n))

    pub record_event_success :
        (db' : Database) (res : Result) → record_event w ev db ≡ (db', res, none) → Q res db'
    record_event_success db' res h = subst (OnSuccess Q) h record_event-OnSuccess
