-- ===== src/Postgres/Kept.antt =====
-- The joins under events of the types that correlation does not act on.
use session_analysis_platfor.Prelude.{◌≡◌, ◌≢◌, refl, Bytes}
use session_analysis_platfor.Session.{
  Event, event_participant_joined, event_participant_left, event_room_finished,
}
use session_analysis_platfor.Store.{Result, no_result}
use session_analysis_platfor.Postgres.Tables.{Database}
use session_analysis_platfor.Postgres.Replies.{with_event}
use session_analysis_platfor.Postgres.Record.{
  World, Commit, commit, Effect, effect, effect_error, after_effect, record_event,
}
use session_analysis_platfor.Postgres.Record.Outcomes.{
  Outcome, EffectYields, stored_result, apply_join_effect-Yields, record_event_outcome,
}

abbrev JoinsStand : Database → Outcome → Type 0
JoinsStand db (db', res, e) = db'.joins ≡ db.joins

commit-JoinsStand :
    (c : Commit) (step : Bytes) (res : Result) (db tx : Database)
    → tx.joins ≡ db.joins
    → JoinsStand db (commit c step res db tx)
unfolding commit
commit-JoinsStand Commit.commits step res db tx h = h
commit-JoinsStand (Commit.aborts e) step res db tx h = refl
commit-JoinsStand (Commit.answer_lost e) step res db tx h = h

after_effect-JoinsStand :
    (w : World) (db : Database) (e : Effect)
    → EffectYields (λ _. Unit {0}) (λ res tx. tx.joins ≡ db.joins) e
    → JoinsStand db (after_effect w db e)
unfolding after_effect
after_effect-JoinsStand w db (effect_error e) h = refl
after_effect-JoinsStand w db (effect res tx) h = commit-JoinsStand w.commit _ res db tx h

-- An event of any type but `participant_joined`, `participant_left` and `room_finished` leaves all
-- joins as they are, whatever fails.
pub record_event_keeps_joins :
    (w : World) (ev : Event) (db : Database)
    → ev.type ≢ event_participant_joined
    → ev.type ≢ event_participant_left
    → ev.type ≢ event_room_finished
    → (record_event w ev db).0.joins ≡ db.joins
record_event_keeps_joins w ev db nj nl nr =
    record_event_outcome (JoinsStand db) w ev db (λ err _. refl)
      (λ _. commit-JoinsStand w.commit _ no_result db db refl)
      (λ _ _. after_effect-JoinsStand w db _ (
        apply_join_effect-Yields (λ res tx. tx.joins ≡ db.joins) stored_result w ev
          (with_event w.now ev db) (λ j. absurd (nj j)) (λ l. absurd (nl l)) (λ r. absurd (nr r))
          (λ _ _ _. refl)))
