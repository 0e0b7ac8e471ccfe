-- ===== src/Postgres/Record/Tries.antt =====
-- Tries of one call, of which each may fail or lose its answer.
use mathlib.Core.Path.{subst}
use session_analysis_platfor.Prelude.{
  ◌≡◌, refl, sym, ◌⊎◌, inl, inr, true, List, [], ◌∷◌, none, Bytes,
}
use session_analysis_platfor.Session.{Event}
use session_analysis_platfor.Store.{Result, no_result}
use session_analysis_platfor.Postgres.Tables.{Database, covered}
use session_analysis_platfor.Postgres.Statements.{insert_event}
use session_analysis_platfor.Postgres.Record.{
  World, Commit, commit, Effect, effect, effect_error, exec, after_effect, after_insert,
  after_begin, record_event,
}
use session_analysis_platfor.Postgres.Record.Cases.{EffectLeaves, apply_join_effect_beside}
use session_analysis_platfor.Postgres.Record.Outcomes.{Outcome, stored_result, record_event_outcome}
use session_analysis_platfor.Postgres.Atomic.{IsRecorded, IsRecorded-new, record_event_duplicate}
use session_analysis_platfor.Postgres.Record.Progress.{
  IsCalm, IsRecordable, arrives, record_event_succeeds,
}

-- tries one after another, each in a world of its own
unfoldable pub attempts : List World → Event → Database → Database
attempts [] ev db = db
attempts (w ∷ ws) ev db = attempts ws ev (record_event w ev db).0

-- recorded, in a partition that is still there
abbrev IsSafe : Event → Database → Type 0
IsSafe ev db = IsRecorded ev db × (covered db.partitions ev.occurred_at ≡ true)

-- a call leaves the database alone, or the event safe
abbrev Pending : Event → Database → Outcome → Type 0
Pending ev db (db', res, e) = (db' ≡ db) ⊎ IsSafe ev db'

commit-Pending :
    (ev : Event) (c : Commit) (step : Bytes) (res : Result) (db tx : Database)
    → IsSafe ev tx
    → Pending ev db (commit c step res db tx)
unfolding commit
commit-Pending ev Commit.commits step res db tx h = inr h
commit-Pending ev (Commit.aborts e) step res db tx h = inl refl
commit-Pending ev (Commit.answer_lost e) step res db tx h = inr h

commit_unchanged :
    (ev : Event) (c : Commit) (step : Bytes) (db : Database)
    → Pending ev db (commit c step no_result db db)
unfolding commit
commit_unchanged ev Commit.commits step db = inl refl
commit_unchanged ev (Commit.aborts e) step db = inl refl
commit_unchanged ev (Commit.answer_lost e) step db = inl refl

after_effect-Pending :
    (w : World) (ev : Event) (db : Database) (e : Effect)
    → EffectLeaves (IsSafe ev) e
    → Pending ev db (after_effect w db e)
unfolding after_effect
after_effect-Pending w ev db (effect_error e) h = inl refl
after_effect-Pending w ev db (effect res tx) h = commit-Pending ev w.commit _ res db tx h

record_event-Pending :
    (w : World) (ev : Event) (db : Database) → Pending ev db (record_event w ev db)
record_event-Pending w ev db =
    record_event_outcome (Pending ev db) w ev db (λ err _. inl refl)
      (λ _. commit_unchanged ev w.commit _ db)
      (λ c _. after_effect-Pending w ev db _ (
        apply_join_effect_beside (IsSafe ev) w ev (λ _ _ h. h) stored_result _
          (IsRecorded-new w.now ev db, c)))

-- still as it was, or with the event safe
abbrev pub IsPending : Event → Database → Database → Type 0
IsPending ev start db = (db ≡ start) ⊎ IsSafe ev db

-- one more call leaves it so
pub record_event-IsPending :
    (w : World) (ev : Event) (start db : Database)
    → IsPending ev start db
    → IsPending ev start (record_event w ev db).0
record_event-IsPending w ev start db (inl same) =
    subst (λ d. IsPending ev start (record_event w ev d).0) (sym same)
      (record_event-Pending w ev start)
record_event-IsPending w ev start db (inr safe) =
    inr (subst (IsSafe ev) (sym (record_event_duplicate w ev db safe.0).0) safe)

attempts-IsPending :
    (ws : List World) (ev : Event) (start db : Database)
    → IsPending ev start db
    → IsPending ev start (attempts ws ev db)
unfolding attempts
attempts-IsPending [] ev start db p = p
attempts-IsPending (w ∷ ws) ev start db p =
    attempts-IsPending ws ev start (record_event w ev db).0 (record_event-IsPending w ev start db p)

-- the duplicate's branch of a call in which nothing fails
calm_safe :
    (w : World) (ev : Event) (db : Database)
    → IsCalm w
    → IsSafe ev db
    → (record_event w ev db).2 ≡ none
unfolding record_event after_begin exec after_insert insert_event commit
calm_safe w ev db calm safe = simp (calm.begin, calm.insert, safe.1, safe.0, calm.commits) refl

-- the last call, in which nothing fails
pub calm_after_all :
    (w : World) (ev : Event) (start db : Database)
    → IsCalm w
    → IsRecordable w ev start
    → IsPending ev start db
    → ((record_event w ev db).2 ≡ none) × IsRecorded ev (record_event w ev db).0
calm_after_all w ev start db calm h (inl same) =
    subst (λ d. ((record_event w ev d).2 ≡ none) × IsRecorded ev (record_event w ev d).0) (sym same)
      (record_event_succeeds w ev start calm h)
calm_after_all w ev start db calm h (inr safe) = arrives w ev db (calm_safe w ev db calm safe)

-- However many calls for an event that can be recorded have failed or lost their answer, each on its
-- own grounds, the next call in a world where nothing fails returns no error, and the event is in
-- `event_raw` behind it.
pub record_event_eventually :
    (ws : List World) (w : World) (ev : Event) (db : Database)
    → IsCalm w
    → IsRecordable w ev db
    → ((record_event w ev (attempts ws ev db)).2 ≡ none)
      × IsRecorded ev (record_event w ev (attempts ws ev db)).0
record_event_eventually ws w ev db calm h =
    calm_after_all w ev db (attempts ws ev db) calm h (attempts-IsPending ws ev db db (inl refl))
