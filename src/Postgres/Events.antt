-- ===== src/Postgres/Events.antt =====
-- `event_raw` as the set of events that the port promises.
use mathlib.Core.Path.{subst}
use session_analysis_platfor.Prelude.{
  ◌≡◌, refl, Bool, true, ◌&&◌, ◌||◌, Bool-cases, inl, inr, List, [], ◌∷◌, ◌++◌, Bytes, arith, any,
  str_eq, eq_of_str_eq, if◌then◌else◌,
}
use session_analysis_platfor.Time.{Time, time_eq, eq_of_time_eq}
use session_analysis_platfor.Session.{Event}
use session_analysis_platfor.Store.{Result, no_result}
use session_analysis_platfor.Store.Contract.{same_event, both_true, succeeded, EventSet}
use session_analysis_platfor.Postgres.Tables.{EventRow, Database}
use session_analysis_platfor.Postgres.Statements.{event_row, same_key}
use session_analysis_platfor.Postgres.Replies.{with_event}
use session_analysis_platfor.Postgres.Record.{
  World, Commit, commit, Effect, effect, effect_error, after_effect, record_event, writer,
}
use session_analysis_platfor.Postgres.Record.Cases.{EffectLeaves, apply_join_effect_beside}
use session_analysis_platfor.Postgres.Record.Outcomes.{Outcome, stored_result, record_event_outcome}
use session_analysis_platfor.Postgres.Atomic.{IsDefinite, record_event_duplicate}

-- the set that the table stands for
abbrev pub in_event_raw : Database → Event → Bool
in_event_raw db e = any (same_key e) db.events

any-snoc :
    (p : EventRow → Bool) (rs : List EventRow) (r : EventRow)
    → any p (rs ++ r ∷ []) ≡ (p r || any p rs)
any-snoc p [] r = ground arith
any-snoc p (x ∷ rs) r = ground (arith, any-snoc p rs r)

pub in_event_raw-with_event :
    (now : Time) (ev e : Event) (db : Database)
    → in_event_raw (with_event now ev db) e ≡ (same_event ev e || in_event_raw db e)
unfolding event_row same_key same_event
in_event_raw-with_event now ev e db = any-snoc (same_key e) db.events (event_row now ev)

-- an event that is the same as one in the table is in the table
pub in_event_raw-same :
    (ev e : Event) (db : Database)
    → same_event ev e ≡ true
    → in_event_raw db ev ≡ true
    → in_event_raw db e ≡ true
unfolding same_event same_key
in_event_raw-same ev e db s h =
    let (t, i) = both_true (time_eq ev.occurred_at e.occurred_at) (str_eq ev.id e.id) s in
    let moved =
      subst
        (λ o.
          any (λ (r : EventRow). time_eq r.occurred_at o && str_eq r.event_id ev.id) db.events
          ≡ true)
        (eq_of_time_eq ev.occurred_at e.occurred_at t) h in
    subst
      (λ n.
        any (λ (r : EventRow). time_eq r.occurred_at e.occurred_at && str_eq r.event_id n) db.events
        ≡ true)
      (eq_of_str_eq ev.id e.id i) moved

-- what a call makes of the set
abbrev pub Grows : Event → Database → Event → Outcome → Type 0
Grows ev db e (db', res, err) =
    in_event_raw db' e
    ≡ (if succeeded err then same_event ev e || in_event_raw db e else in_event_raw db e)

commit-Grows :
    (ev : Event) (db : Database) (e : Event) (c : Commit) (step : Bytes) (res : Result)
    (tx : Database)
    → IsDefinite c
    → in_event_raw tx e ≡ (same_event ev e || in_event_raw db e)
    → Grows ev db e (commit c step res db tx)
unfolding commit
commit-Grows ev db e Commit.commits step res tx d h = h
commit-Grows ev db e (Commit.aborts x) step res tx d h = refl
commit-Grows ev db e (Commit.answer_lost x) step res tx d h = absurd d

pub after_effect-Grows :
    (w : World) (ev : Event) (db : Database) (e : Event) (f : Effect)
    → IsDefinite w.commit
    → EffectLeaves (λ tx. in_event_raw tx e ≡ (same_event ev e || in_event_raw db e)) f
    → Grows ev db e (after_effect w db f)
unfolding after_effect
after_effect-Grows w ev db e (effect_error x) d h = refl
after_effect-Grows w ev db e (effect res tx) d h = commit-Grows ev db e w.commit _ res tx d h

old-Grows :
    (ev e : Event) (db : Database)
    → in_event_raw db ev ≡ true
    → in_event_raw db e ≡ (same_event ev e || in_event_raw db e)
old-Grows ev e db h = elim (Bool-cases (same_event ev e)) [
  | inl s ↦ rw s (in_event_raw-same ev e db s h)
  | inr s ↦ rw s refl
]

pub record_event-Grows :
    (w : World) (ev e : Event) (db : Database)
    → IsDefinite w.commit
    → Grows ev db e (record_event w ev db)
record_event-Grows w ev e db d =
    let kept : Database → Type 0 =
      λ tx. in_event_raw tx e ≡ (same_event ev e || in_event_raw db e) in
    record_event_outcome (Grows ev db e) w ev db (λ err _. refl)
      (λ old. commit-Grows ev db e w.commit _ no_result db d (old-Grows ev e db old))
      (λ _ _. after_effect-Grows w ev db e _ d (
        apply_join_effect_beside kept w ev (λ _ _ h. h) stored_result _
          (in_event_raw-with_event w.now ev e db)))

-- The PostgreSQL store, as long as its commits are answered, keeps the port's promise: `event_raw` is
-- a set of events, a successful call adds its event to it, a failed one leaves it as it is, and a
-- call for an event that it holds changes nothing and reports nothing.
pub writer-EventSet : (w : World) → IsDefinite w.commit → EventSet in_event_raw (writer w)
unfolding writer
writer-EventSet w d = record {
  grows = λ ev e db. record_event-Grows w ev e db d;
  repeats = λ ev db h. record_event_duplicate w ev db h;
}
