-- ===== src/Postgres/Stay.antt =====
-- What an arrival makes of the joins, and an arrival with the departure that follows it.
pub mod Others
use mathlib.Core.Path.{subst}
use session_analysis_platfor.Prelude.{
  ◌≡◌, refl, ap, sym, ◌∙◌, inl, inr, Bool, true, false, List, [], ◌∷◌, ◌++◌, none, some, Bytes,
  arith, any, update_if, is_empty, str_eq, str_eq_refl, opt_str_eq, if◌then◌else◌,
}
use session_analysis_platfor.Session.{
  Event, event_participant_joined, event_participant_left, end_participant_left,
}
use session_analysis_platfor.Store.{Result}
use session_analysis_platfor.Postgres.Tables.{JoinRow, Database, nullable}
use session_analysis_platfor.Postgres.Statements.{join_row, end_row, sid_matches, row_is_open}
use session_analysis_platfor.Postgres.Replies.{with_event, open_join-Yields}
use session_analysis_platfor.Postgres.Record.{World, record_event}
use session_analysis_platfor.Postgres.Record.Success.{record_event_success}
use session_analysis_platfor.Postgres.Record.Outcomes.{stored_result, apply_join_effect-Yields}
use session_analysis_platfor.Postgres.Invariant.{WellFormed, record_event-WellFormed}
use session_analysis_platfor.Postgres.Departure.{
  ended, Departs, ends_by_sid, ends_latest, ends_none, record_event_departure,
}
use session_analysis_platfor.Postgres.Closing.{types_differ}

-- a join was started by the event of this id
abbrev pub started_by : Event → JoinRow → Bool
started_by ev r = str_eq r.started_event_id ev.id

-- What an arrival makes of the joins, and what it reports: one more join, or none where the event
-- has started one already.
pub data Arrives (w : World) (ev : Event) (rs : List JoinRow) : List JoinRow → Bool → Type 0 where
  opens :
      any (started_by ev) rs ≡ false
      → Arrives w ev rs (rs ++ join_row w.now w.new_join_id ev ∷ []) true
  known : any (started_by ev) rs ≡ true → Arrives w ev rs rs false

abbrev StoresArrival : World → Event → Database → Result → Database → Type 0
StoresArrival w ev db res db' = res.stored ≡ true → Arrives w ev db.joins db'.joins res.join_opened

pub record_event_arrival :
    (w : World) (ev : Event) (db db' : Database) (res : Result)
    → ev.type ≡ event_participant_joined
    → record_event w ev db ≡ (db', res, none)
    → res.stored ≡ true
    → Arrives w ev db.joins db'.joins res.join_opened
record_event_arrival w ev db db' res t h =
    record_event_success (StoresArrival w ev db) w ev db (λ _ s. cc s)
      (λ _ _.
        apply_join_effect-Yields _ stored_result w ev (with_event w.now ev db)
          (λ _.
            open_join-Yields w.now ev (with_event w.now ev db) _ w.new_join_id (λ o _. known o)
              (λ n _ _. opens n))
          (λ l. absurd (types_differ.2 (sym l ∙ t))) (λ f. absurd (types_differ.0 (sym f ∙ t)))
          (λ j _ _ _. cc (str_eq_refl event_participant_joined, j, t)))
      db' res h

-- an arrival that reports a join has added it
pub opened_join :
    (w : World) (ev : Event) (rs rs' : List JoinRow) (b : Bool)
    → Arrives w ev rs rs' b
    → b ≡ true
    → rs' ≡ rs ++ join_row w.now w.new_join_id ev ∷ []
opened_join w ev rs _ _ (opens n) e = refl
opened_join w ev rs _ _ (known o) e = cc e

-- a departure with a SID that an open join has ends by that
pub ended_by_sid :
    (w : World) (ev : Event) (rs rs' : List JoinRow) (n : _) (b : Bool)
    → Departs w ev rs rs' n b
    → is_empty ev.participant_sid ≡ false
    → any (sid_matches ev) rs ≡ true
    → rs' ≡ ended w ev (sid_matches ev) rs
ended_by_sid w ev rs _ _ _ (ends_by_sid s m) e a = refl
ended_by_sid w ev rs _ _ _ (ends_latest l (inl s) x) e a = cc (s, e)
ended_by_sid w ev rs _ _ _ (ends_latest l (inr m) x) e a = cc (m, a)
ended_by_sid w ev rs _ _ _ (ends_none (inl s) x) e a = cc (s, e)
ended_by_sid w ev rs _ _ _ (ends_none (inr m) x) e a = cc (m, a)

nullable-of_nonempty : (s : Bytes) → is_empty s ≡ false → nullable s ≡ some s
unfolding nullable
nullable-of_nonempty [] h = cc h
nullable-of_nonempty (c ∷ s) h = refl

-- the departure is of the arrival's participant session
pub record IsOf (arrival departure : Event) : Type 0 where
  pub backend : arrival.backend ≡ departure.backend
  pub room : arrival.room_name ≡ departure.room_name
  pub sid : arrival.participant_sid ≡ departure.participant_sid
  pub has_sid : is_empty departure.participant_sid ≡ false

pub sid_matches-join_row :
    (w : World) (a d : Event) → IsOf a d → sid_matches d (join_row w.now w.new_join_id a) ≡ true
unfolding sid_matches join_row row_is_open opt_str_eq
sid_matches-join_row w a d o =
    rw
      (
        o.backend,
        o.room,
        o.sid,
        nullable-of_nonempty d.participant_sid o.has_sid,
        str_eq_refl d.backend,
        str_eq_refl d.room_name,
        str_eq_refl d.participant_sid,
      )
      refl

module _ (p : JoinRow → Bool) (f : JoinRow → JoinRow) (r : JoinRow) (m : p r ≡ true) where
  any-last : (rs : List JoinRow) → any p (rs ++ r ∷ []) ≡ true
  any-last [] = ground (arith, m)
  any-last (x ∷ rs) = ground (arith, any-last rs)

  update_if-last : (rs : List JoinRow) → update_if p f (rs ++ r ∷ []) ≡ update_if p f rs ++ f r ∷ []
  update_if-last [] = rw m refl
  update_if-last (x ∷ rs) = ap (λ xs. (if p x then f x else x) ∷ xs) (update_if-last rs)

-- Over well-formed tables: an arrival is stored without error and opens a join, and the next call
-- stores a departure with the same SID from that room without error. Then the joins behind both are
-- those from before, of which the open ones with that SID in that room have ended too, and the
-- arrival's join, ended at the time of the departure.
pub arrival_and_departure :
    (w w' : World) (a d : Event) (db between after : Database) (res res' : Result)
    → WellFormed db
    → a.type ≡ event_participant_joined
    → d.type ≡ event_participant_left
    → IsOf a d
    → record_event w a db ≡ (between, res, none)
    → res.stored ≡ true
    → res.join_opened ≡ true
    → record_event w' d between ≡ (after, res', none)
    → res'.stored ≡ true
    → after.joins
      ≡ ended w' d (sid_matches d) db.joins
        ++ end_row w'.now end_participant_left d (join_row w.now w.new_join_id a) ∷ []
arrival_and_departure w w' a d db between after res res' v ta td o h s j h' s' =
    let u = subst (λ x. WellFormed x.0) h (record_event-WellFormed w a db v) in
    let m = sid_matches-join_row w a d o in
    let joined =
      opened_join w a db.joins between.joins _ (record_event_arrival w a db between res ta h s) j in
    let departs = record_event_departure w' d between after res' u td h' s' in
    let present = any-last (sid_matches d) (end_row w'.now end_participant_left d) _ m db.joins in
    ended_by_sid w' d between.joins after.joins _ _ departs o.has_sid
      (ap (any (sid_matches d)) joined ∙ present)
    ∙ ap (ended w' d (sid_matches d)) joined
    ∙ update_if-last (sid_matches d) (end_row w'.now end_participant_left d) _ m db.joins
