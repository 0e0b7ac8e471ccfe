-- ===== src/Postgres/Reasons.antt =====
-- Which event ends a join, and for which reason.
use session_analysis_platfor.Prelude.{
  ◌≡◌, refl, ap, ◌⊎◌, inl, inr, Bool, true, Option, none, some, Bytes, opt_str_eq, eq_of_str_eq,
  All-map, arith,
}
use session_analysis_platfor.Session.{
  Event, event_participant_left, event_room_finished, end_participant_left, end_room_finished,
}
use session_analysis_platfor.Postgres.Tables.{JoinRow, Database}
use session_analysis_platfor.Postgres.Statements.{
  row_is_open, sid_matches, identity_matches, room_matches,
}
use session_analysis_platfor.Postgres.Record.Cases.{Cause, sid_left, identity_left, room_over}
use session_analysis_platfor.Postgres.Invariant.{WellFormed}
use session_analysis_platfor.Postgres.OpenRows.{Passes, Passes-of, is_latest-Passes}

-- The event names the row's backend and its room, and, if it is a departure, its SID or its identity;
-- the reason is that of the event's type.
pub record EndsFor (ev : Event) (reason : Bytes) (r : JoinRow) : Type 0 where
  pub backend : r.backend ≡ ev.backend
  pub room : r.room_name ≡ ev.room_name
  pub type :
      ((ev.type ≡ event_room_finished) × (reason ≡ end_room_finished))
      ⊎ ((ev.type ≡ event_participant_left)
          × (reason ≡ end_participant_left)
          × ((r.participant_sid ≡ some ev.participant_sid)
              ⊎ (r.participant_identity ≡ ev.participant_identity)))

-- the row is open, and the event ends it
abbrev pub Ends : Event → Bytes → JoinRow → Type 0
Ends ev reason r = (row_is_open r ≡ true) × EndsFor ev reason r

eq_of_opt_str_eq : (o : Option Bytes) (t : Bytes) → opt_str_eq o t ≡ true → o ≡ some t
unfolding opt_str_eq
eq_of_opt_str_eq none t h = cc h
eq_of_opt_str_eq (some s) t h = ap some (eq_of_str_eq s t h)

-- what the three tests say of a row
module _ (ev : Event) (r : JoinRow) where
  sid_matches-Ends :
      ev.type ≡ event_participant_left → sid_matches ev r ≡ true → Ends ev end_participant_left r
  unfolding sid_matches
  sid_matches-Ends t h = (
    ground arith,
    record {
      backend = eq_of_str_eq r.backend ev.backend (ground arith);
      room = eq_of_str_eq r.room_name ev.room_name (ground arith);
      type =
          inr (t, refl, inl (eq_of_opt_str_eq r.participant_sid ev.participant_sid (ground arith)));
    },
  )

  identity_matches-Ends :
      ev.type ≡ event_participant_left
      → identity_matches ev r ≡ true
      → Ends ev end_participant_left r
  unfolding identity_matches
  identity_matches-Ends t h = (
    ground arith,
    record {
      backend = eq_of_str_eq r.backend ev.backend (ground arith);
      room = eq_of_str_eq r.room_name ev.room_name (ground arith);
      type = inr (
        t,
        refl,
        inr (eq_of_str_eq r.participant_identity ev.participant_identity (ground arith)),
      );
    },
  )

  room_matches-Ends :
      ev.type ≡ event_room_finished → room_matches ev r ≡ true → Ends ev end_room_finished r
  unfolding room_matches
  room_matches-Ends t h = (
    ground arith,
    record {
      backend = eq_of_str_eq r.backend ev.backend (ground arith);
      room = eq_of_str_eq r.room_name ev.room_name (ground arith);
      type = inl (t, refl);
    },
  )

-- a statement that ends joins passes open rows only, which its event ends
pub Cause-Ends :
    (ev : Event) (tx : Database) {p : JoinRow → Bool} {reason : Bytes}
    → WellFormed tx
    → Cause ev tx p reason
    → Passes (Ends ev reason) p tx.joins
Cause-Ends ev tx v (sid_left t) = Passes-of _ _ (λ r. sid_matches-Ends ev r t) tx.joins
Cause-Ends ev tx v (room_over t) = Passes-of _ _ (λ r. room_matches-Ends ev r t) tx.joins
Cause-Ends ev tx v (identity_left t) =
    All-map _ _ tx.joins (λ r k h. identity_matches-Ends ev r t (k h)) (is_latest-Passes ev tx v)
