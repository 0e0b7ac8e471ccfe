-- ===== src/Postgres/Counts.antt =====
-- The counts that `RecordEvent` returns, against the rows that it inserts and ends.
use mathlib.Core.Path.{subst}
use session_analysis_platfor.Prelude.{
  ℕ, zero, suc, ◌+◌, ltb, ◌==◌, ◌≡◌, refl, ap, inl, Bool, true, false, List, [], ◌∷◌, none, Bytes,
  arith, length, length-append, count_if, count_if-append, update_if,
}
use session_analysis_platfor.Session.{Event, end_participant_left, end_room_finished}
use session_analysis_platfor.Store.{Result}
use session_analysis_platfor.Postgres.Tables.{EventRow, JoinRow, Database}
use session_analysis_platfor.Postgres.Statements.{
  Reply, event_row, join_row, row_is_open, end_row, close_where, open_join, close_by_sid,
  close_by_identity, close_room,
}
use session_analysis_platfor.Postgres.Replies.{
  Yields, Yields-map, Yields-zip, with_event, open_join-Yields, close_where-Yields,
}
use session_analysis_platfor.Postgres.Record.{World, close, record_event}
use session_analysis_platfor.Postgres.Record.Cases.{Target, by_sid, by_identity, by_room}
use session_analysis_platfor.Postgres.Record.Success.{OnSuccess, record_event-OnSuccess}
use session_analysis_platfor.Postgres.Record.Outcomes.{
  Outcome, FallsBack, stored_result, close-Yields, apply_join_effect-Yields,
}
use session_analysis_platfor.Postgres.Invariant.{
  WellFormed, with_event-WellFormed, close_where-WellFormed,
}
use session_analysis_platfor.Postgres.OpenRows.{PassesOpen, Target-PassesOpen}

abbrev pub count_open : Database → ℕ
count_open db = count_if row_is_open db.joins

abbrev pub bit : Bool → ℕ
bit true = 1
bit false = 0

module _ (w : World) (ev : Event) (reason : Bytes) where
  row_is_open-end_row : (r : JoinRow) → row_is_open (end_row w.now reason ev r) ≡ false
  unfolding row_is_open end_row
  row_is_open-end_row r = refl

  count_open-update_if :
      (p : JoinRow → Bool) (rs : List JoinRow)
      → PassesOpen p rs
      → count_if row_is_open (update_if p (end_row w.now reason ev) rs) + count_if p rs
        ≡ count_if row_is_open rs
  count_open-update_if p [] h = refl
  count_open-update_if p (r ∷ rs) (h, hs) =
      ground (arith, row_is_open-end_row r, count_open-update_if p rs hs)

  length-update_if :
      (p : JoinRow → Bool) (rs : List JoinRow)
      → length (update_if p (end_row w.now reason ev) rs) ≡ length rs
  length-update_if p [] = refl
  length-update_if p (r ∷ rs) = omega (arith, length-update_if p rs)

-- `n` joins were ended and nothing else was changed
pub record Ended (tx : Database) (n : ℕ) (tx' : Database) : Type 0 where
  pub fewer : count_open tx' + n ≡ count_open tx
  pub joins : length tx'.joins ≡ length tx.joins
  pub events : tx'.events ≡ tx.events

close_where-Ended :
    (w : World) (ev : Event) (reason : Bytes) (tx : Database) {p : JoinRow → Bool}
    → WellFormed tx
    → Target ev tx p
    → Yields (Ended tx) (close_where p w.now reason ev tx)
close_where-Ended w ev reason tx {p} v t = close_where-Yields w.now ev tx (Ended tx) p reason (λ _.
    record {
      fewer = count_open-update_if w ev reason p tx.joins (Target-PassesOpen ev tx v t);
      joins = length-update_if w ev reason p tx.joins;
      events = refl;
    })

Ended-trans : (a b c : Database) (n : ℕ) → Ended a 0 b → Ended b n c → Ended a n c
Ended-trans a b c n h k = record {
  fewer = omega (arith, h.fewer, k.fewer);
  joins = omega (arith, h.joins, k.joins);
  events = cc (h.events, k.events);
}

FallsBack-of :
    (Q : ℕ → Database → Type 0) (rest : Database → Reply ℕ) (n : ℕ) (tx : Database)
    → Q n tx
    → (n ≡ 0 → Yields Q (rest tx))
    → FallsBack Q rest n tx
FallsBack-of Q rest zero tx h k = k refl
FallsBack-of Q rest (suc n) tx h k = h

close-Ended :
    (w : World) (ev : Event) (tx : Database)
    → WellFormed tx
    → Yields (Ended tx) (close w ev end_participant_left tx)
unfolding close_by_sid close_by_identity
close-Ended w ev tx v =
    close-Yields w ev tx (Ended tx) end_participant_left
      (λ _.
        Yields-zip {Q = FallsBack (Ended tx) (close_by_identity w.now end_participant_left ev)}
          (close_by_sid w.now end_participant_left ev tx)
          (λ n tx' h v'.
            FallsBack-of (Ended tx) (close_by_identity w.now end_participant_left ev) n tx' h (λ z.
              Yields-map (close_by_identity w.now end_participant_left ev tx')
                (λ m tx''. Ended-trans tx tx' tx'' m (subst (λ k. Ended tx k tx') z h))
                (close_where-Ended w ev end_participant_left tx' v' by_identity)))
          (close_where-Ended w ev end_participant_left tx v by_sid)
          (close_where-WellFormed _ w end_participant_left ev tx (inl refl) v))
      (λ _. close_where-Ended w ev end_participant_left tx v by_identity)

-- What a call reports, against what it did to the tables.
pub record Balanced (db : Database) (res : Result) (db' : Database) : Type 0 where
  pub open_joins : count_open db' + res.joins_closed ≡ count_open db + bit res.join_opened
  pub all_joins : length db'.joins ≡ length db.joins + bit res.join_opened
  pub all_events : length db'.events ≡ length db.events + bit res.stored

abbrev pub BalancedOnSuccess : Database → Outcome → Type 0
BalancedOnSuccess db = OnSuccess (Balanced db)

module _ (w : World) (ev : Event) (db : Database) where
  tx : Database
  tx = with_event w.now ev db

  one_more_event : length tx.events ≡ length db.events + 1
  unfolding tx
  one_more_event = length-append {0} db.events (event_row w.now ev ∷ [])

  new_row_is_open : count_if row_is_open (join_row w.now w.new_join_id ev ∷ []) ≡ 1
  unfolding row_is_open join_row
  new_row_is_open = refl

  opened-Balanced :
      Yields
        (λ n. Balanced db (record stored_result { join_opened = ltb 0 n }))
        (open_join w.now w.new_join_id ev tx)
  opened-Balanced =
      open_join-Yields w.now ev tx _ w.new_join_id (λ _. unfold tx in omega (arith, one_more_event))
        (λ _ _.
          unfold tx in
          record {
            open_joins = omega (
              arith,
              count_if-append {0} row_is_open db.joins (join_row w.now w.new_join_id ev ∷ []),
              new_row_is_open,
            );
            all_joins = length-append {0} db.joins (join_row w.now w.new_join_id ev ∷ []);
            all_events = one_more_event;
          })

  Ended-Balanced :
      (n : ℕ) (tx' : Database) (unmatched : Bool)
      → Ended tx n tx'
      → Balanced db (record stored_result { joins_closed = n; close_unmatched = unmatched }) tx'
  unfolding tx
  Ended-Balanced n tx' b h = record {
    open_joins = omega (arith, h.fewer);
    all_joins = omega (arith, h.joins);
    all_events = omega (arith, ap (length {A = EventRow}) h.events, one_more_event);
  }

  pub record_event-BalancedOnSuccess : WellFormed db → BalancedOnSuccess db (record_event w ev db)
  unfolding close_room tx
  record_event-BalancedOnSuccess v =
      record_event-OnSuccess (Balanced db) w ev db (λ _. omega arith)
        (λ c n.
          let v' = with_event-WellFormed w.now ev db v c n in
          apply_join_effect-Yields (Balanced db) stored_result w ev tx (λ _. opened-Balanced)
            (λ _. Yields-map _ (λ n tx'. Ended-Balanced n tx' (n == 0)) (close-Ended w ev tx v'))
            (λ _.
              Yields-map _ (λ n tx'. Ended-Balanced n tx' false)
                (close_where-Ended w ev end_room_finished tx v' by_room))
            (λ _ _ _. omega (arith, one_more_event)))

-- A call without error reports what it did: `JoinsClosed` is the number of open joins that are
-- open no longer, and `JoinOpened` and `Stored` say whether the tables have one row more.
pub record_event-Balanced :
    (w : World) (ev : Event) (db db' : Database) (res : Result)
    → WellFormed db
    → record_event w ev db ≡ (db', res, none)
    → Balanced db res db'
record_event-Balanced w ev db db' res v h =
    subst (BalancedOnSuccess db) h (record_event-BalancedOnSuccess w ev db v)
