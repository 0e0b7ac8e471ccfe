-- ===== src/Postgres/Invariant.antt =====
-- The schema's invariants: unique keys, ends that come together and never precede their start, and
-- partitions that hold their rows.
use mathlib.Core.List.{map}
use session_analysis_platfor.Prelude.{
  ◌≡◌, refl, Bool, true, false, ◌&&◌, List, [], ◌∷◌, Option, none, some, Bytes, arith, All,
  All-append, any, update_if, str_eq,
}
use session_analysis_platfor.Session.{Event}
use session_analysis_platfor.Time.{Time, before}
use session_analysis_platfor.Postgres.Tables.{EventRow, JoinRow, Database, covered}
use session_analysis_platfor.Postgres.Statements.{
  event_row, same_key, insert_event, join_row, open_join, end_row, close_where,
}
use session_analysis_platfor.Postgres.Replies.{
  Leaves, Leaves-of, with_event, insert_event-Yields, open_join-Yields, close_where-Yields,
}
use session_analysis_platfor.Postgres.Record.{World, record_event}
use session_analysis_platfor.Postgres.Record.Cases.{
  IsEndReason, Cause-IsEndReason, record_event_leaves,
}
use session_analysis_platfor.Postgres.Keys.{Distinct, Distinct-append, map-update_if, key_eq}

-- Three columns are NULL together; an end is one that was observed, and not before the start.
abbrev pub EndIsSound : Option Time → Option Bytes → Option Bytes → Time → Type 0
EndIsSound none none none start = Unit
EndIsSound (some t) (some reason) (some id) start = (before t start ≡ false) × IsEndReason reason
EndIsSound _ _ _ start = ⊥

abbrev pub RowIsSound : JoinRow → Type 0
RowIsSound r = EndIsSound r.ended_at r.end_reason r.ended_event_id r.started_at

abbrev pub event_key : EventRow → Time × Bytes
event_key r = (r.occurred_at, r.event_id)

abbrev pub started_key : JoinRow → Bytes
started_key r = r.started_event_id

abbrev pub join_key : JoinRow → Bytes
join_key r = r.join_id

pub record WellFormed (db : Database) : Type 0 where
  pub event_keys : Distinct key_eq (map event_key db.events)
  pub join_ids : Distinct str_eq (map join_key db.joins)
  pub started_ids : Distinct str_eq (map started_key db.joins)
  pub ends : All RowIsSound db.joins
  pub placed : All (λ (r : EventRow). covered db.partitions r.occurred_at ≡ true) db.events

pub with_event-WellFormed :
    (now : Time) (ev : Event) (db : Database)
    → WellFormed db
    → covered db.partitions ev.occurred_at ≡ true
    → any (same_key ev) db.events ≡ false
    → WellFormed (with_event now ev db)
unfolding event_row same_key key_eq
with_event-WellFormed now ev db v c new = record {
  event_keys = Distinct-append key_eq event_key db.events (event_row now ev) v.event_keys new;
  join_ids = v.join_ids;
  started_ids = v.started_ids;
  ends = v.ends;
  placed = All-append _ db.events _ v.placed (c, tt);
}

pub insert_event-WellFormed :
    (w : World) (ev : Event) (db : Database)
    → WellFormed db
    → Leaves WellFormed (insert_event w.now ev db)
insert_event-WellFormed w ev db v = Leaves-of WellFormed _ (
    insert_event-Yields w.now ev db (λ _. WellFormed) (λ _ _. v)
      (with_event-WellFormed w.now ev db v))

pub open_join-WellFormed :
    (w : World) (ev : Event) (db : Database)
    → WellFormed db
    → Leaves WellFormed (open_join w.now w.new_join_id ev db)
open_join-WellFormed w ev db v = Leaves-of WellFormed _ (
    open_join-Yields w.now ev db (λ _. WellFormed) w.new_join_id (λ _. v)
      (λ new fresh.
        unfold join_row in
        record {
          event_keys = v.event_keys;
          join_ids =
              Distinct-append str_eq join_key db.joins (join_row w.now w.new_join_id ev) v.join_ids
                fresh;
          started_ids =
              Distinct-append str_eq started_key db.joins (join_row w.now w.new_join_id ev)
                v.started_ids new;
          ends = All-append _ db.joins _ v.ends (tt, tt);
          placed = v.placed;
        }))

update_if-RowIsSound :
    (p : JoinRow → Bool) (now : Time) (reason : Bytes) (ev : Event) (rs : List JoinRow)
    → IsEndReason reason
    → any (λ r. p r && before ev.occurred_at r.started_at) rs ≡ false
    → All RowIsSound rs
    → All RowIsSound (update_if p (end_row now reason ev) rs)
unfolding end_row
update_if-RowIsSound p now reason ev [] k h v = tt
update_if-RowIsSound p now reason ev (r ∷ rs) k h (s, v) =
    (ground arith, update_if-RowIsSound p now reason ev rs k (ground arith) v)

pub close_where-WellFormed :
    (p : JoinRow → Bool) (w : World) (reason : Bytes) (ev : Event) (db : Database)
    → IsEndReason reason
    → WellFormed db
    → Leaves WellFormed (close_where p w.now reason ev db)
close_where-WellFormed p w reason ev db k v =
    let f = end_row w.now reason ev in
    Leaves-of WellFormed _ (
      close_where-Yields w.now ev db (λ _. WellFormed) p reason
        (λ fine. record {
          event_keys = v.event_keys;
          join_ids =
              rw (map-update_if join_key p f (λ r. unfold end_row in refl) db.joins) v.join_ids;
          started_ids =
              rw (map-update_if started_key p f (λ r. unfold end_row in refl) db.joins)
                v.started_ids;
          ends = update_if-RowIsSound p w.now reason ev db.joins k fine v.ends;
          placed = v.placed;
        }))

-- Every call of `record_event`, in every world and however it ends, keeps the schema's invariants.
pub record_event-WellFormed :
    (w : World) (ev : Event) (db : Database) → WellFormed db → WellFormed (record_event w ev db).0
record_event-WellFormed w ev db v =
    record_event_leaves WellFormed w ev (λ tx _. open_join-WellFormed w ev tx)
      (λ p reason tx k. close_where-WellFormed p w reason ev tx (Cause-IsEndReason k)) db v
      (insert_event-WellFormed w ev db v)
