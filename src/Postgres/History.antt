-- ===== src/Postgres/History.antt =====
-- What a call of `RecordEvent` does to the rows that are there.
pub mod Runs
use mathlib.Core.Path.{subst}
use session_analysis_platfor.Prelude.{
  ◌≡◌, ◌≢◌, refl, ap, sym, ◌∙◌, ◌⊎◌, inl, inr, Bool-cases, Bool, true, List, [], ◌∷◌, ◌++◌, Bytes,
  arith, All, update_if, if◌then◌else◌,
}
use session_analysis_platfor.Session.{Event, event_participant_joined}
use session_analysis_platfor.Postgres.Tables.{EventRow, JoinRow, Database}
use session_analysis_platfor.Postgres.Statements.{
  event_row, insert_event, join_row, open_join, row_is_open, end_row, close_where,
}
use session_analysis_platfor.Postgres.Replies.{
  Leaves, Leaves-of, Leaves-zip, insert_event-Yields, open_join-Yields, close_where-Yields,
}
use session_analysis_platfor.Postgres.Record.{World, record_event}
use session_analysis_platfor.Postgres.Record.Cases.{Cause, Cause-IsEndReason, record_event_leaves}
use session_analysis_platfor.Postgres.OpenRows.{Passes}
use session_analysis_platfor.Postgres.Reasons.{EndsFor, Ends, Cause-Ends}
use session_analysis_platfor.Postgres.Invariant.{
  WellFormed, insert_event-WellFormed, open_join-WellFormed, close_where-WellFormed,
}

-- A row behind a call: as it was, or ended while open by this event, at this event's time.
abbrev pub RowEvolves : World → Event → JoinRow → JoinRow → Type 0
RowEvolves w ev r r' =
    (r' ≡ r)
    ⊎ ((row_is_open r ≡ true)
        × (reason : Bytes) × EndsFor ev reason r
        × (r' ≡ end_row w.now reason ev r))

-- a new row: the one that an arrival opens, and what becomes of it
abbrev pub Opens : World → Event → JoinRow → Type 0
Opens w ev r =
    (ev.type ≡ event_participant_joined) × RowEvolves w ev (join_row w.now w.new_join_id ev) r

-- The rows that were there keep their places; new ones stand behind them, as this event opens them.
abbrev pub JoinsEvolve : World → Event → List JoinRow → List JoinRow → Type 0
JoinsEvolve w ev [] news = All (Opens w ev) news
JoinsEvolve w ev (r ∷ rs) [] = ⊥
JoinsEvolve w ev (r ∷ rs) (r' ∷ rs') = RowEvolves w ev r r' × JoinsEvolve w ev rs rs'

module _ (w : World) (ev : Event) where
  JoinsEvolve-refl : (rs : List JoinRow) → JoinsEvolve w ev rs rs
  JoinsEvolve-refl [] = tt
  JoinsEvolve-refl (r ∷ rs) = (inl refl, JoinsEvolve-refl rs)

  JoinsEvolve-append :
      (olds rs : List JoinRow)
      → ev.type ≡ event_participant_joined
      → JoinsEvolve w ev olds rs
      → JoinsEvolve w ev olds (rs ++ join_row w.now w.new_join_id ev ∷ [])
  JoinsEvolve-append [] [] t h = ((t, inl refl), tt)
  JoinsEvolve-append [] (r ∷ rs) t (s, h) = (s, JoinsEvolve-append [] rs t h)
  JoinsEvolve-append (o ∷ olds) [] t h = absurd h
  JoinsEvolve-append (o ∷ olds) (r ∷ rs) t (s, h) = (s, JoinsEvolve-append olds rs t h)

  pub open-ne-ended :
      (reason : Bytes) (r : JoinRow) → true ≢ row_is_open (end_row w.now reason ev r)
  unfolding row_is_open end_row
  open-ne-ended reason r e = cc e

  module _ (p : JoinRow → Bool) (reason : Bytes) where
    RowEvolves-end :
        (r r' : JoinRow)
        → RowEvolves w ev r r'
        → Ends ev reason r'
        → RowEvolves w ev r (end_row w.now reason ev r')
    RowEvolves-end r r' (inl e) t =
        let (o, k) = subst (Ends ev reason) e t in
        inr (o, reason, k, ap (end_row w.now reason ev) e)
    RowEvolves-end r r' (inr (o, z, y, e)) (t, _) =
        absurd (open-ne-ended z r (sym t ∙ ap row_is_open e))

    RowEvolves-update :
        (r r' : JoinRow)
        → RowEvolves w ev r r'
        → (p r' ≡ true → Ends ev reason r')
        → RowEvolves w ev r (if p r' then end_row w.now reason ev r' else r')
    RowEvolves-update r r' h k = elim (Bool-cases (p r')) [
      | inr f ↦ rw f h
      | inl t ↦ rw t (RowEvolves-end r r' h (k t))
    ]

    JoinsEvolve-update_if :
        (olds rs : List JoinRow)
        → JoinsEvolve w ev olds rs
        → Passes (Ends ev reason) p rs
        → JoinsEvolve w ev olds (update_if p (end_row w.now reason ev) rs)
    JoinsEvolve-update_if [] [] h k = tt
    JoinsEvolve-update_if [] (r ∷ rs) (s, h) (k, ks) =
        ((s.0, RowEvolves-update _ r s.1 k), JoinsEvolve-update_if [] rs h ks)
    JoinsEvolve-update_if (o ∷ olds) [] h k = absurd h
    JoinsEvolve-update_if (o ∷ olds) (r ∷ rs) (s, h) (k, ks) =
        (RowEvolves-update o r s k, JoinsEvolve-update_if olds rs h ks)

-- `event_raw` behind a call: as it was, or with this event's row behind the others.
abbrev pub EventsEvolve : World → Event → List EventRow → List EventRow → Type 0
EventsEvolve w ev olds news = (news ≡ olds) ⊎ (news ≡ olds ++ event_row w.now ev ∷ [])

pub record Tables (w : World) (ev : Event) (db tx : Database) : Type 0 where
  pub partitions : tx.partitions ≡ db.partitions
  pub events : EventsEvolve w ev db.events tx.events
  pub joins : JoinsEvolve w ev db.joins tx.joins

-- The history of one call, with the invariants that it needs.
pub record Evolves (w : World) (ev : Event) (db tx : Database) : Type 0 where
  pub valid : WellFormed tx
  pub tables : Tables w ev db tx

module _ (w : World) (ev : Event) (db : Database) where
  both : (tx : Database) → WellFormed tx → Tables w ev db tx → Evolves w ev db tx
  both tx v t = record { valid = v; tables = t }

  start : Tables w ev db db
  start = record { partitions = refl; events = inl refl; joins = JoinsEvolve-refl w ev db.joins }

  insert_event-Evolves : WellFormed db → Leaves (Evolves w ev db) (insert_event w.now ev db)
  insert_event-Evolves v = Leaves-zip _ both (insert_event-WellFormed w ev db v) (
      Leaves-of (Tables w ev db) _ (
        insert_event-Yields w.now ev db (λ _. Tables w ev db) (λ _ _. start)
          (λ _ _. record {
            partitions = refl;
            events = inr refl;
            joins = JoinsEvolve-refl w ev db.joins;
          })))

  open_join-Evolves :
      (tx : Database)
      → ev.type ≡ event_participant_joined
      → Evolves w ev db tx
      → Leaves (Evolves w ev db) (open_join w.now w.new_join_id ev tx)
  open_join-Evolves tx t h = Leaves-zip _ both (open_join-WellFormed w ev tx h.valid) (
      Leaves-of (Tables w ev db) _ (
        open_join-Yields w.now ev tx (λ _. Tables w ev db) w.new_join_id (λ _. h.tables)
          (λ _ _. record {
            partitions = h.tables.partitions;
            events = h.tables.events;
            joins = JoinsEvolve-append w ev db.joins tx.joins t h.tables.joins;
          })))

  close_where-Evolves :
      (p : JoinRow → Bool) (reason : Bytes) (tx : Database)
      → Cause ev tx p reason
      → Evolves w ev db tx
      → Leaves (Evolves w ev db) (close_where p w.now reason ev tx)
  close_where-Evolves p reason tx k h =
      Leaves-zip _ both (close_where-WellFormed p w reason ev tx (Cause-IsEndReason k) h.valid) (
        Leaves-of (Tables w ev db) _ (
          close_where-Yields w.now ev tx (λ _. Tables w ev db) p reason
            (λ _. record {
              partitions = h.tables.partitions;
              events = h.tables.events;
              joins =
                  JoinsEvolve-update_if w ev p reason db.joins tx.joins h.tables.joins
                    (Cause-Ends ev tx h.valid k);
            })))

  -- Whatever happens in a call: the invariants hold behind it; `event_raw` gains at most this
  -- event's row; every join that was there keeps its place and is unchanged, or was open and is
  -- ended by this event, which names its backend and its room, as a room's end or as a departure of
  -- its SID or its identity, at this event's time and for the reason of its type; a new join is the
  -- one that this event opens, as an arrival.
  pub record_event-Evolves : WellFormed db → Evolves w ev db (record_event w ev db).0
  record_event-Evolves v =
      record_event_leaves (Evolves w ev db) w ev open_join-Evolves close_where-Evolves db
        (both db v start) (insert_event-Evolves v)
