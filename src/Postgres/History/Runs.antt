-- ===== src/Postgres/History/Runs.antt =====
-- What becomes of every row over any number of calls of `RecordEvent`.
use mathlib.Core.Path.{subst}
use session_analysis_platfor.Prelude.{
  ◌≡◌, refl, sym, ap, ◌∙◌, ◌⊎◌, inl, inr, true, List, [], ◌∷◌, ◌++◌, append-nil, append_assoc,
  Bytes, All, All-map, All-append, Option,
}
use session_analysis_platfor.Session.{event_participant_joined}
use session_analysis_platfor.Store.{Result, StoreError}
use session_analysis_platfor.Postgres.Tables.{EventRow, JoinRow, Database}
use session_analysis_platfor.Postgres.Statements.{event_row, join_row, row_is_open, end_row}
use session_analysis_platfor.Postgres.Reasons.{EndsFor, Ends}
use session_analysis_platfor.Postgres.Invariant.{WellFormed}
use session_analysis_platfor.Postgres.History.{
  RowEvolves, Opens, JoinsEvolve, EventsEvolve, open-ne-ended, Evolves, record_event-Evolves,
}
use session_analysis_platfor.Postgres.Record.Concurrent.{
  Call, Finished, finished, System, idle, Reach,
}
use session_analysis_platfor.Postgres.Record.Concurrent.Serial.{
  Serial, nothing, then_call, Reach-Serial,
}

-- the call is one of those that have returned
abbrev pub Made : Call → List Finished → Type 0
Made c [] = ⊥
Made c (finished d res err ∷ log) = (c ≡ d) ⊎ Made c log

-- A row behind the calls: as it was, or ended by one of them while it was open, at its event's time.
abbrev pub RowHistory : List Finished → JoinRow → JoinRow → Type 0
RowHistory log r r' =
    (r' ≡ r)
    ⊎ ((row_is_open r ≡ true)
        × (c : Call) × Made c log
        × (reason : Bytes) × EndsFor c.event reason r
        × (r' ≡ end_row c.world.now reason c.event r))

-- A row that one of the calls opened, and what became of it.
abbrev pub NewRow : List Finished → JoinRow → Type 0
NewRow log r =
    (c : Call) × Made c log
    × (c.event.type ≡ event_participant_joined)
    × RowHistory log (join_row c.world.now c.world.new_join_id c.event) r

-- The rows that were there keep their places; those of the calls stand behind them.
abbrev pub JoinsHistory : List Finished → List JoinRow → List JoinRow → Type 0
JoinsHistory log [] news = All (NewRow log) news
JoinsHistory log (r ∷ rs) [] = ⊥
JoinsHistory log (r ∷ rs) (r' ∷ rs') = RowHistory log r r' × JoinsHistory log rs rs'

abbrev pub EventMade : List Finished → EventRow → Type 0
EventMade log row = (c : Call) × Made c log × (row ≡ event_row c.world.now c.event)

-- Rows are added behind the others.
abbrev pub EventsHistory : List Finished → List EventRow → List EventRow → Type 0
EventsHistory log olds news =
    (rows : List EventRow) × (news ≡ olds ++ rows) × All (EventMade log) rows

pub record History (start : Database) (log : List Finished) (db : Database) : Type 0 where
  pub partitions : db.partitions ≡ start.partitions
  pub events : EventsHistory log start.events db.events
  pub joins : JoinsHistory log start.joins db.joins

-- one call more
module _ (log : List Finished) (c : Call) (res : Result) (err : Option StoreError) where
  RowHistory-step :
      (r m r' : JoinRow)
      → RowHistory log r m
      → RowEvolves c.world c.event m r'
      → RowHistory (finished c res err ∷ log) r r'
  RowHistory-step r m r' (inl e) (inl e') = inl (e' ∙ e)
  RowHistory-step r m r' (inl e) (inr (o, z, k, e')) =
      let (o', k') = subst (Ends c.event z) e (o, k) in
      inr (o', c, inl refl, z, k', e' ∙ ap (end_row c.world.now z c.event) e)
  RowHistory-step r m r' (inr (o, d, made, z, k, e)) (inl e') = inr (o, d, inr made, z, k, e' ∙ e)
  RowHistory-step r m r' (inr (o, d, made, z, k, e)) (inr (again, _, _, _)) =
      absurd (open-ne-ended d.world d.event z r (sym again ∙ ap row_is_open e))

  NewRow-step :
      (mids news : List JoinRow)
      → All (NewRow log) mids
      → JoinsEvolve c.world c.event mids news
      → All (NewRow (finished c res err ∷ log)) news
  NewRow-step [] news h k =
      All-map (Opens c.world c.event) _ news
        (λ r p. (c, inl refl, p.0, RowHistory-step _ _ r (inl refl) p.1)) k
  NewRow-step (m ∷ mids) [] h k = absurd k
  NewRow-step (m ∷ mids) (r ∷ rs) ((d, made, t, h), hs) (k, ks) =
      ((d, inr made, t, RowHistory-step _ m r h k), NewRow-step mids rs hs ks)

  JoinsHistory-step :
      (olds mids news : List JoinRow)
      → JoinsHistory log olds mids
      → JoinsEvolve c.world c.event mids news
      → JoinsHistory (finished c res err ∷ log) olds news
  JoinsHistory-step [] mids news h k = NewRow-step mids news h k
  JoinsHistory-step (o ∷ olds) [] news h k = absurd h
  JoinsHistory-step (o ∷ olds) (m ∷ mids) [] h k = absurd k
  JoinsHistory-step (o ∷ olds) (m ∷ mids) (r ∷ rs) (h, hs) (k, ks) =
      (RowHistory-step o m r h k, JoinsHistory-step olds mids rs hs ks)

  EventMade-later :
      (rows : List EventRow)
      → All (EventMade log) rows
      → All (EventMade (finished c res err ∷ log)) rows
  EventMade-later rows = All-map _ _ rows (λ r p. (p.0, inr p.1, p.2))

  EventsHistory-step :
      (olds mids news : List EventRow)
      → EventsHistory log olds mids
      → EventsEvolve c.world c.event mids news
      → EventsHistory (finished c res err ∷ log) olds news
  EventsHistory-step olds mids news (rows, e, h) (inl same) =
      (rows, same ∙ e, EventMade-later rows h)
  EventsHistory-step olds mids news (rows, e, h) (inr more) =
      let row = event_row c.world.now c.event in
      (
        rows ++ row ∷ [],
        more ∙ ap (λ rs. rs ++ row ∷ []) e ∙ append_assoc olds rows (row ∷ []),
        All-append (EventMade (finished c res err ∷ log)) rows _ (EventMade-later rows h)
            ((c, inl refl, refl), tt),
      )

JoinsHistory-refl : (rs : List JoinRow) → JoinsHistory [] rs rs
JoinsHistory-refl [] = tt
JoinsHistory-refl (r ∷ rs) = (inl refl, JoinsHistory-refl rs)

Serial-History :
    {start db : Database} {log : List Finished}
    → Serial start log db
    → WellFormed start
    → WellFormed db × History start log db
Serial-History {start} nothing v = (
  v,
  record {
    partitions = refl;
    events = ([], sym (append-nil start.events), tt);
    joins = JoinsHistory-refl start.joins;
  },
)
Serial-History {start} (then_call {log} {db} {db'} c res err ser e) v =
    let (u, h) = Serial-History ser v in
    let k : Evolves c.world c.event db db' =
      subst (λ o. Evolves c.world c.event db o.0) e (record_event-Evolves c.world c.event db u) in
    (
      k.valid,
      record {
        partitions = k.tables.partitions ∙ h.partitions;
        events =
            EventsHistory-step log c res err start.events db.events db'.events h.events
              k.tables.events;
        joins =
            JoinsHistory-step log c res err start.joins db.joins db'.joins h.joins k.tables.joins;
      },
    )

-- However calls of `record_event` interleave at their inserts, what a call does behind its insert
-- being one step, from well-formed tables: the invariants hold behind them; a row of `event_raw` is
-- never changed nor removed, and every new one is that of a call's event; every join that was there
-- keeps its place and is unchanged, or was open and was ended by one call, and never changed again;
-- every new join is the one that a call for an arrival opens, with such an end at most. A call that
-- ends a join names its backend and its room, as a room's end or as a departure of its SID or its
-- identity, and gives it its event's time, its id, and the reason of its type.
pub Reach-History :
    {start : Database} {s : System}
    → Reach (idle start) s
    → WellFormed start
    → WellFormed s.database × History start s.log s.database
Reach-History r v = Serial-History (Reach-Serial r) v
