-- ===== src/Postgres/Stay/Others.antt =====
-- A participant's stay, with calls of `RecordEvent` for others at once between its arrival and its
-- departure.
use mathlib.Core.Path.{subst}
use session_analysis_platfor.Prelude.{
  ℕ, zero, suc, ◌≡◌, ◌≢◌, refl, ap, sym, ◌∙◌, inl, inr, Bool, true, List, [], ◌∷◌, ◌++◌, none, some,
  Bytes, All, any, update_if, length, get_elem?, arith,
}
use session_analysis_platfor.Session.{
  Event, event_participant_joined, event_participant_left, event_room_finished,
  end_participant_left,
}
use session_analysis_platfor.Store.{Result}
use session_analysis_platfor.Postgres.Tables.{JoinRow, Database, nullable}
use session_analysis_platfor.Postgres.Statements.{join_row, end_row, sid_matches}
use session_analysis_platfor.Postgres.Record.{World, record_event}
use session_analysis_platfor.Postgres.Invariant.{WellFormed, record_event-WellFormed}
use session_analysis_platfor.Postgres.Reasons.{EndsFor}
use session_analysis_platfor.Postgres.Departure.{record_event_departure}
use session_analysis_platfor.Postgres.History.Runs.{Made, RowHistory, JoinsHistory, Reach-History}
use session_analysis_platfor.Postgres.Record.Concurrent.{
  Call, Finished, finished, System, idle, Reach,
}
use session_analysis_platfor.Postgres.Stay.{
  IsOf, record_event_arrival, opened_join, ended_by_sid, sid_matches-join_row,
}

-- The event does not end the arrival's join: it is of another room, or neither its room's end nor a
-- departure of its SID or its identity.
pub data IsBeside (arrival ev : Event) : Type 0 where
  other_backend : arrival.backend ≢ ev.backend → IsBeside arrival ev
  other_room : arrival.room_name ≢ ev.room_name → IsBeside arrival ev
  other_type :
      ev.type ≢ event_room_finished → ev.type ≢ event_participant_left → IsBeside arrival ev
  other_participant :
      ev.type ≢ event_room_finished
      → nullable arrival.participant_sid ≢ some ev.participant_sid
      → arrival.participant_identity ≢ ev.participant_identity
      → IsBeside arrival ev

abbrev pub IsCallBeside : Event → Finished → Type 0
IsCallBeside arrival (finished c res err) = IsBeside arrival c.event

IsBeside-not_ended :
    (w : World) (a ev : Event) (reason : Bytes)
    → IsBeside a ev
    → ¬ EndsFor ev reason (join_row w.now w.new_join_id a)
unfolding join_row
IsBeside-not_ended w a ev reason (other_backend n) e = n e.backend
IsBeside-not_ended w a ev reason (other_room n) e = n e.room
IsBeside-not_ended w a ev reason (other_type n m) e = elim e.type [
  | inl (t, _) ↦ n t
  | inr (t, _, _) ↦ m t
]
IsBeside-not_ended w a ev reason (other_participant n s i) e = elim e.type [
  | inl (t, _) ↦ n t
  | inr (_, _, inl same) ↦ s same
  | inr (_, _, inr same) ↦ i same
]

Made-IsBeside :
    (a : Event) (c : Call) (log : List Finished)
    → All (IsCallBeside a) log
    → Made c log
    → IsBeside a c.event
Made-IsBeside a c [] h m = absurd m
Made-IsBeside a c (finished d res err ∷ log) (h, hs) (inl e) =
    subst (λ x. IsBeside a x.event) (sym e) h
Made-IsBeside a c (finished d res err ∷ log) (h, hs) (inr m) = Made-IsBeside a c log hs m

-- the arrival's join is as it was behind calls beside it
RowHistory-beside :
    (w : World) (a : Event) (log : List Finished) (r : JoinRow)
    → All (IsCallBeside a) log
    → RowHistory log (join_row w.now w.new_join_id a) r
    → r ≡ join_row w.now w.new_join_id a
RowHistory-beside w a log r h (inl e) = e
RowHistory-beside w a log r h (inr (o, c, made, z, k, e)) =
    absurd (IsBeside-not_ended w a c.event z (Made-IsBeside a c log h made) k)

JoinsHistory-last :
    (log : List Finished) (olds news : List JoinRow) (r : JoinRow)
    → JoinsHistory log (olds ++ r ∷ []) news
    → (r' : JoinRow) × (get_elem? news (length olds) ≡ some r') × RowHistory log r r'
JoinsHistory-last log [] [] r h = absurd h
JoinsHistory-last log [] (x ∷ news) r (h, hs) = (x, refl, h)
JoinsHistory-last log (o ∷ olds) [] r h = absurd h
JoinsHistory-last log (o ∷ olds) (x ∷ news) r (h, hs) = JoinsHistory-last log olds news r hs

module _ (p : JoinRow → Bool) (r : JoinRow) (m : p r ≡ true) where
  any-get_elem? : (rs : List JoinRow) (i : ℕ) → get_elem? rs i ≡ some r → any p rs ≡ true
  any-get_elem? [] i h = cc h
  any-get_elem? (x ∷ rs) zero h = let e : x ≡ r = cc h in ground (arith, ap p e, m)
  any-get_elem? (x ∷ rs) (suc i) h = ground (arith, any-get_elem? rs i h)

  get_elem?-update_if :
      (f : JoinRow → JoinRow) (rs : List JoinRow) (i : ℕ)
      → get_elem? rs i ≡ some r
      → get_elem? (update_if p f rs) i ≡ some (f r)
  get_elem?-update_if f [] i h = cc h
  get_elem?-update_if f (x ∷ rs) zero h = let e : x ≡ r = cc h in rw e (rw m refl)
  get_elem?-update_if f (x ∷ rs) (suc i) h = get_elem?-update_if f rs i h

-- Over well-formed tables: an arrival is stored without error and opens a join. Then calls run at
-- once and interleave at their inserts, any number of them and with any failures, what a call does
-- behind its insert being one step, and none that returns is of the end of that backend's room or of
-- a departure from it with the arrival's SID or identity. Then a departure with the arrival's SID
-- from that room is stored without error. The arrival's join is untouched before the departure, and
-- ended behind it at the departure's time, at its place.
pub stay_among_others :
    (w w' : World) (a d : Event) (db between after : Database) (res res' : Result) (s : System)
    → WellFormed db
    → a.type ≡ event_participant_joined
    → d.type ≡ event_participant_left
    → IsOf a d
    → record_event w a db ≡ (between, res, none)
    → res.stored ≡ true
    → res.join_opened ≡ true
    → Reach (idle between) s
    → All (IsCallBeside a) s.log
    → record_event w' d s.database ≡ (after, res', none)
    → res'.stored ≡ true
    → (get_elem? s.database.joins (length db.joins) ≡ some (join_row w.now w.new_join_id a))
      × (get_elem? after.joins (length db.joins)
          ≡ some (end_row w'.now end_participant_left d (join_row w.now w.new_join_id a)))
stay_among_others w w' a d db between after res res' s v ta td o h st j r beside h' st' =
    let u = subst (λ x. WellFormed x.0) h (record_event-WellFormed w a db v) in
    let joined =
      opened_join w a db.joins between.joins _ (record_event_arrival w a db between res ta h st)
        j in
    let (u', k) = Reach-History r u in
    let (x, at, hist) =
      JoinsHistory-last s.log db.joins s.database.joins _
        (subst (λ rs. JoinsHistory s.log rs s.database.joins) joined k.joins) in
    let found = at ∙ ap some (RowHistory-beside w a s.log x beside hist) in
    let m = sid_matches-join_row w a d o in
    let ends =
      ended_by_sid w' d s.database.joins after.joins _ _
        (record_event_departure w' d s.database after res' u' td h' st') o.has_sid
        (any-get_elem? (sid_matches d) _ m s.database.joins _ found) in
    (
      found,
      ap (λ rs. get_elem? rs (length db.joins)) ends
          ∙ get_elem?-update_if (sid_matches d) _ m (end_row w'.now end_participant_left d)
              s.database.joins _ found,
    )
