-- ===== src/Postgres/Statements.antt =====
-- The five SQL statements. `now` is the transaction's time.
use session_analysis_platfor.Prelude.{
  ℕ, Bool, true, false, ◌&&◌, List, [], ◌∷◌, ◌++◌, Option, none, some, Bytes, codes, any, count_if,
  update_if, if◌then◌else◌, str_eq, opt_str_eq,
}
use session_analysis_platfor.Session.{Event}
use session_analysis_platfor.Time.{Time, before, time_eq}
use session_analysis_platfor.Postgres.Tables.{
  EventRow, JoinRow, Database, DriverError, pg, covered, nullable,
}

-- What the server answers: an error, or rows affected and the transaction's new snapshot.
pub data Reply {ℓ} (A : Type ℓ) : Type ℓ where
  refused : DriverError → Reply A
  done : A → Database → Reply A

unfoldable pub event_row : Time → Event → EventRow
event_row now ev = record {
  event_id = ev.id;
  backend = ev.backend;
  backend_event_id = nullable ev.backend_event_id;
  event_type = ev.type;
  occurred_at = ev.occurred_at;
  received_at = now;
  room_name = nullable ev.room_name;
  room_sid = nullable ev.room_sid;
  participant_identity = nullable ev.participant_identity;
  participant_sid = nullable ev.participant_sid;
  track_sid = nullable ev.track_sid;
  payload = ev.payload;
}

-- PRIMARY KEY (occurred_at, event_id)
unfoldable pub same_key : Event → EventRow → Bool
same_key ev r = time_eq r.occurred_at ev.occurred_at && str_eq r.event_id ev.id

-- `insertEvent`: the id that RETURNING gives, and no row where the insert conflicts
unfoldable pub insert_event : Time → Event → Database → Reply (Option Bytes)
insert_event now ev db =
    if covered db.partitions ev.occurred_at
    then (if any (same_key ev) db.events
        then done none db
        else done (some ev.id) (record db { events = db.events ++ event_row now ev ∷ [] }))
    else refused (pg (record { code = codes "23514"; constraint_name = [] }))

unfoldable pub join_row : Time → Bytes → Event → JoinRow
join_row now join_id ev = record {
  join_id = join_id;
  backend = ev.backend;
  room_name = ev.room_name;
  participant_identity = ev.participant_identity;
  room_sid = nullable ev.room_sid;
  participant_sid = nullable ev.participant_sid;
  started_at = ev.occurred_at;
  ended_at = none;
  end_reason = none;
  started_event_id = ev.id;
  ended_event_id = none;
  created_at = now;
  updated_at = now;
}

-- `openJoin`: ON CONFLICT names started_event_id alone, so a taken join_id is an error
unfoldable pub open_join : Time → Bytes → Event → Database → Reply ℕ
open_join now join_id ev db =
    if any (λ r. str_eq r.started_event_id ev.id) db.joins
    then done 0 db
    else if any (λ r. str_eq r.join_id join_id) db.joins
    then refused
        (pg (record { code = codes "23505"; constraint_name = codes "participant_join_pkey" }))
    else done 1 (record db { joins = db.joins ++ join_row now join_id ev ∷ [] })

-- `ended_at IS NULL`
unfoldable pub row_is_open : JoinRow → Bool
row_is_open r = elim r.ended_at [ none ↦ true | some t ↦ false ]

-- SET ended_at, end_reason, ended_event_id, updated_at
unfoldable pub end_row : Time → Bytes → Event → JoinRow → JoinRow
end_row now reason ev r = record r {
  ended_at = some ev.occurred_at;
  end_reason = some reason;
  ended_event_id = some ev.id;
  updated_at = now;
}

-- An UPDATE that ends the rows of a test. It fails as a whole where one of them would end before
-- it started, since `active_range` cannot be built.
unfoldable pub close_where : (JoinRow → Bool) → Time → Bytes → Event → Database → Reply ℕ
close_where p now reason ev db =
    if any (λ r. p r && before ev.occurred_at r.started_at) db.joins
    then refused (pg (record { code = codes "22000"; constraint_name = [] }))
    else done (count_if p db.joins)
        (record db { joins = update_if p (end_row now reason ev) db.joins })

-- WHERE of `closeBySID`
unfoldable pub sid_matches : Event → JoinRow → Bool
sid_matches ev r =
    str_eq r.backend ev.backend
    && str_eq r.room_name ev.room_name
    && opt_str_eq r.participant_sid ev.participant_sid
    && row_is_open r

-- WHERE of the subquery of `closeByIdentity`
unfoldable pub identity_matches : Event → JoinRow → Bool
identity_matches ev r =
    str_eq r.backend ev.backend
    && str_eq r.room_name ev.room_name
    && str_eq r.participant_identity ev.participant_identity
    && row_is_open r

-- WHERE of `closeRoom`
unfoldable pub room_matches : Event → JoinRow → Bool
room_matches ev r = str_eq r.backend ev.backend && str_eq r.room_name ev.room_name && row_is_open r

unfoldable pub later : JoinRow → Option JoinRow → JoinRow
later r none = r
later r (some s) = if before r.started_at s.started_at then s else r

-- ORDER BY started_at DESC LIMIT 1; of several rows with one start the first is taken, a choice
-- that SQL leaves open
unfoldable pub latest : (JoinRow → Bool) → List JoinRow → Option JoinRow
unfolding later
latest p [] = none
latest p (r ∷ rs) = if p r then some (later r (latest p rs)) else latest p rs

-- WHERE join_id = …, where the subquery may give no row
unfoldable pub has_id_of : Option JoinRow → JoinRow → Bool
has_id_of none r = false
has_id_of (some l) r = str_eq r.join_id l.join_id

-- WHERE join_id = (SELECT join_id …)
unfoldable pub is_latest : Event → Database → JoinRow → Bool
unfolding has_id_of
is_latest ev db r = has_id_of (latest (identity_matches ev) db.joins) r

unfoldable pub close_by_sid : Time → Bytes → Event → Database → Reply ℕ
close_by_sid now reason ev db = close_where (sid_matches ev) now reason ev db

unfoldable pub close_by_identity : Time → Bytes → Event → Database → Reply ℕ
close_by_identity now reason ev db = close_where (is_latest ev db) now reason ev db

unfoldable pub close_room : Time → Bytes → Event → Database → Reply ℕ
close_room now reason ev db = close_where (room_matches ev) now reason ev db
