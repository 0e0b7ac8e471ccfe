-- ===== src/Livekit/Translate.antt =====
-- translate.go: from a verified delivery to a canonical event.
pub mod Delivered
pub mod Instant
pub mod Kinds
use session_analysis_platfor.Prelude.{
  List, [], ◌∷◌, Option, none, some, Bytes, codes, is_empty, if◌then◌else◌, str_eq, any,
}
use session_analysis_platfor.Prelude.Int.{ℤ, is_positive, pos_part}
use session_analysis_platfor.Time.{Time, zero_time, unix}
use session_analysis_platfor.Session.{
  Event, zero_event, EventType, Backend, backend_livekit, event_room_started, event_room_finished,
  event_participant_joined, event_participant_left, event_track_published, event_track_unpublished,
}
use session_analysis_platfor.EventId.{UuidPackage, Fields, from_backend_event_id, from_fields}
use session_analysis_platfor.Livekit.Json.{JsonPackage}
use session_analysis_platfor.Livekit.Payload.{Payload, Room, Participant, Track, unmarshal}

unfoldable pub backend : Backend
backend = backend_livekit

pub data Disposition : Type 0 where
  ingest reject store : Disposition

-- the map `canonical`
abbrev pub canonical : List (Bytes × EventType)
canonical =
    (codes "room_started", event_room_started)
    ∷ (codes "room_finished", event_room_finished)
    ∷ (codes "participant_joined", event_participant_joined)
    ∷ (codes "participant_left", event_participant_left)
    ∷ (codes "track_published", event_track_published)
    ∷ (codes "track_unpublished", event_track_unpublished)
    ∷ []

-- the map `rejected`
abbrev pub rejected : List Bytes
rejected =
    codes "egress_started"
    ∷ codes "egress_updated"
    ∷ codes "egress_ended"
    ∷ codes "ingress_started"
    ∷ codes "ingress_ended"
    ∷ []

unfoldable pub lookup : Bytes → List (Bytes × EventType) → Option EventType
lookup k [] = none
lookup k ((j, t) ∷ m) = if str_eq k j then some t else lookup k m

-- a map's value, "" where the key is missing
abbrev or_empty : Option EventType → EventType
or_empty none = []
or_empty (some t) = t

unfoldable pub classify : Bytes → Disposition
classify event_name = elim (lookup event_name canonical) [
  | some t ↦ ingest
  | none ↦ if any (str_eq event_name) rejected then reject else store
]

-- the time of one field, where it is positive
abbrev unix_of : ℤ → Time
unix_of n = unix (pos_part n)

room_created : Option Room → Time
room_created none = zero_time
room_created (some r) = if is_positive r.creation_time then unix_of r.creation_time else zero_time

participant_joined : Option Participant → Time → Time
participant_joined none rest = rest
participant_joined (some p) rest = if is_positive p.joined_at then unix_of p.joined_at else rest

unfoldable pub occurred_at : Payload → Time
unfolding room_created participant_joined
occurred_at p =
    if is_positive p.created_at
    then unix_of p.created_at
    else participant_joined p.participant (room_created p.room)

with_room : Option Room → Event → Event
with_room none ev = ev
with_room (some r) ev = record ev { room_sid = r.sid; room_name = r.name }

with_participant : Option Participant → Event → Event
with_participant none ev = ev
with_participant (some p) ev = record ev {
  participant_sid = p.sid;
  participant_identity = p.identity;
}

with_track : Option Track → Event → Event
with_track none ev = ev
with_track (some t) ev = record ev { track_sid = t.sid }

-- the event before its id is derived
unfoldable pub event_of : Payload → Disposition → Bytes → Event
unfolding with_room with_participant with_track
event_of p disp body =
    let ev : Event = record zero_event {
      backend = backend;
      backend_event_id = p.id;
      type = elim disp [ store ↦ p.event | _ ↦ or_empty (lookup p.event canonical) ];
      occurred_at = occurred_at p;
      payload = body;
    } in
    with_track p.track (with_participant p.participant (with_room p.room ev))

unfoldable pub fields_of : Event → ℤ → Fields
fields_of ev ordinal = record {
  backend = backend;
  event_type = ev.type;
  room = ev.room_name;
  participant_identity = ev.participant_identity;
  participant_sid = ev.participant_sid;
  track_sid = ev.track_sid;
  occurred_at = ev.occurred_at;
  delivery_ordinal = ordinal;
}

pub data TranslateError : Type 0 where
  decode_delivery no_event_type : TranslateError

module _ (json : JsonPackage) (uuid : UuidPackage) where
  -- `ev.ID`: from the backend's own event id where there is one
  unfoldable pub event_id : Payload → Event → ℤ → Bytes
  event_id p ev ordinal =
      if is_empty p.id
      then uuid.to_string (from_fields uuid (fields_of ev ordinal))
      else uuid.to_string (from_backend_event_id uuid backend p.id)

  identified : Payload → Disposition → Bytes → ℤ → Event
  unfolding event_id
  identified p disp body ordinal =
      let ev : Event = event_of p disp body in record ev { id = event_id p ev ordinal }

  translate_payload : Payload → Bytes → ℤ → Event × Disposition × Option TranslateError
  unfolding identified
  translate_payload p body ordinal =
      if is_empty p.event
      then (zero_event, store, some no_event_type)
      else elim (classify p.event) [
        | reject ↦ (record zero_event { backend = backend; type = p.event }, reject, none)
        | ingest ↦ (identified p ingest body ordinal, ingest, none)
        | store ↦ (identified p store body ordinal, store, none)
      ]

  -- behind `json.Unmarshal`
  after_decode : Option Payload → Bytes → ℤ → Event × Disposition × Option TranslateError
  unfolding translate_payload
  after_decode none body ordinal = (zero_event, store, some decode_delivery)
  after_decode (some p) body ordinal = translate_payload p body ordinal

  unfoldable pub translate : Bytes → ℤ → Event × Disposition × Option TranslateError
  unfolding after_decode
  translate body ordinal = after_decode (unmarshal json body) body ordinal
