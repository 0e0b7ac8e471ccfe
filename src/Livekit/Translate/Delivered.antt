-- ===== src/Livekit/Translate/Delivered.antt =====
-- `Translate` on a delivery in which a payload is written: every field of the event.
use session_analysis_platfor.Prelude.{
  ◌≡◌, ◌≢◌, refl, ap, ◌∙◌, false, Option-cases, inl, inr, [], Option, none, some, Bytes, codes,
  is_empty, str_eq, eq_of_str_eq, any, arith,
}
use session_analysis_platfor.Prelude.Int.{ℤ}
use session_analysis_platfor.Time.{zero_time}
use session_analysis_platfor.Session.{
  Event, EventType, backend_livekit, event_room_started, event_room_finished,
  event_participant_joined, event_participant_left, event_track_published, event_track_unpublished,
}
use session_analysis_platfor.EventId.{UuidPackage, from_backend_event_id}
use session_analysis_platfor.Livekit.Json.{Json, JsonPackage}
use session_analysis_platfor.Livekit.Payload.{Room, Participant, Track, Payload}
use session_analysis_platfor.Livekit.Payload.Written.Reading.{unmarshal-Written}
use session_analysis_platfor.Livekit.Payload.Written.{Written}
use session_analysis_platfor.Livekit.Translate.{
  Disposition, ingest, reject, store, canonical, rejected, lookup, classify, event_of, identified,
  event_id, occurred_at, with_room, with_participant, with_track, translate_payload, after_decode,
  translate, backend, or_empty,
}
use session_analysis_platfor.Livekit.Translate.Kinds.{event_of_type}

-- a field of an object, "" where there is no object
abbrev text_of : {A : Type 0} → (A → Bytes) → Option A → Bytes
text_of f none = []
text_of f (some a) = f a

-- The event of a payload that has an id: the names, SIDs and times stand where the payload has them.
abbrev pub delivered_event : UuidPackage → Payload → Bytes → Event
delivered_event uuid p body = record {
  id = uuid.to_string (from_backend_event_id uuid (codes "livekit") p.id);
  backend = codes "livekit";
  backend_event_id = p.id;
  type = p.event;
  occurred_at = occurred_at p;
  received_at = zero_time;
  room_name = text_of (λ r. r.name) p.room;
  room_sid = text_of (λ r. r.sid) p.room;
  participant_identity = text_of (λ a. a.identity) p.participant;
  participant_sid = text_of (λ a. a.sid) p.participant;
  track_sid = text_of (λ t. t.sid) p.track;
  payload = body;
}

-- a canonical name is the name of its type
canonical_type : (name : Bytes) (t : EventType) → lookup name canonical ≡ some t → t ≡ name
unfolding lookup event_room_started event_room_finished event_participant_joined
    event_participant_left event_track_published event_track_unpublished
canonical_type name t h = ground (
  arith,
  eq_of_str_eq name (codes "room_started"),
  eq_of_str_eq name (codes "room_finished"),
  eq_of_str_eq name (codes "participant_joined"),
  eq_of_str_eq name (codes "participant_left"),
  eq_of_str_eq name (codes "track_published"),
  eq_of_str_eq name (codes "track_unpublished"),
)

with_objects :
    (room : Option Room) (participant : Option Participant) (track : Option Track) (ev : Event)
    → with_track track (
        with_participant participant (
          with_room room (record ev {
            room_sid = [];
            room_name = [];
            participant_sid = [];
            participant_identity = [];
            track_sid = [];
          })))
      ≡ record ev {
        room_sid = text_of (λ x. x.sid) room;
        room_name = text_of (λ x. x.name) room;
        participant_sid = text_of (λ x. x.sid) participant;
        participant_identity = text_of (λ x. x.identity) participant;
        track_sid = text_of (λ x. x.sid) track;
      }
unfolding with_room with_participant with_track
with_objects room participant track ev = ground arith

classify_known :
    (name : Bytes) (t : EventType) → lookup name canonical ≡ some t → classify name ≡ ingest
unfolding classify
classify_known name t e = rw (classify, e) refl

classify_new :
    (name : Bytes)
    → lookup name canonical ≡ none
    → any (str_eq name) rejected ≡ false
    → classify name ≡ store
unfolding classify
classify_new name miss in_scope = rw (classify, miss, in_scope) refl

event_of_fields :
    (uuid : UuidPackage) (p : Payload) (d : Disposition) (body : Bytes)
    → (event_of p d body).type ≡ p.event
    → event_of p d body ≡ record (delivered_event uuid p body) { id = [] }
unfolding event_of with_room with_participant with_track backend backend_livekit
event_of_fields uuid p d body typed = ground (arith, typed)

module _ (json : JsonPackage) (uuid : UuidPackage) (p : Payload) (body : Bytes) (ordinal : ℤ)
    (has_id : is_empty p.id ≡ false) where
  identified_fields :
      (d : Disposition)
      → (event_of p d body).type ≡ p.event
      → identified json uuid p d body ordinal ≡ delivered_event uuid p body
  unfolding identified event_id backend backend_livekit
  identified_fields d typed = rw (event_of_fields uuid p d body typed, has_id) refl

  -- behind the decoder
  translate_payload_fields :
      is_empty p.event ≡ false
      → any (str_eq p.event) rejected ≡ false
      → translate_payload json uuid p body ordinal
        ≡ (delivered_event uuid p body, classify p.event, none)
  unfolding translate_payload
  translate_payload_fields named in_scope = elim (Option-cases (lookup p.event canonical)) [
    | inr (t, e) ↦
        rw
          (
            named,
            classify_known p.event t e,
            identified_fields ingest
                (event_of_type p ingest body ∙ ap or_empty e ∙ canonical_type p.event t e),
          )
          refl
    | inl miss ↦
        rw
          (
            named,
            classify_new p.event miss in_scope,
            identified_fields store (event_of_type p store body),
          )
          refl
  ]

  -- A delivery in which a payload with an id is written, and whose event is named and in scope, is
  -- translated without error, to the event that has the payload's texts in the fields of the same
  -- meaning, empty where the payload has no such object, and its own name as the type.
  pub translate-Written :
      (v : Json)
      → json.parse body ≡ some v
      → Written p v
      → is_empty p.event ≡ false
      → any (str_eq p.event) rejected ≡ false
      → translate json uuid body ordinal ≡ (delivered_event uuid p body, classify p.event, none)
  unfolding translate after_decode
  translate-Written v parsed w named in_scope =
      rw (unmarshal-Written json p body v parsed w) (translate_payload_fields named in_scope)

pub in_scope-ne-reject :
    (name : Bytes) → any (str_eq name) rejected ≡ false → classify name ≢ reject
in_scope-ne-reject name in_scope e = elim (Option-cases (lookup name canonical)) [
  | inr (t, known) ↦ let c = classify_known name t known in cc (c, e)
  | inl miss ↦ let c = classify_new name miss in_scope in cc (c, e)
]
