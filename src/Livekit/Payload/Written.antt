-- ===== src/Livekit/Payload/Written.antt =====
-- Deliveries in which a payload is written: the struct's fields under their names, in any order, among
-- members that the struct does not have, with integers bare or in quotes. What is left out is zero.
pub mod Reading
use session_analysis_platfor.Prelude.{
  ◌≡◌, ◌≢◌, ◌-◌, ◌^◌, false, List, [], ◌∷◌, Option, none, some, All, Bytes, codes,
}
use session_analysis_platfor.Prelude.Int.{ℤ, pos, negsuc, IsInt64}
use session_analysis_platfor.EventId.{itoa}
use session_analysis_platfor.Livekit.Json.{Json, null, number, string, object, Members, end, member}
use session_analysis_platfor.Livekit.JsonNum.Forms.{in_quotes}
use session_analysis_platfor.Livekit.Payload.{
  Room, Participant, Track, Payload, zero_room, zero_participant, zero_track, zero_payload,
  is_field,
}

-- a member that none of these names stands for
abbrev pub IsOther : List Bytes → Bytes → Type 0
IsOther names key = All (λ n. is_field key n ≡ false) names

-- every int64 but the least
abbrev IsWritable : ℤ → Type 0
IsWritable n = IsInt64 n × (n ≢ negsuc (2 ^ 63 - 1))

-- an integer as a number or in quotes, and zero as null
pub data IntWritten : ℤ → Json → Type 0 where
  bare : {n : ℤ} → IsWritable n → IntWritten n (number (itoa n))
  quoted : {n : ℤ} → IsWritable n → IntWritten n (string (in_quotes (itoa n)) (itoa n))
  zero_as_null : IntWritten (pos 0) null

abbrev room_names : List Bytes
room_names = codes "sid" ∷ codes "name" ∷ codes "creationTime" ∷ []

abbrev participant_names : List Bytes
participant_names = codes "sid" ∷ codes "identity" ∷ codes "joinedAt" ∷ []

abbrev track_names : List Bytes
track_names = codes "sid" ∷ []

abbrev payload_names : List Bytes
payload_names =
    codes "event"
    ∷ codes "id"
    ∷ codes "createdAt"
    ∷ codes "room"
    ∷ codes "participant"
    ∷ codes "track"
    ∷ []

-- The members fill a room in, whatever characters spell its texts in the delivery, from what it holds before them to what it holds behind them.
pub data RoomFilled : Room → Members → Room → Type 0 where
  done : {r : Room} → RoomFilled r end r
  sid :
      {s spelled : Bytes} {ms : Members} {r t : Room}
      → RoomFilled (record r { sid = s }) ms t
      → RoomFilled r (member (codes "sid") (string spelled s) ms) t
  name :
      {s spelled : Bytes} {ms : Members} {r t : Room}
      → RoomFilled (record r { name = s }) ms t
      → RoomFilled r (member (codes "name") (string spelled s) ms) t
  creation_time :
      {n : ℤ} {v : Json} {ms : Members} {r t : Room}
      → IntWritten n v
      → RoomFilled (record r { creation_time = n }) ms t
      → RoomFilled r (member (codes "creationTime") v ms) t
  other :
      {key : Bytes} {v : Json} {ms : Members} {r t : Room}
      → IsOther room_names key
      → RoomFilled r ms t
      → RoomFilled r (member key v ms) t

pub data ParticipantFilled : Participant → Members → Participant → Type 0 where
  done : {p : Participant} → ParticipantFilled p end p
  sid :
      {s spelled : Bytes} {ms : Members} {p t : Participant}
      → ParticipantFilled (record p { sid = s }) ms t
      → ParticipantFilled p (member (codes "sid") (string spelled s) ms) t
  identity :
      {s spelled : Bytes} {ms : Members} {p t : Participant}
      → ParticipantFilled (record p { identity = s }) ms t
      → ParticipantFilled p (member (codes "identity") (string spelled s) ms) t
  joined_at :
      {n : ℤ} {v : Json} {ms : Members} {p t : Participant}
      → IntWritten n v
      → ParticipantFilled (record p { joined_at = n }) ms t
      → ParticipantFilled p (member (codes "joinedAt") v ms) t
  other :
      {key : Bytes} {v : Json} {ms : Members} {p t : Participant}
      → IsOther participant_names key
      → ParticipantFilled p ms t
      → ParticipantFilled p (member key v ms) t

pub data TrackFilled : Track → Members → Track → Type 0 where
  done : {k : Track} → TrackFilled k end k
  sid :
      {s spelled : Bytes} {ms : Members} {k t : Track}
      → TrackFilled (record k { sid = s }) ms t
      → TrackFilled k (member (codes "sid") (string spelled s) ms) t
  other :
      {key : Bytes} {v : Json} {ms : Members} {k t : Track}
      → IsOther track_names key
      → TrackFilled k ms t
      → TrackFilled k (member key v ms) t

-- The same of the whole delivery, in which each of the three objects stands once at most.
pub data PayloadFilled : Payload → Members → Payload → Type 0 where
  done : {p : Payload} → PayloadFilled p end p
  event :
      {s spelled : Bytes} {ms : Members} {p t : Payload}
      → PayloadFilled (record p { event = s }) ms t
      → PayloadFilled p (member (codes "event") (string spelled s) ms) t
  id :
      {s spelled : Bytes} {ms : Members} {p t : Payload}
      → PayloadFilled (record p { id = s }) ms t
      → PayloadFilled p (member (codes "id") (string spelled s) ms) t
  created_at :
      {n : ℤ} {v : Json} {ms : Members} {p t : Payload}
      → IntWritten n v
      → PayloadFilled (record p { created_at = n }) ms t
      → PayloadFilled p (member (codes "createdAt") v ms) t
  room :
      {r : Room} {text : Bytes} {rs ms : Members} {p t : Payload}
      → p.room ≡ none
      → RoomFilled zero_room rs r
      → PayloadFilled (record p { room = some r }) ms t
      → PayloadFilled p (member (codes "room") (object text rs) ms) t
  participant :
      {a : Participant} {text : Bytes} {as_ ms : Members} {p t : Payload}
      → p.participant ≡ none
      → ParticipantFilled zero_participant as_ a
      → PayloadFilled (record p { participant = some a }) ms t
      → PayloadFilled p (member (codes "participant") (object text as_) ms) t
  track :
      {k : Track} {text : Bytes} {ks ms : Members} {p t : Payload}
      → p.track ≡ none
      → TrackFilled zero_track ks k
      → PayloadFilled (record p { track = some k }) ms t
      → PayloadFilled p (member (codes "track") (object text ks) ms) t
  other :
      {key : Bytes} {v : Json} {ms : Members} {p t : Payload}
      → IsOther payload_names key
      → PayloadFilled p ms t
      → PayloadFilled p (member key v ms) t

-- the delivery of a payload
pub data Written (p : Payload) : Json → Type 0 where
  written :
      {text : Bytes} {ms : Members} → PayloadFilled zero_payload ms p → Written p (object text ms)
