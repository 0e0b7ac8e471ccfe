-- ===== src/Session.antt =====
-- internal/session/session.go: the canonical vocabulary, events, joins and the derived session.
-- Go's named string types are byte strings; `EndedAt *time.Time` is an `Option`.
pub mod Rejoined
use session_analysis_platfor.Prelude.{
  Bool, true, false, List, [], ◌∷◌, Option, none, some, Bytes, codes, length,
}
use session_analysis_platfor.Prelude.Int.{ℤ}
use session_analysis_platfor.Time.{Time, zero_time}

abbrev pub Backend : Type 0
Backend = Bytes

unfoldable pub backend_livekit : Backend
backend_livekit = codes "livekit"

unfoldable pub backend_mediasoup : Backend
backend_mediasoup = codes "mediasoup"

abbrev pub EventType : Type 0
EventType = Bytes

unfoldable pub event_room_started : EventType
event_room_started = codes "room_started"

unfoldable pub event_room_finished : EventType
event_room_finished = codes "room_finished"

unfoldable pub event_participant_joined : EventType
event_participant_joined = codes "participant_joined"

unfoldable pub event_participant_left : EventType
event_participant_left = codes "participant_left"

unfoldable pub event_track_published : EventType
event_track_published = codes "track_published"

unfoldable pub event_track_unpublished : EventType
event_track_unpublished = codes "track_unpublished"

abbrev pub correlated_event_types : List EventType
correlated_event_types =
    event_room_started ∷ event_room_finished ∷ event_participant_joined ∷ event_participant_left
    ∷ event_track_published ∷ event_track_unpublished ∷ []

abbrev pub EndReason : Type 0
EndReason = Bytes

unfoldable pub end_participant_left : EndReason
end_participant_left = codes "participant_left"

unfoldable pub end_room_finished : EndReason
end_room_finished = codes "room_finished"

unfoldable pub end_inferred_timeout : EndReason
end_inferred_timeout = codes "inferred_timeout"

pub record Event : Type 0 where
  pub id : Bytes
  pub backend : Backend
  pub backend_event_id : Bytes
  pub type : EventType
  pub occurred_at : Time
  pub received_at : Time
  pub room_name : Bytes
  pub room_sid : Bytes
  pub participant_identity : Bytes
  pub participant_sid : Bytes
  pub track_sid : Bytes
  pub payload : Bytes

-- `session.Event{}`
abbrev pub zero_event : Event
zero_event = record {
  id = [];
  backend = [];
  backend_event_id = [];
  type = [];
  occurred_at = zero_time;
  received_at = zero_time;
  room_name = [];
  room_sid = [];
  participant_identity = [];
  participant_sid = [];
  track_sid = [];
  payload = [];
}

pub record Join : Type 0 where
  pub id : Bytes
  pub backend : Backend
  pub room_name : Bytes
  pub participant_identity : Bytes
  pub room_sid : Bytes
  pub participant_sid : Bytes
  pub started_at : Time
  pub ended_at : Option Time
  pub end_reason : EndReason
  pub started_event_id : Bytes
  pub ended_event_id : Bytes

unfoldable pub is_open : Join → Bool
is_open j = elim j.ended_at [ none ↦ true | some t ↦ false ]

pub record Session : Type 0 where
  pub backend : Backend
  pub room_name : Bytes
  pub participant_identity : Bytes
  -- nanoseconds
  pub gap : ℤ
  pub joins : List Join

first : List Join → Option Join
first [] = none
first (j ∷ js) = some j

last : List Join → Option Join
last [] = none
last (j ∷ []) = some j
last (j ∷ k ∷ js) = last (k ∷ js)

-- Indexing an empty list of joins panics: `none`.
unfoldable pub session_started_at : Session → Option Time
unfolding first
session_started_at s = elim (first s.joins) [ none ↦ none | some j ↦ some j.started_at ]

unfoldable pub session_is_open : Session → Option Bool
unfolding last is_open
session_is_open s = elim (last s.joins) [ none ↦ none | some j ↦ some (is_open j) ]

-- `len(s.Joins) - 1`, which is -1 on a session without joins
unfoldable pub reconnects : Session → ℤ
reconnects s = elim s.joins [ [] ↦ ℤ.negsuc 0 | j ∷ js ↦ ℤ.pos (length js) ]
