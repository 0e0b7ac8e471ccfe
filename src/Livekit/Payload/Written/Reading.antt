-- ===== src/Livekit/Payload/Written/Reading.antt =====
-- What the decoder makes of a delivery in which a payload is written.
use session_analysis_platfor.Prelude.{◌≡◌, refl, some, Bytes, str_eq}
use session_analysis_platfor.Prelude.Int.{ℤ}
use session_analysis_platfor.Strconv.{trim_space}
use session_analysis_platfor.Livekit.Json.{Json, Members, raw, JsonPackage}
use session_analysis_platfor.Livekit.JsonNum.{unmarshal_int64}
use session_analysis_platfor.Livekit.JsonNum.Forms.{unmarshal_int64-itoa}
use session_analysis_platfor.Livekit.Payload.{
  Room, Participant, Track, Payload, zero_room, zero_participant, zero_track, zero_payload,
  fold_name, is_field, decode_string, decode_members, decode_pointer, track_field, room_field,
  participant_field, payload_field, decode_value, unmarshal,
}
use session_analysis_platfor.Livekit.Payload.Written.{
  IntWritten, bare, quoted, zero_as_null, RoomFilled, ParticipantFilled, TrackFilled, PayloadFilled,
  Written, written,
}

track_read :
    (k t : Track) (ms : Members) → TrackFilled k ms t → decode_members track_field ms k ≡ some t
unfolding decode_members track_field decode_string is_field fold_name str_eq
track_read k _ _ TrackFilled.done = refl
track_read k t _ (TrackFilled.sid h) = track_read _ t _ h
track_read k t _ (TrackFilled.other (a, _) h) = rw a (track_read k t _ h)

module _ (json : JsonPackage) where
  int_read : (n : ℤ) (v : Json) → IntWritten n v → unmarshal_int64 json (raw v) ≡ some n
  unfolding raw
  int_read n _ (bare (h, l)) = (unmarshal_int64-itoa json n h l).0
  int_read n _ (quoted (h, l)) = (unmarshal_int64-itoa json n h l).1
  int_read _ _ zero_as_null = unfold unmarshal_int64 trim_space str_eq in refl

  room_read :
      (r t : Room) (ms : Members)
      → RoomFilled r ms t
      → decode_members (room_field json) ms r ≡ some t
  unfolding decode_members room_field decode_string is_field fold_name str_eq
  room_read r _ _ RoomFilled.done = refl
  room_read r t _ (RoomFilled.sid h) = room_read _ t _ h
  room_read r t _ (RoomFilled.name h) = room_read _ t _ h
  room_read r t _ (RoomFilled.creation_time {n} {v} i h) = rw (int_read n v i) (room_read _ t _ h)
  room_read r t _ (RoomFilled.other (a, (b, (c, _))) h) = rw (a, b, c) (room_read r t _ h)

  participant_read :
      (p t : Participant) (ms : Members)
      → ParticipantFilled p ms t
      → decode_members (participant_field json) ms p ≡ some t
  unfolding decode_members participant_field decode_string is_field fold_name str_eq
  participant_read p _ _ ParticipantFilled.done = refl
  participant_read p t _ (ParticipantFilled.sid h) = participant_read _ t _ h
  participant_read p t _ (ParticipantFilled.identity h) = participant_read _ t _ h
  participant_read p t _ (ParticipantFilled.joined_at {n} {v} i h) =
      rw (int_read n v i) (participant_read _ t _ h)
  participant_read p t _ (ParticipantFilled.other (a, (b, (c, _))) h) =
      rw (a, b, c) (participant_read p t _ h)

  payload_read :
      (p t : Payload) (ms : Members)
      → PayloadFilled p ms t
      → decode_members (payload_field json) ms p ≡ some t
  unfolding decode_members payload_field decode_pointer decode_string is_field fold_name str_eq
  payload_read p _ _ PayloadFilled.done = refl
  payload_read p t _ (PayloadFilled.event h) = payload_read _ t _ h
  payload_read p t _ (PayloadFilled.id h) = payload_read _ t _ h
  payload_read p t _ (PayloadFilled.created_at {n} {v} i h) =
      rw (int_read n v i) (payload_read _ t _ h)
  payload_read p t _ (PayloadFilled.room {r} {rs} none_yet f h) =
      rw (none_yet, room_read zero_room r rs f) (payload_read _ t _ h)
  payload_read p t _ (PayloadFilled.participant {a} {as_} none_yet f h) =
      rw (none_yet, participant_read zero_participant a as_ f) (payload_read _ t _ h)
  payload_read p t _ (PayloadFilled.track {k} {ks} none_yet f h) =
      rw (none_yet, track_read zero_track k ks f) (payload_read _ t _ h)
  payload_read p t _ (PayloadFilled.other (a, (b, (c, (d, (e, (g, _)))))) h) =
      rw (a, b, c, d, e, g) (payload_read p t _ h)

  -- A delivery in which a payload is written, its fields in any order and each of its objects once at
  -- most, is decoded to that payload: every text, whatever escapes spell it in the delivery, and every
  -- integer but the least int64, bare or in quotes, or null for zero; fields that are left out are
  -- zero, and objects that are left out are absent; any other members, whose names are not the
  -- struct's whatever their case, may stand in between.
  pub unmarshal-Written :
      (p : Payload) (body : Bytes) (v : Json)
      → json.parse body ≡ some v
      → Written p v
      → unmarshal json body ≡ some p
  unfolding unmarshal decode_value
  unmarshal-Written p body _ parsed (written h) = rw parsed (payload_read zero_payload p _ h)
