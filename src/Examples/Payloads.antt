-- ===== src/Examples/Payloads.antt =====
-- A delivery with a room and a participant, from its JSON to the row in `event_raw`.
use session_analysis_platfor.Prelude.{
  ◌-◌, ◌^◌, ◌&&◌, ltb, not, ◌≡◌, refl, [], ◌∷◌, none, some, codes, str_eq, arith, if◌then◌else◌,
}
use session_analysis_platfor.Prelude.Int.{pos}
use session_analysis_platfor.Time.{zero_time, before, unix}
use session_analysis_platfor.Livekit.Json.{Json, number, string, object, end, member, JsonPackage}
use session_analysis_platfor.Livekit.Payload.{Payload, unmarshal, is_field, fold_name}
use session_analysis_platfor.Livekit.Payload.Written.Reading.{unmarshal-Written}
use session_analysis_platfor.EventId.{itoa}
use session_analysis_platfor.Livekit.JsonNum.Forms.{in_quotes}
use session_analysis_platfor.Livekit.Payload.Written.{
  quoted, RoomFilled, ParticipantFilled, PayloadFilled, Written, written,
}
use session_analysis_platfor.Livekit.Translate.{occurred_at}
use session_analysis_platfor.Livekit.Translate.Instant.{unix_bound, occurred_at_order}
use session_analysis_platfor.Livekit.Translate.Delivered.{delivered_event}
use session_analysis_platfor.Postgres.Tables.{covered}
use session_analysis_platfor.Postgres.Statements.{event_row}
use session_analysis_platfor.Postgres.Record.Progress.{IsRecordable}
use session_analysis_platfor.Webhook.{serve_http, Handler}
use session_analysis_platfor.Postgres.Tables.{Database}
use session_analysis_platfor.Webhook.Retried.{over}
use session_analysis_platfor.Webhook.Whole.{Sent, delivery_stored}
use session_analysis_platfor.Examples.Data.{second, calm, no_rows}
use session_analysis_platfor.Examples.Receiver.{
  receiver, delivery, at_rest, plain_uuid, delivery_passes,
}
use session_analysis_platfor.Examples.Deliveries.{calm-IsCalm}

abbrev arrives : Payload
arrives = record {
  event = codes "participant_joined";
  id = codes "EV_1";
  created_at = pos 1707177700;
  room = some (record { sid = codes "RM_1"; name = codes "standup"; creation_time = pos 0 });
  participant =
      some (record { sid = codes "PA_1"; identity = codes "alice"; joined_at = pos 1707177690 });
  track = none;
}

-- The JSON of it: integers in quotes, a name with an escape, the id and the time behind the room, and
-- members that the program does not read.
abbrev room_json : Json
room_json = object (codes "{...}") (
    member (codes "sid") (string (codes "\"RM_1\"") (codes "RM_1")) (
      member (codes "name") (string (codes "\"st\\u0061ndup\"") (codes "standup"))
        (member (codes "emptyTimeout") (number (codes "300")) end)))

abbrev participant_json : Json
participant_json = object (codes "{...}") (
    member (codes "identity") (string (codes "\"alice\"") (codes "alice")) (
      member (codes "sid") (string (codes "\"PA_1\"") (codes "PA_1")) (
        member (codes "joinedAt")
          (string (in_quotes (itoa (pos 1707177690))) (itoa (pos 1707177690)))
          (member (codes "isPublisher") Json.null end))))

abbrev arrives_json : Json
arrives_json = object (codes "{...}") (
    member (codes "event") (string (codes "\"participant_joined\"") (codes "participant_joined")) (
      member (codes "room") room_json (
        member (codes "participant") participant_json (
          member (codes "id") (string (codes "\"EV_1\"") (codes "EV_1")) (
            member (codes "createdAt")
              (string (in_quotes (itoa (pos 1707177700))) (itoa (pos 1707177700)))
              (member (codes "numDropped") (number (codes "0")) end))))))

abbrev one_payload : JsonPackage
one_payload = record {
  parse = λ body. if str_eq body (codes "joined") then some arrives_json else none;
  float_int64 = λ text. none;
}

arrives-Written : Written arrives arrives_json
unfolding is_field fold_name str_eq
arrives-Written = written (
    PayloadFilled.event (
      PayloadFilled.room refl
        (RoomFilled.sid
          (RoomFilled.name (RoomFilled.other (refl, (refl, (refl, tt))) RoomFilled.done)))
        (PayloadFilled.participant refl
          (ParticipantFilled.identity (
            ParticipantFilled.sid (
              ParticipantFilled.joined_at (quoted (omega arith, λ e. cc e))
                (ParticipantFilled.other (refl, (refl, (refl, tt))) ParticipantFilled.done))))
          (PayloadFilled.id (
            PayloadFilled.created_at (quoted (omega arith, λ e. cc e)) (
              PayloadFilled.other (refl, (refl, (refl, (refl, (refl, (refl, tt))))))
                PayloadFilled.done))))))

arrives_parsed : one_payload.parse (codes "joined") ≡ some arrives_json
unfolding str_eq
arrives_parsed = refl

unmarshal-Written_example : unmarshal one_payload (codes "joined") ≡ some arrives
unmarshal-Written_example =
    unmarshal-Written one_payload arrives (codes "joined") arrives_json arrives_parsed
      arrives-Written

abbrev reader : Handler Database
reader = record receiver { json = one_payload }

arrives-Sent : Sent reader (second 500) delivery arrives arrives_json
unfolding str_eq
arrives-Sent = record {
  fits = omega arith;
  whole = refl;
  signed = delivery_passes;
  parsed = arrives_parsed;
  is_written = arrives-Written;
  has_id = refl;
  named = refl;
  in_scope = refl;
}

arrives-IsRecordable :
    IsRecordable calm (delivered_event plain_uuid arrives (codes "joined")) no_rows
unfolding covered before occurred_at unix
arrives-IsRecordable = record { has_partition = refl; in_order = refl; fresh = refl }

delivery_stored_example :
    ((serve_http (over reader (calm, second 500)) delivery at_rest).statuses ≡ 200 ∷ [])
    × ((serve_http (over reader (calm, second 500)) delivery at_rest).store.events
        ≡ event_row (second 500) (delivered_event plain_uuid arrives (codes "joined")) ∷ [])
delivery_stored_example =
    delivery_stored reader calm (second 500) delivery arrives arrives_json at_rest arrives-Sent
      calm-IsCalm arrives-IsRecordable refl

-- the same at the last second that an int64 counts
abbrev arrives_last : Payload
arrives_last = record arrives { created_at = pos (2 ^ 63 - 1) }

occurred_at_order_example :
    (before (occurred_at arrives) (occurred_at arrives_last)
      ≡ (ltb 1707177700 (2 ^ 63 - 1) && ltb (2 ^ 63 - 1) unix_bound))
    × (before (occurred_at arrives_last) zero_time ≡ not (ltb (2 ^ 63 - 1) unix_bound))
occurred_at_order_example =
    occurred_at_order arrives arrives_last 1707177700 (2 ^ 63 - 1) refl refl (omega arith)
      (omega arith) (omega arith) (omega arith)
