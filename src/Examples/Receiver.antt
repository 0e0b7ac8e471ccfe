-- ===== src/Examples/Receiver.antt =====
-- `ServeHTTP` over the PostgreSQL store, at a signed delivery of `participant_joined`. The packages
-- stand in: the scanner knows one text, and the token is the body's digest.
use session_analysis_platfor.Prelude.{
  ◌≡◌, ◌≢◌, refl, ◌↔◌, arith, All, codes, [], true, none, some, if◌then◌else◌, str_eq,
}
use session_analysis_platfor.EventId.{UuidPackage}
use session_analysis_platfor.Postgres.Tables.{Database}
use session_analysis_platfor.Postgres.Record.{writer}
use session_analysis_platfor.Livekit.Json.{JsonPackage, raw, string, object, member, end, number}
use session_analysis_platfor.Livekit.Base64.{encode, IsByte}
use session_analysis_platfor.Prelude.Int.{pos}
use session_analysis_platfor.Strconv.{trim_space, parse_int, scan_uint}
use session_analysis_platfor.Livekit.JsonNum.{unmarshal_int64, unquote, parse_number}
use session_analysis_platfor.Livekit.Verify.{CryptoPackage, verify, constant_time_compare}
use session_analysis_platfor.Livekit.Verify.Signed.{Signed, verify_iff, verify_no_replay}
use session_analysis_platfor.Livekit.Translate.{ingest, translate, Disposition, classify, lookup}
use session_analysis_platfor.Livekit.Translate.Kinds.{IsOfKind, translate-IsOfKind}
use session_analysis_platfor.Livekit.Payload.{unmarshal, is_field, fold_name}
use session_analysis_platfor.Session.{
  event_room_started, event_room_finished, event_participant_joined,
}
use session_analysis_platfor.Webhook.{Handler, Request, Exchange, serve_http}
use session_analysis_platfor.Webhook.Answer.{answer_to, Answered, serve_http-Answered}
use session_analysis_platfor.Webhook.Accounts.{Reconciled, serve_http-Reconciled}
use session_analysis_platfor.Examples.Data.{second, calm, no_rows}
use session_analysis_platfor.Examples.Tables.{no_rows-WellFormed}

abbrev pub one_text : JsonPackage
one_text = record {
  parse = λ body.
      if str_eq body (codes "joined")
      then some (
          object body (
            member (codes "event")
              (string (codes "\"participant_joined\"") (codes "participant_joined"))
              (member (codes "id") (string (codes "\"EV_1\"") (codes "EV_1"))
                (member (codes "createdAt") (number (codes "1707177700")) end))))
      else none;
  float_int64 = λ text. none;
}

abbrev digest_token : CryptoPackage
digest_token = record {
  parse = λ secret methods expires issuer now token. some (λ name. some token);
  sum256 = λ body. body;
}

abbrev pub plain_uuid : UuidPackage
plain_uuid = record { must_parse = λ s. s; new_sha1 = λ ns text. text; to_string = λ s. s }

abbrev pub receiver : Handler Database
receiver = record {
  verifier = record { api_key = codes "key"; api_secret = codes "secret" };
  writer = writer calm;
  max_body_bytes = 1024;
  json = one_text;
  uuid = plain_uuid;
  crypto = digest_token;
  now = second 500;
  elapsed = 3;
}

abbrev pub delivery : Request
delivery = record {
  authorization = codes "am9pbmVk";
  remote_addr = codes "10.0.0.1";
  body = codes "joined";
  intact = true;
}

abbrev pub at_rest : Exchange Database
at_rest = record {
  store = no_rows;
  metrics = record { measurements = [] };
  logs = [];
  span = [];
  statuses = [];
}

serve_http-Answered_example :
    Answered (answer_to receiver no_rows delivery) at_rest (serve_http receiver delivery at_rest)
serve_http-Answered_example = serve_http-Answered receiver delivery at_rest

serve_http-Reconciled_example : Reconciled at_rest (serve_http receiver delivery at_rest)
serve_http-Reconciled_example =
    serve_http-Reconciled receiver calm at_rest no_rows-WellFormed tt refl delivery

-- the token of the delivery is its body's digest
pub delivery_passes :
    verify digest_token (second 500) receiver.verifier (codes "am9pbmVk") (codes "joined") ≡ none
unfolding verify constant_time_compare encode
delivery_passes = refl

joined-IsByte : All IsByte (codes "joined")
joined-IsByte =
    (omega arith, (omega arith, (omega arith, (omega arith, (omega arith, (omega arith, tt))))))

verify_iff_example :
    (verify digest_token (second 500) receiver.verifier (codes "am9pbmVk") (codes "joined") ≡ none)
    ↔ Signed digest_token (second 500) receiver.verifier (codes "am9pbmVk") (codes "joined")
verify_iff_example =
    verify_iff digest_token (second 500) receiver.verifier (codes "am9pbmVk") (codes "joined")

-- the same token, ten seconds on
passes_later :
    verify digest_token (second 510) receiver.verifier (codes "am9pbmVk") (codes "joined") ≡ none
unfolding verify constant_time_compare encode
passes_later = refl

verify_no_replay_example : codes "joined" ≡ codes "joined"
verify_no_replay_example =
    verify_no_replay digest_token (second 500) (second 510) receiver.verifier (codes "am9pbmVk")
      (codes "joined") (codes "joined") (λ secret key methods now later token c d h k. cc (h, k))
      joined-IsByte joined-IsByte refl delivery_passes passes_later

pub joined_is_ingested :
    translate one_text plain_uuid (codes "joined") (pos 0)
    ≡ ((translate one_text plain_uuid (codes "joined") (pos 0)).0, ingest, none)
unfolding translate unmarshal is_field fold_name classify lookup str_eq event_room_started
    event_room_finished event_participant_joined unmarshal_int64 trim_space raw unquote parse_number
    parse_int scan_uint
joined_is_ingested = refl

translate-IsOfKind_example :
    IsOfKind ingest (translate one_text plain_uuid (codes "joined") (pos 0)).0 (codes "joined")
translate-IsOfKind_example =
    translate-IsOfKind one_text plain_uuid (codes "joined") (pos 0)
      (translate one_text plain_uuid (codes "joined") (pos 0)).0 ingest joined_is_ingested

pub not_rejected : ingest ≢ Disposition.reject
not_rejected e = cc e
