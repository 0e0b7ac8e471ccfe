-- ===== src/Examples/Deliveries.antt =====
-- Sequences of deliveries to the receiver over PostgreSQL, and the tries of one call.
use session_analysis_platfor.Prelude.{
  ◌≡◌, refl, ◌+◌, List, [], ◌∷◌, ◌++◌, none, some, codes, length, str_eq, arith,
}
use session_analysis_platfor.Prelude.Int.{pos}
use session_analysis_platfor.Time.{Time, before, unix}
use session_analysis_platfor.Session.{
  event_participant_joined, event_room_finished, event_room_started,
}
use session_analysis_platfor.Livekit.Translate.{
  ingest, translate, classify, lookup, event_of, occurred_at,
}
use session_analysis_platfor.Livekit.Json.{raw}
use session_analysis_platfor.Livekit.JsonNum.{unmarshal_int64, unquote, parse_number}
use session_analysis_platfor.Livekit.Payload.{unmarshal, is_field, fold_name}
use session_analysis_platfor.Strconv.{trim_space, parse_int, scan_uint}
use session_analysis_platfor.Metrics.{Instrument}
use session_analysis_platfor.Metrics.Totals.{total}
use session_analysis_platfor.Store.Contract.{EventSet, same_event_refl}
use session_analysis_platfor.Postgres.Tables.{covered, other}
use session_analysis_platfor.Postgres.Record.{World, Commit, writer}
use session_analysis_platfor.Postgres.Record.Progress.{IsCalm, IsRecordable, record_event_succeeds}
use session_analysis_platfor.Postgres.Atomic.{IsRecorded}
use session_analysis_platfor.Postgres.Counts.{count_open}
use session_analysis_platfor.Postgres.Events.{in_event_raw, writer-EventSet}
use session_analysis_platfor.Postgres.Invariant.{WellFormed}
use session_analysis_platfor.Programs.Routes.{Route, serve_route}
use session_analysis_platfor.Programs.Routes.Gate.{
  IsServed, route_status, Reaches, serve_route_gate,
}
use session_analysis_platfor.Webhook.{serve_http}
use session_analysis_platfor.Webhook.Redelivery.{deliver_all, redelivery_changes_nothing}
use session_analysis_platfor.Webhook.Retried.{over, retried, delivery_eventually_stored}
use session_analysis_platfor.Webhook.Reached.{Reach, delivery, here, next, IsFresh, Reach_accounts}
use session_analysis_platfor.Examples.Data.{second, calm, joined, no_rows}
use session_analysis_platfor.Examples.Tables.{no_rows-WellFormed}
use session_analysis_platfor.Examples.Receiver
use session_analysis_platfor.Examples.Receiver.{
  receiver, at_rest, one_text, plain_uuid, delivery_passes, joined_is_ingested, not_rejected,
}

writer-EventSet_example : EventSet in_event_raw (writer calm)
writer-EventSet_example = writer-EventSet calm tt

pub calm-IsCalm : IsCalm calm
calm-IsCalm = record { begin = refl; insert = refl; effect = refl; fallback = refl; commits = refl }

pub delivered-IsRecordable :
    IsRecordable calm (translate one_text plain_uuid (codes "joined") (pos 0)).0 no_rows
unfolding covered before translate unmarshal is_field fold_name classify lookup str_eq
    event_room_started event_room_finished event_participant_joined unmarshal_int64 trim_space raw
    unquote parse_number parse_int scan_uint event_of occurred_at unix
delivered-IsRecordable = record { has_partition = refl; in_order = refl; fresh = refl }

pub joined_is_stored :
    (receiver.writer.record_event
      (translate one_text plain_uuid (codes "joined") (pos 0)).0
      no_rows).2
    ≡ none
unfolding writer
joined_is_stored =
    (record_event_succeeds calm (translate one_text plain_uuid (codes "joined") (pos 0)).0 no_rows
      calm-IsCalm delivered-IsRecordable).0

redelivery_changes_nothing_example :
    (serve_http receiver Receiver.delivery (
      deliver_all
        ((receiver, Receiver.delivery) ∷ [])
        (serve_http receiver Receiver.delivery at_rest))).store
    ≡ (deliver_all
        ((receiver, Receiver.delivery) ∷ [])
        (serve_http receiver Receiver.delivery at_rest)).store
redelivery_changes_nothing_example =
    redelivery_changes_nothing in_event_raw receiver receiver Receiver.delivery Receiver.delivery
      ((receiver, Receiver.delivery) ∷ []) at_rest
      (translate one_text plain_uuid (codes "joined") (pos 0)).0
      (translate one_text plain_uuid (codes "joined") (pos 0)).0 ingest (writer-EventSet calm tt)
      (writer-EventSet calm tt) (writer-EventSet calm tt, tt) (omega arith) refl delivery_passes
      joined_is_ingested not_rejected joined_is_stored (same_event_refl _)
      (ingest, joined_is_ingested)

at_rest-IsFresh : IsFresh at_rest
at_rest-IsFresh = record { no_events = refl; no_joins = refl; no_metrics = refl }

abbrev delivered_twice :
    Reach at_rest
      (serve_http receiver Receiver.delivery (serve_http receiver Receiver.delivery at_rest))
delivered_twice =
    next (next here (delivery receiver calm Receiver.delivery refl tt))
      (delivery receiver calm Receiver.delivery refl tt)

Reach_accounts_example :
    WellFormed
      (serve_http receiver Receiver.delivery (serve_http receiver Receiver.delivery at_rest)).store
    × (length
          (serve_http receiver Receiver.delivery
            (serve_http receiver Receiver.delivery at_rest)).store.events
        ≡ total Instrument.stored
            (serve_http receiver Receiver.delivery
              (serve_http receiver Receiver.delivery at_rest)).metrics)
    × (count_open
            (serve_http receiver Receiver.delivery
              (serve_http receiver Receiver.delivery at_rest)).store
          + total Instrument.joins_closed
              (serve_http receiver Receiver.delivery
                (serve_http receiver Receiver.delivery at_rest)).metrics
        ≡ total Instrument.joins_opened
            (serve_http receiver Receiver.delivery
              (serve_http receiver Receiver.delivery at_rest)).metrics)
Reach_accounts_example = Reach_accounts at_rest-IsFresh no_rows-WellFormed delivered_twice

joined-IsRecordable : IsRecordable calm joined no_rows
unfolding covered before
joined-IsRecordable = record { has_partition = refl; in_order = refl; fresh = refl }

-- the server closes the connection at BEGIN, and then at COMMIT, behind its work
abbrev pub cut : World
cut = record calm { begin_fails = some (other (codes "closed")) }

abbrev unanswered : World
unanswered = record calm { commit = Commit.answer_lost (other (codes "closed")) }

serve_route_gate_example :
    (t : Route) × IsServed (codes "POST") (codes "/webhook/livekit") t
    × ((serve_route receiver
          (codes "POST")
          (codes "/webhook/livekit")
          none
          Receiver.delivery
          at_rest).statuses
        ≡ route_status receiver t none Receiver.delivery no_rows ∷ [])
    × Reaches receiver t Receiver.delivery no_rows
        (serve_route receiver
          (codes "POST")
          (codes "/webhook/livekit")
          none
          Receiver.delivery
          at_rest).store
serve_route_gate_example =
    serve_route_gate receiver (codes "POST") (codes "/webhook/livekit") none Receiver.delivery
      at_rest

-- the delivery is answered twice without success, and once more
abbrev failing : List (World × Time)
failing = (cut, second 510) ∷ (unanswered, second 520) ∷ []

delivery_eventually_stored_example :
    IsRecorded
      (translate one_text plain_uuid (codes "joined") (pos 0)).0
      (serve_http
        (over receiver (calm, second 500))
        Receiver.delivery
        (retried receiver failing Receiver.delivery at_rest)).store
    × ((serve_http
          (over receiver (calm, second 500))
          Receiver.delivery
          (retried receiver failing Receiver.delivery at_rest)).statuses
        ≡ (retried receiver failing Receiver.delivery at_rest).statuses ++ 200 ∷ [])
delivery_eventually_stored_example =
    delivery_eventually_stored receiver failing calm (second 500) Receiver.delivery at_rest
      (translate one_text plain_uuid (codes "joined") (pos 0)).0 ingest (omega arith) refl
      joined_is_ingested not_rejected delivery_passes calm-IsCalm delivered-IsRecordable
