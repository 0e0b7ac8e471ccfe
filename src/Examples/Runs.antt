-- ===== src/Examples/Runs.antt =====
-- Runs of deliveries: one that is sent once, and one that fails first and is sent again.
use session_analysis_platfor.Prelude.{
  ◌+◌, length, ◌≡◌, refl, ap, ◌∙◌, List, [], ◌∷◌, ◌++◌, some, true, ◌||◌, codes, arith,
}
use session_analysis_platfor.Prelude.Int.{pos}
use session_analysis_platfor.Session.{Event}
use session_analysis_platfor.Store.Contract.{same_event_refl}
use session_analysis_platfor.Livekit.Translate.{translate, ingest}
use session_analysis_platfor.Postgres.Tables.{Database}
use session_analysis_platfor.Postgres.Record.{writer, record_event}
use session_analysis_platfor.Postgres.Events.{in_event_raw, writer-EventSet}
use session_analysis_platfor.Metrics.{Instrument}
use session_analysis_platfor.Metrics.Totals.{total}
use session_analysis_platfor.Postgres.Invariant.{WellFormed}
use session_analysis_platfor.Postgres.Counts.{count_open}
use session_analysis_platfor.Webhook.Concurrent.Accounts.{settle_all, Reach_accounts_at_once}
use session_analysis_platfor.Examples.Tables.{no_rows-WellFormed}
use session_analysis_platfor.Webhook.{Handler, Request, Exchange, serve_http}
use session_analysis_platfor.Webhook.Gate.{serve_http_records}
use session_analysis_platfor.Webhook.Redelivery.{deliver_all}
use session_analysis_platfor.Webhook.Runs.{
  accepted, event_in, event_if_verified, event_if_recorded, recorded_in, is_among, deliver_all_adds,
  deliver_all_order,
}
use session_analysis_platfor.Store.{no_result, failure}
use session_analysis_platfor.Postgres.Record.Concurrent.{
  Call, finished, System, holding, answered, start_call, finish_call, idle, first, answers, inserts,
  finishes, Reach, here, next,
}
use session_analysis_platfor.Postgres.Record.Concurrent.Holding.{start_call-holding}
use session_analysis_platfor.Webhook.Concurrent.{
  Senders, serve_in_turn, statuses_of, Reach-serve_in_turn,
}
use session_analysis_platfor.Examples.Data.{calm, no_rows}
use session_analysis_platfor.Examples.Receiver.{
  receiver, delivery, at_rest, one_text, plain_uuid, delivery_passes, joined_is_ingested,
  not_rejected,
}
use session_analysis_platfor.Examples.Deliveries.{joined_is_stored, cut, delivered-IsRecordable}

abbrev event : Event
event = (translate one_text plain_uuid (codes "joined") (pos 0)).0

-- the same receiver while the server is away
abbrev cut_off : Handler Database
cut_off = record receiver { writer = writer cut }

abbrev once : List (Handler Database × Request)
once = (receiver, delivery) ∷ []

abbrev again : List (Handler Database × Request)
again = (cut_off, delivery) ∷ (receiver, delivery) ∷ []

accepted_once : accepted receiver delivery ≡ some event
accepted_once =
    ap (event_if_verified receiver delivery) delivery_passes ∙ ap event_in joined_is_ingested

accepted_cut_off : accepted cut_off delivery ≡ some event
accepted_cut_off = accepted_once

cut_off_leaves : (serve_http cut_off delivery at_rest).store ≡ no_rows
unfolding writer record_event
cut_off_leaves =
    serve_http_records cut_off delivery at_rest event ingest (omega arith) refl delivery_passes
      joined_is_ingested not_rejected

recorded_once : (x : Exchange Database) → x.store ≡ no_rows → recorded_in once x ≡ event ∷ []
unfolding recorded_in
recorded_once x h = rw (accepted_once, h, joined_is_stored) refl

recorded_again : recorded_in again at_rest ≡ event ∷ []
unfolding recorded_in writer record_event
recorded_again =
    ap (λ evs. evs ++ recorded_in once (serve_http cut_off delivery at_rest))
      (ap (λ o. event_if_recorded cut_off o no_rows) accepted_cut_off)
    ∙ recorded_once (serve_http cut_off delivery at_rest) cut_off_leaves

event_among : is_among (event ∷ []) event ≡ true
event_among = rw (same_event_refl event) refl

deliver_all_adds_example :
    in_event_raw (deliver_all again at_rest).store event
    ≡ (is_among (recorded_in again at_rest) event || in_event_raw no_rows event)
deliver_all_adds_example =
    deliver_all_adds in_event_raw again at_rest event
      (writer-EventSet cut tt, (writer-EventSet calm tt, tt))

deliver_all_order_example :
    in_event_raw (deliver_all once at_rest).store event
    ≡ in_event_raw (deliver_all again at_rest).store event
deliver_all_order_example =
    deliver_all_order in_event_raw in_event_raw once again at_rest at_rest
      (writer-EventSet calm tt, tt) (writer-EventSet cut tt, (writer-EventSet calm tt, tt))
      (rw (recorded_once at_rest refl, recorded_again) (event_among, tt))
      (rw (recorded_once at_rest refl, recorded_again) (event_among, tt)) (λ e. refl) event

-- the delivery is sent twice at once, and the server closes one of the two connections
abbrev by_receiver : Senders
by_receiver = λ c. (record receiver { writer = writer c.world }, delivery)

abbrev kept_call : Call
kept_call = record { world = calm; event = event }

abbrev cut_call : Call
cut_call = record { world = cut; event = event }

abbrev both_answered : System
both_answered = record {
  database = (finish_call kept_call no_rows).0;
  in_flight = [];
  log =
      finished kept_call (finish_call kept_call no_rows).1 (finish_call kept_call no_rows).2
      ∷ finished cut_call no_result (some (failure (codes "postgres: begin")))
      ∷ [];
}

kept_call_holds : start_call kept_call no_rows ≡ holding
kept_call_holds = start_call-holding kept_call no_rows (record {
  begin = refl;
  insert = refl;
  has_partition = delivered-IsRecordable.has_partition;
  fresh = refl;
})

cut_call_fails :
    start_call cut_call no_rows
    ≡ answered (no_rows, no_result, some (failure (codes "postgres: begin")))
unfolding start_call
cut_call_fails = refl

at_once : Reach (idle no_rows) both_answered
at_once =
    next
      (next (next here (inserts kept_call kept_call_holds refl))
        (answers cut_call no_rows no_result _ cut_call_fails))
      (finishes kept_call [] _ _ _ first refl)

Reach-serve_in_turn_example :
    ((serve_in_turn by_receiver both_answered.log at_rest).store ≡ both_answered.database)
    × ((serve_in_turn by_receiver both_answered.log at_rest).statuses
        ≡ statuses_of both_answered.log)
Reach-serve_in_turn_example =
    Reach-serve_in_turn by_receiver at_rest at_once
      ((refl, accepted_once), ((refl, accepted_once), tt))

Reach_accounts_at_once_example :
    WellFormed both_answered.database
    × (length both_answered.database.events
        ≡ total Instrument.stored (settle_all (λ c. receiver) both_answered.log at_rest).metrics)
    × (count_open both_answered.database
          + total Instrument.joins_closed
              (settle_all (λ c. receiver) both_answered.log at_rest).metrics
        ≡ total Instrument.joins_opened
            (settle_all (λ c. receiver) both_answered.log at_rest).metrics)
Reach_accounts_at_once_example =
    Reach_accounts_at_once (λ c. receiver) at_rest
      (record { no_events = refl; no_joins = refl; no_metrics = refl }) no_rows-WellFormed at_once
      (tt, (tt, tt))
