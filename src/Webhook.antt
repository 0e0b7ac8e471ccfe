-- ===== src/Webhook.antt =====
-- internal/ingest/webhook/handler.go: `ServeHTTP`. One call is a function from what it finds to
-- what it leaves: the store, the measurements, the log, the span and the response's status.
pub mod Steps
pub mod Answer
pub mod Gate
pub mod Retried
pub mod Whole
pub mod Runs
pub mod Concurrent
pub mod Redelivery
pub mod Reached
pub mod Tallies
pub mod Accounts
use session_analysis_platfor.Prelude.{
  ℕ, suc, ltb, Bool, true, false, List, [], ◌∷◌, ◌++◌, Option, none, some, Bytes, codes, length,
  if◌then◌else◌, str_eq,
}
use session_analysis_platfor.Prelude.Int.{pos}
use session_analysis_platfor.Time.{Time}
use session_analysis_platfor.Session.{
  Event, EventType, event_room_finished, end_room_finished, end_participant_left,
}
use session_analysis_platfor.EventId.{UuidPackage}
use session_analysis_platfor.Store.{
  Result, StoreError, partition_missing, close_out_of_order, failure, Writer,
}
use session_analysis_platfor.Livekit.Json.{JsonPackage}
use session_analysis_platfor.Livekit.Translate.{backend, Disposition, TranslateError, translate}
use session_analysis_platfor.Livekit.Verify.{CryptoPackage, Verifier, VerifyError, verify}
use session_analysis_platfor.Metrics
use session_analysis_platfor.Metrics.{Ingest}

unfoldable pub outcome_accepted : Bytes
outcome_accepted = codes "accepted"

unfoldable pub outcome_duplicate : Bytes
outcome_duplicate = codes "duplicate"

unfoldable pub outcome_ignored : Bytes
outcome_ignored = codes "ignored"

unfoldable pub outcome_unverified : Bytes
outcome_unverified = codes "unverified"

unfoldable pub outcome_malformed : Bytes
outcome_malformed = codes "malformed"

unfoldable pub outcome_too_large : Bytes
outcome_too_large = codes "too_large"

unfoldable pub outcome_data_loss : Bytes
outcome_data_loss = codes "partition_missing"

unfoldable pub outcome_store_failed : Bytes
outcome_store_failed = codes "store_failed"

-- The lines that the handler logs, with their values.
pub data LogLine : Type 0 where
  rejected_unverified : Bytes → Bytes → LogLine
  undecodable_body : Bytes → TranslateError → LogLine
  dropped_no_partition : EventType → Time → LogLine
  close_rejected : Bytes → Bytes → LogLine
  store_failed : Bytes → LogLine
  close_with_no_open_join : Bytes → Bytes → LogLine

pub data SpanNote : Type 0 where
  error_status : Bytes → SpanNote
  attribute : Bytes → Bytes → SpanNote
  answered : Bytes → Bool → ℕ → SpanNote
  duplicate : SpanNote

-- What the sender sends: bytes, and whether they arrive whole or the connection breaks behind them.
pub record Request : Type 0 where
  pub authorization : Bytes
  pub remote_addr : Bytes
  pub body : Bytes
  pub intact : Bool

pub record Exchange (S : Type 0) : Type 0 where
  pub store : S
  pub metrics : Ingest
  pub logs : List LogLine
  pub span : List SpanNote
  pub statuses : List ℕ

pub data ReadBody : Type 0 where
  too_large broken : ReadBody
  whole : Bytes → ReadBody

-- `io.ReadAll(http.MaxBytesReader(w, r.Body, h.maxBodyBytes))`
unfoldable pub read_body : ℕ → Request → ReadBody
read_body max r =
    if ltb max (length r.body) then too_large else if r.intact then whole r.body else broken

-- `endReason`
unfoldable pub end_reason : EventType → Bytes
end_reason t = if str_eq t event_room_finished then end_room_finished else end_participant_left

-- What the handler was built with, and the packages that it calls.
pub record Handler (S : Type 0) : Type 0 where
  pub verifier : Verifier
  pub writer : Writer S
  pub max_body_bytes : ℕ
  pub json : JsonPackage
  pub uuid : UuidPackage
  pub crypto : CryptoPackage
  pub now : Time
  pub elapsed : ℕ

module _ {S : Type 0} (h : Handler S) where
  unfoldable pub measure : (Ingest → Ingest) → Exchange S → Exchange S
  measure f x = record x { metrics = f x.metrics }

  unfoldable pub log : LogLine → Exchange S → Exchange S
  log l x = record x { logs = x.logs ++ l ∷ [] }

  unfoldable pub note : SpanNote → Exchange S → Exchange S
  note n x = record x { span = x.span ++ n ∷ [] }

  write_header : ℕ → Exchange S → Exchange S
  write_header status x = record x { statuses = x.statuses ++ status ∷ [] }

  -- the closure `finish`; `verified` is the captured variable's value
  unfoldable pub finish : Bool → ℕ → Bytes → Exchange S → Exchange S
  unfolding write_header measure note
  finish verified status outcome x = write_header status (
      measure (Metrics.request backend outcome verified h.elapsed)
        (note (answered outcome verified status) x))

  -- `if res.JoinOpened { … }`
  count_opened : Bool → Exchange S → Exchange S
  count_opened true x = measure (Metrics.count_join_opened backend) x
  count_opened false x = x

  -- `if res.JoinsClosed > 0 { … }`
  count_closed : EventType → ℕ → Exchange S → Exchange S
  count_closed t n x =
      if ltb 0 n then measure (Metrics.count_joins_closed backend (end_reason t) n) x else x

  -- `if res.CloseUnmatched { … }`
  count_unmatched : Event → Bool → Exchange S → Exchange S
  count_unmatched ev true x =
      log (close_with_no_open_join ev.room_name ev.participant_identity)
        (measure (Metrics.count_close_unmatched backend) x)
  count_unmatched ev false x = x

  -- the effects of a delivery that was stored
  unfoldable pub count_effects : Event → Result → Exchange S → Exchange S
  unfolding count_opened count_closed count_unmatched
  count_effects ev res x = count_unmatched ev res.close_unmatched (
      count_closed ev.type res.joins_closed
        (count_opened res.join_opened (measure (Metrics.count_stored backend ev.type) x)))

  -- `if !res.Stored { … }` and what follows it
  settle_success : Event → Result → Bool → Exchange S → Exchange S
  settle_success ev res false x =
      finish true 200 outcome_duplicate
        (note duplicate (measure (Metrics.count_duplicate backend ev.type) x))
  settle_success ev res true x = finish true 200 outcome_accepted (count_effects ev res x)

  -- behind `RecordEvent`: the switch on its error, and the rest of the handler
  unfoldable pub settle : Event → S × Result × Option StoreError → Exchange S → Exchange S
  unfolding settle_success
  settle ev (s, res, some partition_missing) x = finish true 200 outcome_data_loss (
      log (dropped_no_partition ev.type ev.occurred_at) (
        note (error_status (codes "no partition covers occurred_at"))
          (measure (Metrics.count_partition_missing backend) (record x { store = s }))))
  settle ev (s, res, some close_out_of_order) x = finish true 200 outcome_accepted (
      log (close_rejected ev.room_name ev.participant_identity)
        (measure (Metrics.count_close_out_of_order backend) (record x { store = s })))
  settle ev (s, res, some (failure e)) x =
      finish true 500 outcome_store_failed
        (log (store_failed e) (note (error_status e) (record x { store = s })))
  settle ev (s, res, none) x = settle_success ev res res.stored (record x { store = s })

  unfoldable pub record_delivery : Event → Exchange S → Exchange S
  record_delivery ev x = settle ev (h.writer.record_event ev x.store) (
      note (attribute (codes "sap.room") ev.room_name)
        (note (attribute (codes "sap.event_type") ev.type) x))

  -- behind `Translate`
  unfoldable pub dispatch : Event × Disposition × Option TranslateError → Exchange S → Exchange S
  dispatch (ev, d, some e) x =
      finish true 400 outcome_malformed (log (undecodable_body backend e) x)
  dispatch (ev, Disposition.reject, none) x = finish true 200 outcome_ignored (
      note (attribute (codes "sap.event_type") ev.type)
        (measure (Metrics.count_rejected backend ev.type) x))
  dispatch (ev, Disposition.store, none) x =
      record_delivery ev (measure (Metrics.count_unrecognised backend ev.type) x)
  dispatch (ev, Disposition.ingest, none) x = record_delivery ev x

  -- behind `Verify`
  authenticated : Request → Bytes → Option VerifyError → Exchange S → Exchange S
  authenticated r body (some e) x =
      finish false 401 outcome_unverified (
        log (rejected_unverified backend r.remote_addr)
          (note (error_status (codes "unverified")) x))
  authenticated r body none x = dispatch (translate h.json h.uuid body (pos 0)) x

  -- behind the read of the body: nothing is decoded before the signature has verified
  unfoldable pub receive : Request → ReadBody → Exchange S → Exchange S
  unfolding authenticated
  receive r too_large x = finish false 413 outcome_too_large x
  receive r broken x = finish false 400 outcome_malformed x
  receive r (whole body) x =
      authenticated r body (verify h.crypto h.now h.verifier r.authorization body) x

  unfoldable pub serve_http : Request → Exchange S → Exchange S
  serve_http r x = receive r (read_body h.max_body_bytes r) x
