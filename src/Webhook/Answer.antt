-- ===== src/Webhook/Answer.antt =====
-- The response to a delivery, and the request that is counted for it.
use session_analysis_platfor.Prelude.{
  ℕ, ◌≡◌, refl, ap, ◌∙◌, Bool, true, false, [], ◌∷◌, ◌++◌, Option, none, some, Bytes,
}
use session_analysis_platfor.Prelude.Int.{pos}
use session_analysis_platfor.Session.{Event}
use session_analysis_platfor.Store.{
  Result, StoreError, partition_missing, close_out_of_order, failure,
}
use session_analysis_platfor.Livekit.Translate.{backend, Disposition, TranslateError, translate}
use session_analysis_platfor.Livekit.Verify.{VerifyError, verify}
use session_analysis_platfor.Metrics
use session_analysis_platfor.Metrics.{Ingest, Instrument, request_attrs}
use session_analysis_platfor.Metrics.Totals.{attributes_of, attributes_of-add}
use session_analysis_platfor.Webhook.{
  Exchange, Handler, Request, ReadBody, too_large, broken, whole, measure, log, note, finish,
  settle_success, settle, read_body, record_delivery, dispatch, authenticated, receive, serve_http,
  outcome_accepted, outcome_duplicate, outcome_ignored, outcome_unverified, outcome_malformed,
  outcome_too_large, outcome_data_loss, outcome_store_failed, write_header,
}
use session_analysis_platfor.Webhook.Steps.{Quiet, counted-Quiet, count_effects-Quiet}

-- The answers that the receiver gives: status, outcome, and whether the signature had verified.
pub data Answer : Type 0 where
  body_too_large body_unreadable unverified undecodable out_of_scope : Answer
  data_lost taken seen_before not_stored : Answer

abbrev pub status_of : Answer → ℕ
status_of body_too_large = 413
status_of body_unreadable = 400
status_of unverified = 401
status_of undecodable = 400
status_of not_stored = 500
status_of _ = 200

abbrev pub outcome_of : Answer → Bytes
outcome_of body_too_large = outcome_too_large
outcome_of body_unreadable = outcome_malformed
outcome_of unverified = outcome_unverified
outcome_of undecodable = outcome_malformed
outcome_of out_of_scope = outcome_ignored
outcome_of data_lost = outcome_data_loss
outcome_of taken = outcome_accepted
outcome_of seen_before = outcome_duplicate
outcome_of not_stored = outcome_store_failed

abbrev pub verified_of : Answer → Bool
verified_of body_too_large = false
verified_of body_unreadable = false
verified_of unverified = false
verified_of _ = true

-- The answer that a delivery is owed, by what the store reports, the translation and the checks.
abbrev pub stored_answer : Bool → Answer
stored_answer true = taken
stored_answer false = seen_before

abbrev pub store_answer : Result → Option StoreError → Answer
store_answer res (some partition_missing) = data_lost
store_answer res (some close_out_of_order) = taken
store_answer res (some (failure e)) = not_stored
store_answer res none = stored_answer res.stored

module _ {S : Type 0} (h : Handler S) (s : S) where
  abbrev pub event_answer : Event → Answer
  event_answer ev = store_answer (h.writer.record_event ev s).1 (h.writer.record_event ev s).2

  abbrev pub translated_answer : Event × Disposition × Option TranslateError → Answer
  translated_answer (ev, d, some e) = undecodable
  translated_answer (ev, Disposition.reject, none) = out_of_scope
  translated_answer (ev, Disposition.store, none) = event_answer ev
  translated_answer (ev, Disposition.ingest, none) = event_answer ev

  abbrev pub verified_answer : Bytes → Option VerifyError → Answer
  verified_answer body (some e) = unverified
  verified_answer body none = translated_answer (translate h.json h.uuid body (pos 0))

  abbrev body_answer : Request → ReadBody → Answer
  body_answer r too_large = body_too_large
  body_answer r broken = body_unreadable
  body_answer r (whole body) =
      verified_answer body (verify h.crypto h.now h.verifier r.authorization body)

  abbrev pub answer_to : Request → Answer
  answer_to r = body_answer r (read_body h.max_body_bytes r)

-- one status and one counted request more, those of the answer
pub record Answered {S : Type 0} (answer : Answer) (x y : Exchange S) : Type 0 where
  pub statuses : y.statuses ≡ x.statuses ++ status_of answer ∷ []
  pub requests :
      attributes_of Instrument.requests y.metrics
      ≡ attributes_of Instrument.requests x.metrics
        ++ request_attrs backend (outcome_of answer) (verified_of answer) ∷ []

module _ {S : Type 0} (h : Handler S) where
  finish-Answered :
      (a : Answer) (x y : Exchange S)
      → Quiet x y
      → Answered a x (finish h (verified_of a) (status_of a) (outcome_of a) y)
  unfolding finish write_header measure note Metrics.request Metrics.same_instrument
  finish-Answered a x y q = record {
    statuses = ap (λ s. s ++ status_of a ∷ []) q.statuses;
    requests =
        attributes_of-add Instrument.requests Instrument.duration h.elapsed _ _
        ∙ attributes_of-add Instrument.requests Instrument.requests 1 _ y.metrics
        ∙ ap (λ s. s ++ request_attrs backend (outcome_of a) (verified_of a) ∷ []) q.requests;
  }

  settle_success-Answered :
      (ev : Event) (res : Result) (b : Bool) (x y : Exchange S)
      → Quiet x y
      → Answered (stored_answer b) x (settle_success h ev res b y)
  unfolding settle_success note Metrics.count_duplicate Metrics.same_instrument
  settle_success-Answered ev res true x y q =
      finish-Answered taken x _ (count_effects-Quiet h ev res x y q)
  settle_success-Answered ev res false x y q =
      let q' =
        counted-Quiet h x y Instrument.duplicates 1 (Metrics.event_attrs backend ev.type) refl q in
      finish-Answered seen_before x _ (record { statuses = q'.statuses; requests = q'.requests })

  settle-Answered :
      (ev : Event) (o : S × Result × Option StoreError) (x y : Exchange S)
      → Quiet x y
      → Answered (store_answer o.1 o.2) x (settle h ev o y)
  unfolding settle note log Metrics.count_partition_missing Metrics.count_close_out_of_order
      Metrics.same_instrument finish
  settle-Answered ev (s, res, some partition_missing) x y q =
      let q' =
        counted-Quiet h x y Instrument.partition_missed 1 (Metrics.backend_attr backend) refl q in
      finish-Answered data_lost x _ (record { statuses = q'.statuses; requests = q'.requests })
  settle-Answered ev (s, res, some close_out_of_order) x y q =
      let q' =
        counted-Quiet h x y Instrument.close_out_of_order 1 (Metrics.backend_attr backend) refl q in
      finish-Answered taken x _ (record { statuses = q'.statuses; requests = q'.requests })
  settle-Answered ev (s, res, some (failure e)) x y q =
      finish-Answered not_stored x _ (record { statuses = q.statuses; requests = q.requests })
  settle-Answered ev (s, res, none) x y q =
      settle_success-Answered ev res res.stored x _
        (record { statuses = q.statuses; requests = q.requests })

  record_delivery-Answered :
      (ev : Event) (x y : Exchange S)
      → Quiet x y
      → Answered (event_answer h y.store ev) x (record_delivery h ev y)
  unfolding record_delivery note
  record_delivery-Answered ev x y q =
      settle-Answered ev _ x _ (record { statuses = q.statuses; requests = q.requests })

  dispatch-Answered :
      (t : Event × Disposition × Option TranslateError) (x y : Exchange S)
      → Quiet x y
      → Answered (translated_answer h y.store t) x (dispatch h t y)
  unfolding dispatch log note measure record_delivery Metrics.count_rejected
      Metrics.count_unrecognised Metrics.same_instrument
  dispatch-Answered (ev, d, some e) x y q =
      finish-Answered undecodable x _ (record { statuses = q.statuses; requests = q.requests })
  dispatch-Answered (ev, Disposition.reject, none) x y q =
      let q' =
        counted-Quiet h x y Instrument.rejected 1 (Metrics.event_attrs backend ev.type) refl q in
      finish-Answered out_of_scope x _ (record { statuses = q'.statuses; requests = q'.requests })
  dispatch-Answered (ev, Disposition.store, none) x y q =
      record_delivery-Answered ev x _ (counted-Quiet h x y Instrument.unrecognised 1 _ refl q)
  dispatch-Answered (ev, Disposition.ingest, none) x y q = record_delivery-Answered ev x y q

  authenticated-Answered :
      (r : Request) (body : Bytes) (v : Option VerifyError) (x : Exchange S)
      → Answered (verified_answer h x.store body v) x (authenticated h r body v x)
  unfolding authenticated log note
  authenticated-Answered r body (some e) x =
      finish-Answered unverified x _ (record { statuses = refl; requests = refl })
  authenticated-Answered r body none x =
      dispatch-Answered _ x x (record { statuses = refl; requests = refl })

  receive-Answered :
      (r : Request) (b : ReadBody) (x : Exchange S)
      → Answered (body_answer h x.store r b) x (receive h r b x)
  unfolding receive
  receive-Answered r too_large x =
      finish-Answered body_too_large x x (record { statuses = refl; requests = refl })
  receive-Answered r broken x =
      finish-Answered body_unreadable x x (record { statuses = refl; requests = refl })
  receive-Answered r (whole body) x = authenticated-Answered r body _ x

  -- Whatever is sent and whatever the store does, `serve_http` writes exactly one status and counts
  -- exactly one request: the status, the outcome and the `verified` label of the answer that the
  -- delivery is owed, by its size, its signature, its translation and what the store reports.
  pub serve_http-Answered :
      (r : Request) (x : Exchange S) → Answered (answer_to h x.store r) x (serve_http h r x)
  unfolding serve_http
  serve_http-Answered r x = receive-Answered r _ x
