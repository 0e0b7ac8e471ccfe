-- ===== src/Webhook/Whole.antt =====
-- One delivery from the bytes that the backend sends to the row that is stored.
use session_analysis_platfor.Prelude.{
  ◌≡◌, ◌∙◌, ap, true, false, ◌≤◌, [], ◌∷◌, ◌++◌, none, some, any, length, is_empty, str_eq,
}
use session_analysis_platfor.Prelude.Int.{pos}
use session_analysis_platfor.Time.{Time}
use session_analysis_platfor.Session.{Event}
use session_analysis_platfor.Livekit.Json.{Json}
use session_analysis_platfor.Livekit.Payload.{Payload}
use session_analysis_platfor.Livekit.Payload.Written.{Written}
use session_analysis_platfor.Livekit.Translate.{rejected, classify}
use session_analysis_platfor.Livekit.Translate.Delivered.{
  delivered_event, translate-Written, in_scope-ne-reject,
}
use session_analysis_platfor.Livekit.Verify.{verify}
use session_analysis_platfor.Postgres.Tables.{Database}
use session_analysis_platfor.Postgres.Statements.{event_row, same_key}
use session_analysis_platfor.Postgres.Record.{World, writer}
use session_analysis_platfor.Postgres.Record.Progress.{
  IsCalm, IsRecordable, record_event_succeeds, record_event_adds_row,
}
use session_analysis_platfor.Webhook.{Exchange, Handler, Request, serve_http}
use session_analysis_platfor.Webhook.Answer.{serve_http-Answered}
use session_analysis_platfor.Webhook.Gate.{serve_http_records}
use session_analysis_platfor.Webhook.Retried.{over, recorded_is_ok}

-- A delivery that carries all of a payload with an id, whose event is named and in scope.
pub record Sent (h : Handler Database) (t : Time) (r : Request) (p : Payload) (v : Json)
    : Type 0 where
  pub fits : length r.body ≤ h.max_body_bytes
  pub whole : r.intact ≡ true
  pub signed : verify h.crypto t h.verifier r.authorization r.body ≡ none
  pub parsed : h.json.parse r.body ≡ some v
  pub is_written : Written p v
  pub has_id : is_empty p.id ≡ false
  pub named : is_empty p.event ≡ false
  pub in_scope : any (str_eq p.event) rejected ≡ false

-- A delivery is whole, within the limit and signed, a payload with an id is written in it, its event is
-- named and in scope, has no row yet and can be recorded, and nothing fails outside. Then it is
-- answered 200, and adds one row to `event_raw`: that of the event that the payload describes.
pub delivery_stored :
    (h : Handler Database) (w : World) (t : Time) (r : Request) (p : Payload) (v : Json)
    (x : Exchange Database)
    → Sent h t r p v
    → IsCalm w
    → IsRecordable w (delivered_event h.uuid p r.body) x.store
    → any (same_key (delivered_event h.uuid p r.body)) x.store.events ≡ false
    → ((serve_http (over h (w, t)) r x).statuses ≡ x.statuses ++ 200 ∷ [])
      × ((serve_http (over h (w, t)) r x).store.events
          ≡ x.store.events ++ event_row w.now (delivered_event h.uuid p r.body) ∷ [])
unfolding writer
delivery_stored h w t r p v x s calm can new =
    let ev : Event = delivered_event h.uuid p r.body in
    let translated =
      translate-Written h.json h.uuid p r.body (pos 0) s.has_id v s.parsed s.is_written s.named
        s.in_scope in
    let known = in_scope-ne-reject p.event s.in_scope in
    let ok = (record_event_succeeds w ev x.store calm can).0 in
    (
      (serve_http-Answered (over h (w, t)) r x).statuses
          ∙ ap (λ n. x.statuses ++ n ∷ [])
              (recorded_is_ok (over h (w, t)) x.store r ev (classify p.event) s.fits s.whole
                s.signed translated known ok),
      ap (λ d. d.events)
            (serve_http_records (over h (w, t)) r x ev (classify p.event) s.fits s.whole s.signed
              translated known)
          ∙ record_event_adds_row w ev x.store calm can new,
    )
