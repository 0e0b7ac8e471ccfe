-- ===== src/Webhook/Retried.antt =====
-- One delivery sent again and again, each time to a receiver whose calls may fail in their own way.
use session_analysis_platfor.Prelude.{
  ◌≡◌, ◌≢◌, refl, ap, ◌∙◌, inl, inr, true, false, ◌≤◌, ◌++◌, List, [], ◌∷◌, Option, none, some,
  length, Bool,
}
use session_analysis_platfor.Prelude.Int.{pos}
use session_analysis_platfor.Time.{Time}
use session_analysis_platfor.Session.{Event}
use session_analysis_platfor.Store.{Result, StoreError}
use session_analysis_platfor.Livekit.Translate.{Disposition, translate}
use session_analysis_platfor.Livekit.Verify.{verify}
use session_analysis_platfor.Postgres.Tables.{Database}
use session_analysis_platfor.Postgres.Record.{World, writer}
use session_analysis_platfor.Postgres.Atomic.{IsRecorded}
use session_analysis_platfor.Postgres.Record.Progress.{IsCalm, IsRecordable}
use session_analysis_platfor.Postgres.Record.Tries.{
  IsPending, record_event-IsPending, calm_after_all,
}
use session_analysis_platfor.Webhook.{Exchange, Handler, Request, serve_http}
use session_analysis_platfor.Webhook.Answer.{
  answer_to, status_of, stored_answer, store_answer, serve_http-Answered,
}
use session_analysis_platfor.Webhook.Gate.{serve_http_gate, serve_http_records, read_body_whole}

-- a receiver at one time, over the PostgreSQL store in one world
abbrev pub over : Handler Database → World × Time → Handler Database
over h (w, t) = record h { writer = writer w; now = t }

-- the delivery sent once for each
unfoldable pub retried :
    Handler Database → List (World × Time) → Request → Exchange Database → Exchange Database
retried h [] r x = x
retried h (o ∷ os) r x = retried h os r (serve_http (over h o) r x)

stored_is_ok : (b : Bool) → status_of (stored_answer b) ≡ 200
stored_is_ok true = refl
stored_is_ok false = refl

success_is_ok :
    (res : Result) (e : Option StoreError) → e ≡ none → status_of (store_answer res e) ≡ 200
success_is_ok res none h = stored_is_ok res.stored
success_is_ok res (some e) h = cc h

-- a delivery that is recorded without error is answered 200
pub recorded_is_ok :
    {S : Type 0} (h : Handler S) (s : S) (r : Request) (ev : Event) (d : Disposition)
    → length r.body ≤ h.max_body_bytes
    → r.intact ≡ true
    → verify h.crypto h.now h.verifier r.authorization r.body ≡ none
    → translate h.json h.uuid r.body (pos 0) ≡ (ev, d, none)
    → d ≢ Disposition.reject
    → (h.writer.record_event ev s).2 ≡ none
    → status_of (answer_to h s r) ≡ 200
recorded_is_ok h s r ev Disposition.reject fits all signed translated n ok = absurd (n refl)
recorded_is_ok h s r ev Disposition.store fits all signed translated n ok =
    rw (read_body_whole h r fits all, signed, translated)
      (success_is_ok (h.writer.record_event ev s).1 (h.writer.record_event ev s).2 ok)
recorded_is_ok h s r ev Disposition.ingest fits all signed translated n ok =
    rw (read_body_whole h r fits all, signed, translated)
      (success_is_ok (h.writer.record_event ev s).1 (h.writer.record_event ev s).2 ok)

module _ (h : Handler Database) (r : Request) (ev : Event) (d : Disposition)
    (translated : translate h.json h.uuid r.body (pos 0) ≡ (ev, d, none)) where
  serve_http-IsPending :
      (o : World × Time) (start : Database) (x : Exchange Database)
      → IsPending ev start x.store
      → IsPending ev start (serve_http (over h o) r x).store
  unfolding writer
  serve_http-IsPending (w, t) start x p = elim (serve_http_gate (over h (w, t)) r x) [
    | inl same ↦ rw same p
    | inr k ↦
        let is_ev : k.event ≡ ev = cc (k.translated, translated) in
        rw (k.recorded, is_ev) (record_event-IsPending w ev start x.store p)
  ]

  retried-IsPending :
      (os : List (World × Time)) (start : Database) (x : Exchange Database)
      → IsPending ev start x.store
      → IsPending ev start (retried h os r x).store
  unfolding retried
  retried-IsPending [] start x p = p
  retried-IsPending (o ∷ os) start x p =
      retried-IsPending os start (serve_http (over h o) r x) (serve_http-IsPending o start x p)

-- A delivery that is whole, within the limit and in scope, and whose event can be recorded, has been
-- sent any number of times, at any times and with any failures. Sent once more, with its signature
-- valid and where nothing fails, it is answered 200, and its event is in `event_raw`.
pub delivery_eventually_stored :
    (h : Handler Database) (os : List (World × Time)) (w : World) (t : Time) (r : Request)
    (x : Exchange Database) (ev : Event) (d : Disposition)
    → length r.body ≤ h.max_body_bytes
    → r.intact ≡ true
    → translate h.json h.uuid r.body (pos 0) ≡ (ev, d, none)
    → d ≢ Disposition.reject
    → verify h.crypto t h.verifier r.authorization r.body ≡ none
    → IsCalm w
    → IsRecordable w ev x.store
    → IsRecorded ev (serve_http (over h (w, t)) r (retried h os r x)).store
      × ((serve_http (over h (w, t)) r (retried h os r x)).statuses
          ≡ (retried h os r x).statuses ++ 200 ∷ [])
unfolding writer
delivery_eventually_stored h os w t r x ev d fits all translated n signed calm can =
    let y : Exchange Database = retried h os r x in
    let p = retried-IsPending h r ev d translated os x.store x (inl refl) in
    let (ok, recorded) = calm_after_all w ev x.store y.store calm can p in
    (
      rw (serve_http_records (over h (w, t)) r y ev d fits all signed translated n) recorded,
      (serve_http-Answered (over h (w, t)) r y).statuses
          ∙ ap (λ s. y.statuses ++ s ∷ [])
              (recorded_is_ok (over h (w, t)) y.store r ev d fits all signed translated n ok),
    )
