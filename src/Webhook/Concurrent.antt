-- ===== src/Webhook/Concurrent.antt =====
-- Deliveries to receivers over one PostgreSQL store, whose calls of the store run at once.
pub mod Accounts
use session_analysis_platfor.Prelude.{
  ℕ, ltb, ◌≡◌, refl, sym, ap, ◌∙◌, Bool-cases, inl, inr, List, [], ◌∷◌, ◌++◌, append-nil,
  append_assoc, Option, none, some, All, length,
}
use session_analysis_platfor.Prelude.Int.{pos}
use session_analysis_platfor.Session.{Event}
use session_analysis_platfor.Livekit.Translate.{Disposition, TranslateError, translate}
use session_analysis_platfor.Livekit.Verify.{VerifyError}
use session_analysis_platfor.Postgres.Tables.{Database}
use session_analysis_platfor.Postgres.Record.{writer, record_event}
use session_analysis_platfor.Postgres.Record.Concurrent.{
  Call, Finished, finished, System, idle, Reach,
}
use session_analysis_platfor.Postgres.Record.Concurrent.Serial.{
  Serial, nothing, then_call, Reach-Serial,
}
use session_analysis_platfor.Webhook.{Exchange, Handler, Request, read_body, serve_http}
use session_analysis_platfor.Webhook.Answer.{
  answer_to, event_answer, translated_answer, verified_answer, status_of, store_answer,
  serve_http-Answered,
}
use session_analysis_platfor.Webhook.Runs.{
  accepted, event_in, event_if_verified, store_behind, serve_http_store,
}

module _ {S : Type 0} (h : Handler S) (s : S) (ev : Event) where
  answer_in :
      (t : Event × Disposition × Option TranslateError)
      → event_in t ≡ some ev
      → translated_answer h s t ≡ event_answer h s ev
  answer_in (e, d, some x) q = cc q
  answer_in (e, Disposition.reject, none) q = cc q
  answer_in (e, Disposition.store, none) q = let same : e ≡ ev = cc q in ap (event_answer h s) same
  answer_in (e, Disposition.ingest, none) q = let same : e ≡ ev = cc q in ap (event_answer h s) same

  answer_if_verified :
      (r : Request) (v : Option VerifyError)
      → event_if_verified h r v ≡ some ev
      → verified_answer h s r.body v ≡ event_answer h s ev
  answer_if_verified r (some x) q = cc q
  answer_if_verified r none q = answer_in (translate h.json h.uuid r.body (pos 0)) q

  -- a delivery that is accepted as an event is answered by what the store reports on it
  accepted_answer : (r : Request) → accepted h r ≡ some ev → answer_to h s r ≡ event_answer h s ev
  unfolding read_body
  accepted_answer r q = elim (Bool-cases (ltb h.max_body_bytes (length r.body))) [
    | inl big ↦ let n : accepted h r ≡ none = rw big refl in cc (n, q)
    | inr small ↦ elim (Bool-cases r.intact) [
      | inr cut ↦ let n : accepted h r ≡ none = rw (small, cut) refl in cc (n, q)
      | inl all ↦
          let v : accepted h r ≡ event_if_verified h r _ = rw (small, all) refl in
          rw (small, all) (answer_if_verified r _ (sym v ∙ q))
    ]
  ]

-- the deliveries that the calls are made for
abbrev pub Senders : Type 0
Senders = Call → Handler Database × Request

-- the call is the one that its delivery makes
abbrev pub IsMadeFor : Senders → Finished → Type 0
IsMadeFor of (finished c res err) =
    ((of c).0.writer ≡ writer c.world) × (accepted (of c).0 (of c).1 ≡ some c.event)

-- the deliveries one after another, in the order in which the calls returned
unfoldable pub serve_in_turn : Senders → List Finished → Exchange Database → Exchange Database
serve_in_turn of [] x = x
serve_in_turn of (finished c res err ∷ log) x =
    serve_http (of c).0 (of c).1 (serve_in_turn of log x)

-- the statuses that the results of the calls are answered by, in this order
abbrev pub statuses_of : List Finished → List ℕ
statuses_of [] = []
statuses_of (finished c res err ∷ log) = statuses_of log ++ status_of (store_answer res err) ∷ []

serve_in_turn_lem :
    (of : Senders) (x : Exchange Database) {log : List Finished} {db : Database}
    → Serial x.store log db
    → All (IsMadeFor of) log
    → ((serve_in_turn of log x).store ≡ db)
      × ((serve_in_turn of log x).statuses ≡ x.statuses ++ statuses_of log)
unfolding serve_in_turn writer
serve_in_turn_lem of x nothing as_ = (refl, sym (append-nil x.statuses))
serve_in_turn_lem of x (then_call {log} {db} {db'} c res err ser e) ((w, a), as_) =
    let (k, st) = serve_in_turn_lem of x ser as_ in
    let y : Exchange Database = serve_in_turn of log x in
    let h : Handler Database = (of c).0 in
    let recorded : h.writer.record_event c.event y.store ≡ (db', res, err) =
      ap (λ o. o.record_event c.event y.store) w ∙ ap (record_event c.world c.event) k ∙ e in
    (
      serve_http_store h (of c).1 y ∙ ap (λ o. store_behind h o y.store) a ∙ ap (λ o. o.0) recorded,
      (serve_http-Answered h (of c).1 y).statuses
          ∙ ap (λ n. y.statuses ++ status_of n ∷ [])
              (accepted_answer h y.store c.event (of c).1 a
                ∙ ap (λ o. store_answer o.1 o.2) recorded)
          ∙ ap (λ ss. ss ++ status_of (store_answer res err) ∷ []) st
          ∙ append_assoc x.statuses (statuses_of log) (status_of (store_answer res err) ∷ []),
    )

-- Deliveries to any receivers over one PostgreSQL store, whose calls of `record_event` interleave at
-- their inserts, what a call does behind its insert being one step: the database is the one that the
-- same deliveries leave one after another, in the order in which the calls returned, and the
-- statuses by which the results are answered are those that they are answered by in this order.
pub Reach-serve_in_turn :
    (of : Senders) (x : Exchange Database) {s : System}
    → Reach (idle x.store) s
    → All (IsMadeFor of) s.log
    → ((serve_in_turn of s.log x).store ≡ s.database)
      × ((serve_in_turn of s.log x).statuses ≡ x.statuses ++ statuses_of s.log)
Reach-serve_in_turn of x r a = serve_in_turn_lem of x (Reach-Serial r) a
