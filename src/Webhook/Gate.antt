-- ===== src/Webhook/Gate.antt =====
-- What reaches the store, and how.
use session_analysis_platfor.Prelude.{
  ℕ, ltb, ◌≤◌, ◌≡◌, ◌≢◌, refl, ◌⊎◌, inl, inr, ◌∙◌, Bool-cases, Bool, true, false, Option, none,
  some, Bytes, arith, length,
}
use session_analysis_platfor.Prelude.Int.{pos}
use session_analysis_platfor.Session.{Event}
use session_analysis_platfor.Store.{
  Result, StoreError, partition_missing, close_out_of_order, failure,
}
use session_analysis_platfor.Livekit.Translate.{Disposition, TranslateError, translate}
use session_analysis_platfor.Livekit.Verify.{VerifyError, verify}
use session_analysis_platfor.Webhook.{
  whole, Exchange, Handler, Request, read_body, measure, log, note, finish, write_header,
  count_opened, count_closed, count_unmatched, count_effects, settle_success, settle,
  record_delivery, dispatch, authenticated, receive, serve_http,
}

-- the delivery that was recorded: whole, signed, decodable, and in scope
pub record Recorded {S : Type 0} (h : Handler S) (r : Request) (s s' : S) : Type 0 where
  pub event : Event
  pub disposition : Disposition
  pub fits : length r.body ≤ h.max_body_bytes
  pub whole_body : r.intact ≡ true
  pub signed : verify h.crypto h.now h.verifier r.authorization r.body ≡ none
  pub translated : translate h.json h.uuid r.body (pos 0) ≡ (event, disposition, none)
  pub in_scope : disposition ≢ Disposition.reject
  pub recorded : s' ≡ (h.writer.record_event event s).0

module _ {S : Type 0} (h : Handler S) where
  store-count_opened : (b : Bool) (x : Exchange S) → (count_opened h b x).store ≡ x.store
  unfolding count_opened measure
  store-count_opened true x = refl
  store-count_opened false x = refl

  store-count_closed : (t : Bytes) (n : ℕ) (x : Exchange S) → (count_closed h t n x).store ≡ x.store
  unfolding count_closed measure
  store-count_closed t n x = ground arith

  store-count_unmatched :
      (ev : Event) (b : Bool) (x : Exchange S) → (count_unmatched h ev b x).store ≡ x.store
  unfolding count_unmatched log measure
  store-count_unmatched ev true x = refl
  store-count_unmatched ev false x = refl

  pub store-count_effects :
      (ev : Event) (res : Result) (x : Exchange S) → (count_effects h ev res x).store ≡ x.store
  unfolding count_effects measure
  store-count_effects ev res x =
      store-count_unmatched ev res.close_unmatched _
      ∙ store-count_closed ev.type res.joins_closed _
      ∙ store-count_opened res.join_opened _

  store-settle_success :
      (ev : Event) (res : Result) (b : Bool) (x : Exchange S)
      → (settle_success h ev res b x).store ≡ x.store
  unfolding settle_success finish write_header measure note
  store-settle_success ev res true x = store-count_effects ev res x
  store-settle_success ev res false x = refl

  pub store-settle :
      (ev : Event) (o : S × Result × Option StoreError) (x : Exchange S)
      → (settle h ev o x).store ≡ o.0
  unfolding settle finish write_header measure note log
  store-settle ev (s, res, some partition_missing) x = refl
  store-settle ev (s, res, some close_out_of_order) x = refl
  store-settle ev (s, res, some (failure e)) x = refl
  store-settle ev (s, res, none) x = store-settle_success ev res res.stored _

  -- Recorded, without the conditions on the body and its signature
  Passed : Request → Event × Disposition × Option TranslateError → S → S → Type 0
  Passed r t s s' =
      (ev : Event) × (d : Disposition) × (t ≡ (ev, d, none))
      × (d ≢ Disposition.reject)
      × (s' ≡ (h.writer.record_event ev s).0)

  dispatch_gate :
      (r : Request) (t : Event × Disposition × Option TranslateError) (x : Exchange S)
      → ((dispatch h t x).store ≡ x.store) ⊎ Passed r t x.store (dispatch h t x).store
  unfolding Passed dispatch record_delivery finish write_header measure note log
  dispatch_gate r (ev, d, some e) x = inl refl
  dispatch_gate r (ev, Disposition.reject, none) x = inl refl
  dispatch_gate r (ev, Disposition.store, none) x =
      inr (ev, Disposition.store, refl, (λ e. cc e), store-settle ev _ _)
  dispatch_gate r (ev, Disposition.ingest, none) x =
      inr (ev, Disposition.ingest, refl, (λ e. cc e), store-settle ev _ _)

  authenticated_gate :
      (r : Request) (v : Option VerifyError) (x : Exchange S)
      → length r.body ≤ h.max_body_bytes
      → r.intact ≡ true
      → verify h.crypto h.now h.verifier r.authorization r.body ≡ v
      → ((authenticated h r r.body v x).store ≡ x.store)
        ⊎ Recorded h r x.store (authenticated h r r.body v x).store
  unfolding Passed authenticated finish write_header measure note log
  authenticated_gate r (some e) x fits w v = inl refl
  authenticated_gate r none x fits w v =
      elim (dispatch_gate r (translate h.json h.uuid r.body (pos 0)) x) [
        | inl e ↦ inl e
        | inr (ev, d, t, n, s) ↦ inr (record {
          event = ev;
          disposition = d;
          fits = fits;
          whole_body = w;
          signed = v;
          translated = t;
          in_scope = n;
          recorded = s;
        })
      ]

  -- The store is left alone, or it is what recording one event makes of it: the event that a whole,
  -- signed, decodable delivery in scope translates to.
  pub serve_http_gate :
      (r : Request) (x : Exchange S)
      → ((serve_http h r x).store ≡ x.store) ⊎ Recorded h r x.store (serve_http h r x).store
  unfolding serve_http receive read_body finish write_header measure note
  serve_http_gate r x = elim (Bool-cases (ltb h.max_body_bytes (length r.body))) [
    | inl big ↦ rw big (inl refl)
    | inr small ↦ elim (Bool-cases r.intact) [
      | inr cut ↦ rw (small, cut) (inl refl)
      | inl all ↦ simp (small, all) (authenticated_gate r _ x (ground arith) all refl)
    ]
  ]

  dispatch_records :
      (ev : Event) (d : Disposition) (x : Exchange S)
      → d ≢ Disposition.reject
      → (dispatch h (ev, d, none) x).store ≡ (h.writer.record_event ev x.store).0
  unfolding dispatch record_delivery measure note
  dispatch_records ev Disposition.reject x n = absurd (n refl)
  dispatch_records ev Disposition.store x n = store-settle ev _ _
  dispatch_records ev Disposition.ingest x n = store-settle ev _ _

  pub read_body_whole :
      (r : Request)
      → length r.body ≤ h.max_body_bytes
      → r.intact ≡ true
      → read_body h.max_body_bytes r ≡ whole r.body
  unfolding read_body
  read_body_whole r fits all = ground arith

  -- A delivery that is whole, signed, decodable and in scope is recorded: the store becomes what
  -- recording the event that it translates to makes of it.
  pub serve_http_records :
      (r : Request) (x : Exchange S) (ev : Event) (d : Disposition)
      → length r.body ≤ h.max_body_bytes
      → r.intact ≡ true
      → verify h.crypto h.now h.verifier r.authorization r.body ≡ none
      → translate h.json h.uuid r.body (pos 0) ≡ (ev, d, none)
      → d ≢ Disposition.reject
      → (serve_http h r x).store ≡ (h.writer.record_event ev x.store).0
  unfolding serve_http receive authenticated
  serve_http_records r x ev d fits all signed translated n =
      rw (read_body_whole r fits all, signed, translated) (dispatch_records ev d x n)
