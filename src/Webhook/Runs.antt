-- ===== src/Webhook/Runs.antt =====
-- What runs of deliveries make of the store's set of events.
use session_analysis_platfor.Prelude.{
  ◌≡◌, refl, ap, inl, inr, Bool, true, ◌||◌, Bool-cases, ltb, List, [], ◌∷◌, ◌++◌, Option, none,
  some, All, any, arith, length, if◌then◌else◌,
}
use session_analysis_platfor.Prelude.Int.{pos}
use session_analysis_platfor.Session.{Event}
use session_analysis_platfor.Store.Contract.{same_event, same_event_trans, succeeded, EventSet}
use session_analysis_platfor.Livekit.Translate.{Disposition, TranslateError, translate}
use session_analysis_platfor.Livekit.Verify.{VerifyError, verify}
use session_analysis_platfor.Webhook.{
  Exchange, Handler, Request, read_body, measure, log, note, finish, write_header, record_delivery,
  dispatch, authenticated, receive, serve_http,
}
use session_analysis_platfor.Webhook.Gate.{store-settle}
use session_analysis_platfor.Webhook.Redelivery.{deliver_all}

-- the event that is to be recorded of a translation
abbrev pub event_in : Event × Disposition × Option TranslateError → Option Event
event_in (ev, d, some e) = none
event_in (ev, Disposition.reject, none) = none
event_in (ev, Disposition.store, none) = some ev
event_in (ev, Disposition.ingest, none) = some ev

module _ {S : Type 0} where
  abbrev pub event_if_verified : Handler S → Request → Option VerifyError → Option Event
  event_if_verified h r (some e) = none
  event_if_verified h r none = event_in (translate h.json h.uuid r.body (pos 0))

  -- The event that a delivery is recorded as, if it is: by its length, whether it is whole, its
  -- signature, and what it translates to.
  abbrev pub accepted : Handler S → Request → Option Event
  accepted h r =
      if ltb h.max_body_bytes (length r.body)
      then none
      else if r.intact
      then event_if_verified h r (verify h.crypto h.now h.verifier r.authorization r.body)
      else none

  -- a store behind a call for this event, if there is one
  abbrev pub store_behind : Handler S → Option Event → S → S
  store_behind h none s = s
  store_behind h (some ev) s = (h.writer.record_event ev s).0

  -- the event of a call that succeeds
  abbrev pub event_if_recorded : Handler S → Option Event → S → List Event
  event_if_recorded h none s = []
  event_if_recorded h (some ev) s = if succeeded (h.writer.record_event ev s).2 then ev ∷ [] else []

  -- the events that a run of deliveries records without error, in their order
  unfoldable pub recorded_in : List (Handler S × Request) → Exchange S → List Event
  recorded_in [] x = []
  recorded_in ((h, r) ∷ ds) x =
      event_if_recorded h (accepted h r) x.store ++ recorded_in ds (serve_http h r x)

  module _ (h : Handler S) where
    dispatch_store :
        (t : Event × Disposition × Option TranslateError) (x : Exchange S)
        → (dispatch h t x).store ≡ store_behind h (event_in t) x.store
    unfolding dispatch record_delivery finish write_header measure note log
    dispatch_store (ev, d, some e) x = refl
    dispatch_store (ev, Disposition.reject, none) x = refl
    dispatch_store (ev, Disposition.store, none) x = store-settle h ev _ _
    dispatch_store (ev, Disposition.ingest, none) x = store-settle h ev _ _

    authenticated_store :
        (r : Request) (v : Option VerifyError) (x : Exchange S)
        → (authenticated h r r.body v x).store ≡ store_behind h (event_if_verified h r v) x.store
    unfolding authenticated finish write_header measure note log
    authenticated_store r (some e) x = refl
    authenticated_store r none x = dispatch_store (translate h.json h.uuid r.body (pos 0)) x

    -- the store is left alone, or records the event that the delivery is accepted as
    pub serve_http_store :
        (r : Request) (x : Exchange S)
        → (serve_http h r x).store ≡ store_behind h (accepted h r) x.store
    unfolding serve_http receive read_body finish write_header measure note
    serve_http_store r x = elim (Bool-cases (ltb h.max_body_bytes (length r.body))) [
      | inl big ↦ rw big refl
      | inr small ↦ elim (Bool-cases r.intact) [
        | inr cut ↦ rw (small, cut) refl
        | inl all ↦ simp (small, all) (authenticated_store r _ x)
      ]
    ]

-- one of the events is the same as this one
abbrev pub is_among : List Event → Event → Bool
is_among evs e = any (λ ev. same_event ev e) evs

any-append_or : (p : Event → Bool) (xs ys : List Event) → any p (xs ++ ys) ≡ (any p ys || any p xs)
any-append_or p [] ys = ground arith
any-append_or p (x ∷ xs) ys = ground (arith, any-append_or p xs ys)

module _ {S : Type 0} (seen : S → Event → Bool) where
  one_delivery :
      (h : Handler S) (o : Option Event) (s : S) (e : Event)
      → EventSet seen h.writer
      → seen (store_behind h o s) e ≡ (is_among (event_if_recorded h o s) e || seen s e)
  one_delivery h none s e c = refl
  one_delivery h (some ev) s e c = ground (arith, c.grows ev e s)

  -- Over stores that keep the port's promise, the set of events behind a run of deliveries is the one
  -- before it, with the events added that were recorded without error.
  pub deliver_all_adds :
      (ds : List (Handler S × Request)) (x : Exchange S) (e : Event)
      → All (λ d. EventSet seen d.0.writer) ds
      → seen (deliver_all ds x).store e ≡ (is_among (recorded_in ds x) e || seen x.store e)
  unfolding deliver_all recorded_in
  deliver_all_adds [] x e cs = refl
  deliver_all_adds ((h, r) ∷ ds) x e (c, cs) = ground (
    arith,
    deliver_all_adds ds (serve_http h r x) e cs,
    ap (λ s. seen s e) (serve_http_store h r x),
    one_delivery h (accepted h r) x.store e c,
    any-append_or (λ ev. same_event ev e) (event_if_recorded h (accepted h r) x.store)
        (recorded_in ds (serve_http h r x)),
  )

-- each of the events is the same as one of the others
abbrev pub IsWithin : List Event → List Event → Type 0
IsWithin evs others = All (λ ev. is_among others ev ≡ true) evs

is_among-same :
    (evs : List Event) (a e : Event)
    → same_event a e ≡ true
    → is_among evs a ≡ true
    → is_among evs e ≡ true
is_among-same [] a e s h = cc h
is_among-same (ev ∷ evs) a e s h = ground (arith, is_among-same evs a e s, same_event_trans ev a e)

is_among-IsWithin :
    (evs others : List Event) (e : Event)
    → IsWithin evs others
    → is_among evs e ≡ true
    → is_among others e ≡ true
is_among-IsWithin [] others e w h = cc h
is_among-IsWithin (ev ∷ evs) others e (m, w) h =
    ground (arith, is_among-same others ev e, is_among-IsWithin evs others e w)

-- Two runs of deliveries, to any receivers over stores that keep the port's promise, be they
-- different stores: if the sets of events are the same before, and every event that one run records
-- without error is the same as one that the other does, in whatever order and however often each
-- is recorded, then the sets are the same behind them.
pub deliver_all_order :
    {S T : Type 0} (seen : S → Event → Bool) (seen' : T → Event → Bool)
    (ds : List (Handler S × Request)) (ds' : List (Handler T × Request)) (x : Exchange S)
    (y : Exchange T)
    → All (λ d. EventSet seen d.0.writer) ds
    → All (λ d. EventSet seen' d.0.writer) ds'
    → IsWithin (recorded_in ds x) (recorded_in ds' y)
    → IsWithin (recorded_in ds' y) (recorded_in ds x)
    → ((e : Event) → seen x.store e ≡ seen' y.store e)
    → (e : Event) → seen (deliver_all ds x).store e ≡ seen' (deliver_all ds' y).store e
deliver_all_order seen seen' ds ds' x y cs cs' there back start e = ground (
  arith,
  start e,
  deliver_all_adds seen ds x e cs,
  deliver_all_adds seen' ds' y e cs',
  is_among-IsWithin (recorded_in ds x) (recorded_in ds' y) e there,
  is_among-IsWithin (recorded_in ds' y) (recorded_in ds x) e back,
)
