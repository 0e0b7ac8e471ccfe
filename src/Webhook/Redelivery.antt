-- ===== src/Webhook/Redelivery.antt =====
-- Sequences of deliveries, to receivers over any stores that keep the port's promise.
use mathlib.Core.Path.{subst}
use session_analysis_platfor.Prelude.{
  ◌≡◌, ◌≢◌, sym, ◌∙◌, inl, inr, Bool, true, ◌≤◌, List, [], ◌∷◌, none, All, length, arith,
}
use session_analysis_platfor.Prelude.Int.{pos}
use session_analysis_platfor.Session.{Event}
use session_analysis_platfor.Store.{Writer}
use session_analysis_platfor.Store.Contract.{same_event, EventSet, seen_stays}
use session_analysis_platfor.Livekit.Translate.{Disposition, translate}
use session_analysis_platfor.Livekit.Verify.{verify}
use session_analysis_platfor.Webhook.{Exchange, Handler, Request, serve_http}
use session_analysis_platfor.Webhook.Gate.{serve_http_gate, serve_http_records}

-- deliveries one after another, each as its receiver finds it
unfoldable pub deliver_all : {S : Type 0} → List (Handler S × Request) → Exchange S → Exchange S
deliver_all [] x = x
deliver_all ((h, r) ∷ ds) x = deliver_all ds (serve_http h r x)

-- what a receiver takes the delivery's event to be
abbrev pub Carries : {S : Type 0} → Handler S → Request → Event → Type 0
Carries h r ev = (d : Disposition) × (translate h.json h.uuid r.body (pos 0) ≡ (ev, d, none))

module _ {S : Type 0} (seen : S → Event → Bool) where
  serve_http_keeps_seen :
      (h : Handler S) (r : Request) (x : Exchange S) (e : Event)
      → EventSet seen h.writer
      → seen x.store e ≡ true
      → seen (serve_http h r x).store e ≡ true
  serve_http_keeps_seen h r x e c s = elim (serve_http_gate h r x) [
    | inl k ↦ rw k s
    | inr k ↦ rw k.recorded (seen_stays seen h.writer c k.event e x.store s)
  ]

  deliver_all_keeps_seen :
      (ds : List (Handler S × Request)) (x : Exchange S) (e : Event)
      → All (λ d. EventSet seen d.0.writer) ds
      → seen x.store e ≡ true
      → seen (deliver_all ds x).store e ≡ true
  unfolding deliver_all
  deliver_all_keeps_seen [] x e cs s = s
  deliver_all_keeps_seen ((h, r) ∷ ds) x e (c, cs) s =
      deliver_all_keeps_seen ds (serve_http h r x) e cs (serve_http_keeps_seen h r x e c s)

  serve_http_of_seen :
      (h : Handler S) (r : Request) (x : Exchange S) (ev : Event)
      → EventSet seen h.writer
      → Carries h r ev
      → seen x.store ev ≡ true
      → (serve_http h r x).store ≡ x.store
  serve_http_of_seen h r x ev c (d, t) s = elim (serve_http_gate h r x) [
    | inl k ↦ k
    | inr k ↦
        let same : k.event ≡ ev = cc (k.translated, t) in
        k.recorded ∙ (c.repeats k.event x.store (subst (λ e. seen x.store e ≡ true) (sym same) s)).0
  ]

  seen_when_recorded :
      (w : Writer S) (ev again : Event) (s : S)
      → EventSet seen w
      → same_event ev again ≡ true
      → (w.record_event ev s).2 ≡ none
      → seen (w.record_event ev s).0 again ≡ true
  seen_when_recorded w ev again s c same ok = ground (arith, c.grows ev again s, same)

  -- Over stores that keep the port's promise: a delivery is whole, within the limit, signed and in
  -- scope, and its event is recorded without error. Then other deliveries follow, any number of them.
  -- Whatever is delivered next, by whichever receiver over the same store, leaves the store as it is
  -- if it carries an event of the same id and time, be all else of it different.
  pub redelivery_changes_nothing :
      (h h' : Handler S) (r r' : Request) (ds : List (Handler S × Request)) (x : Exchange S)
      (ev again : Event) (d : Disposition)
      → EventSet seen h.writer
      → EventSet seen h'.writer
      → All (λ e. EventSet seen e.0.writer) ds
      → length r.body ≤ h.max_body_bytes
      → r.intact ≡ true
      → verify h.crypto h.now h.verifier r.authorization r.body ≡ none
      → translate h.json h.uuid r.body (pos 0) ≡ (ev, d, none)
      → d ≢ Disposition.reject
      → (h.writer.record_event ev x.store).2 ≡ none
      → same_event ev again ≡ true
      → Carries h' r' again
      → (serve_http h' r' (deliver_all ds (serve_http h r x))).store
        ≡ (deliver_all ds (serve_http h r x)).store
  redelivery_changes_nothing h h' r r' ds x ev again d c c' cs fits all signed translated n ok same
        carried =
      let recorded = serve_http_records h r x ev d fits all signed translated n in
      let s : seen (serve_http h r x).store again ≡ true =
        subst (λ y. seen y again ≡ true) (sym recorded)
          (seen_when_recorded h.writer ev again x.store c same ok) in
      serve_http_of_seen h' r' _ again c' carried (deliver_all_keeps_seen ds _ again cs s)
