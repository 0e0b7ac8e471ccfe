-- ===== src/Webhook/Steps.antt =====
-- What each step of the handler leaves alone.
use session_analysis_platfor.Prelude.{
  ℕ, zero, suc, ltb, ◌≡◌, refl, ◌∙◌, Bool, true, false, List, Bytes, arith,
}
use session_analysis_platfor.Session.{Event, EventType}
use session_analysis_platfor.Store.{Result}
use session_analysis_platfor.Livekit.Translate.{backend}
use session_analysis_platfor.Metrics
use session_analysis_platfor.Metrics.{Ingest, Instrument, request_attrs}
use session_analysis_platfor.Metrics.Totals.{attributes_of, attributes_of-add}
use session_analysis_platfor.Webhook.{
  Exchange, Handler, measure, log, count_opened, count_closed, count_unmatched, count_effects,
}

-- no response, and no measurement of a request, in between
pub record Quiet {S : Type 0} (x y : Exchange S) : Type 0 where
  pub statuses : y.statuses ≡ x.statuses
  pub requests :
      attributes_of Instrument.requests y.metrics ≡ attributes_of Instrument.requests x.metrics

ltb_zero_suc : (n : ℕ) → ltb 0 (suc n) ≡ true
ltb_zero_suc n = ground arith

module _ {S : Type 0} (h : Handler S) where
  pub counted-Quiet :
      (x y : Exchange S) (i : Instrument) (n : ℕ) (attrs : List (Bytes × Bytes))
      → Metrics.same_instrument Instrument.requests i ≡ false
      → Quiet x y
      → Quiet x (measure h (Metrics.add i n attrs) y)
  unfolding measure
  counted-Quiet x y i n attrs other q = record {
    statuses = q.statuses;
    requests = attributes_of-add Instrument.requests i n attrs y.metrics ∙ rw other q.requests;
  }

  counted_opened-Quiet : (b : Bool) (x y : Exchange S) → Quiet x y → Quiet x (count_opened h b y)
  unfolding count_opened Metrics.count_join_opened Metrics.same_instrument
  counted_opened-Quiet false x y q = q
  counted_opened-Quiet true x y q = counted-Quiet x y Instrument.joins_opened 1 _ refl q

  counted_closed-Quiet :
      (t : EventType) (n : ℕ) (x y : Exchange S) → Quiet x y → Quiet x (count_closed h t n y)
  unfolding count_closed Metrics.count_joins_closed Metrics.same_instrument
  counted_closed-Quiet t zero x y q = q
  counted_closed-Quiet t (suc n) x y q =
      rw (ltb_zero_suc n) (counted-Quiet x y Instrument.joins_closed (suc n) _ refl q)

  counted_unmatched-Quiet :
      (ev : Event) (b : Bool) (x y : Exchange S) → Quiet x y → Quiet x (count_unmatched h ev b y)
  unfolding count_unmatched Metrics.count_close_unmatched Metrics.same_instrument log
  counted_unmatched-Quiet ev false x y q = q
  counted_unmatched-Quiet ev true x y q =
      let q' =
        counted-Quiet x y Instrument.close_unmatched 1 (Metrics.backend_attr backend) refl q in
      record { statuses = q'.statuses; requests = q'.requests }

  pub count_effects-Quiet :
      (ev : Event) (res : Result) (x y : Exchange S)
      → Quiet x y
      → Quiet x (count_effects h ev res y)
  unfolding count_effects Metrics.count_stored Metrics.same_instrument
  count_effects-Quiet ev res x y q = counted_unmatched-Quiet ev res.close_unmatched x _ (
      counted_closed-Quiet ev.type res.joins_closed x _
        (counted_opened-Quiet res.join_opened x _ (counted-Quiet x y Instrument.stored 1 _ refl q)))
