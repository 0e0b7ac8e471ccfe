-- ===== src/Webhook/Tallies.antt =====
-- What the steps of the handler add to each counter.
use session_analysis_platfor.Prelude.{
  ℕ, zero, suc, ◌+◌, ltb, ◌≡◌, refl, ap, ◌∙◌, Bool, true, false, List, Bytes, arith, if◌then◌else◌,
}
use session_analysis_platfor.Session.{Event, EventType}
use session_analysis_platfor.Store.{Result}
use session_analysis_platfor.Livekit.Translate.{backend}
use session_analysis_platfor.Metrics
use session_analysis_platfor.Metrics.{Ingest, Instrument, same_instrument}
use session_analysis_platfor.Metrics.Totals.{total, total-add}
use session_analysis_platfor.Postgres.Counts.{bit}
use session_analysis_platfor.Webhook.{
  Exchange, Handler, measure, log, note, finish, write_header, count_opened, count_closed,
  count_unmatched, count_effects,
}

-- a counter that only `count_effects` adds to
pub record Watched (i : Instrument) : Type 0 where
  pub requests : same_instrument i Instrument.requests ≡ false
  pub duration : same_instrument i Instrument.duration ≡ false
  pub duplicates : same_instrument i Instrument.duplicates ≡ false
  pub rejected : same_instrument i Instrument.rejected ≡ false
  pub unrecognised : same_instrument i Instrument.unrecognised ≡ false
  pub partition_missed : same_instrument i Instrument.partition_missed ≡ false
  pub close_unmatched : same_instrument i Instrument.close_unmatched ≡ false
  pub close_out_of_order : same_instrument i Instrument.close_out_of_order ≡ false

abbrev pub bump : Instrument → Instrument → ℕ → ℕ
bump i j n = if same_instrument i j then n else 0

ltb_zero_suc : (n : ℕ) → ltb 0 (suc n) ≡ true
ltb_zero_suc n = ground arith

module _ {S : Type 0} (h : Handler S) where
  total-measured :
      (i j : Instrument) (n : ℕ) (attrs : List (Bytes × Bytes)) (x : Exchange S)
      → total i (measure h (Metrics.add j n attrs) x).metrics ≡ total i x.metrics + bump i j n
  unfolding measure
  total-measured i j n attrs x = total-add i j n attrs x.metrics

  pub total-finish :
      (i : Instrument) (v : Bool) (s : ℕ) (o : Bytes) (x : Exchange S)
      → Watched i
      → total i (finish h v s o x).metrics ≡ total i x.metrics
  unfolding finish write_header measure note Metrics.request
  total-finish i v s o x w = ground (
    arith,
    total-add i Instrument.duration h.elapsed (Metrics.backend_attr backend)
        (Metrics.add Instrument.requests 1 (Metrics.request_attrs backend o v) x.metrics),
    total-add i Instrument.requests 1 (Metrics.request_attrs backend o v) x.metrics,
  )

  total-count_opened :
      (i : Instrument) (b : Bool) (x : Exchange S)
      → total i (count_opened h b x).metrics
        ≡ total i x.metrics + bump i Instrument.joins_opened (bit b)
  unfolding count_opened Metrics.count_join_opened
  total-count_opened i true x = total-measured i Instrument.joins_opened 1 _ x
  total-count_opened i false x = ground arith

  total-count_closed :
      (i : Instrument) (t : EventType) (n : ℕ) (x : Exchange S)
      → total i (count_closed h t n x).metrics
        ≡ total i x.metrics + bump i Instrument.joins_closed n
  unfolding count_closed Metrics.count_joins_closed
  total-count_closed i t zero x = ground arith
  total-count_closed i t (suc n) x =
      rw (ltb_zero_suc n) (total-measured i Instrument.joins_closed (suc n) _ x)

  total-count_unmatched :
      (i : Instrument) (ev : Event) (b : Bool) (x : Exchange S)
      → Watched i
      → total i (count_unmatched h ev b x).metrics ≡ total i x.metrics
  unfolding count_unmatched log Metrics.count_close_unmatched
  total-count_unmatched i ev true x w = ground (
    arith,
    w.close_unmatched,
    total-measured i Instrument.close_unmatched 1 (Metrics.backend_attr backend) x,
  )
  total-count_unmatched i ev false x w = refl

  pub total-count_effects :
      (i : Instrument) (ev : Event) (res : Result) (x : Exchange S)
      → Watched i
      → total i (count_effects h ev res x).metrics
        ≡ total i x.metrics
          + bump i Instrument.stored 1
          + bump i Instrument.joins_opened (bit res.join_opened)
          + bump i Instrument.joins_closed res.joins_closed
  unfolding count_effects Metrics.count_stored
  total-count_effects i ev res x w =
      total-count_unmatched i ev res.close_unmatched _ w
      ∙ total-count_closed i ev.type res.joins_closed _
      ∙ ap (λ n. n + bump i Instrument.joins_closed res.joins_closed)
          (total-count_opened i res.join_opened _
            ∙ ap (λ n. n + bump i Instrument.joins_opened (bit res.join_opened))
                (total-measured i Instrument.stored 1 _ x))

pub stored-Watched : Watched Instrument.stored
unfolding same_instrument
stored-Watched = record {
  requests = refl;
  duration = refl;
  duplicates = refl;
  rejected = refl;
  unrecognised = refl;
  partition_missed = refl;
  close_unmatched = refl;
  close_out_of_order = refl;
}

pub opened-Watched : Watched Instrument.joins_opened
unfolding same_instrument
opened-Watched = record {
  requests = refl;
  duration = refl;
  duplicates = refl;
  rejected = refl;
  unrecognised = refl;
  partition_missed = refl;
  close_unmatched = refl;
  close_out_of_order = refl;
}

pub closed-Watched : Watched Instrument.joins_closed
unfolding same_instrument
closed-Watched = record {
  requests = refl;
  duration = refl;
  duplicates = refl;
  rejected = refl;
  unrecognised = refl;
  partition_missed = refl;
  close_unmatched = refl;
  close_out_of_order = refl;
}
