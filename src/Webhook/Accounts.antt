-- ===== src/Webhook/Accounts.antt =====
-- The receiver over the PostgreSQL store: its counters against the tables.
use session_analysis_platfor.Prelude.{
  ℕ, ◌+◌, ◌≡◌, refl, ap, Bool, true, false, List, Option, none, some, Bytes, arith, length,
}
use session_analysis_platfor.Session.{Event}
use session_analysis_platfor.Store.{
  Result, no_result, partition_missing, close_out_of_order, failure,
}
use session_analysis_platfor.Livekit.Translate.{Disposition, TranslateError}
use session_analysis_platfor.Livekit.Verify.{VerifyError}
use session_analysis_platfor.Metrics
use session_analysis_platfor.Metrics.{Ingest, Instrument, same_instrument}
use session_analysis_platfor.Metrics.Totals.{total, total-add}
use session_analysis_platfor.Postgres.Tables.{Database}
use session_analysis_platfor.Postgres.Record.{World, writer}
use session_analysis_platfor.Postgres.Record.Outcomes.{Outcome}
use session_analysis_platfor.Postgres.Invariant.{WellFormed}
use session_analysis_platfor.Postgres.Atomic.{IsDefinite}
use session_analysis_platfor.Postgres.Counts.{count_open, bit, Balanced}
use session_analysis_platfor.Postgres.Fair.{IsFair, record_event-IsFair}
use session_analysis_platfor.Webhook.Tallies.{
  Watched, total-finish, total-count_effects, stored-Watched, opened-Watched, closed-Watched,
}
use session_analysis_platfor.Webhook.Gate.{store-count_effects}
use session_analysis_platfor.Webhook.{
  Exchange, Handler, Request, ReadBody, too_large, broken, whole, measure, log, note, finish,
  write_header, count_effects, settle_success, settle, record_delivery, dispatch, authenticated,
  receive, serve_http, outcome_accepted,
}

-- What changes in the tables between two exchanges is what the three counters have counted.
pub record Reconciled (x y : Exchange Database) : Type 0 where
  pub joins :
      count_open y.store
        + total Instrument.joins_closed y.metrics
        + total Instrument.joins_opened x.metrics
      ≡ count_open x.store
        + total Instrument.joins_closed x.metrics
        + total Instrument.joins_opened y.metrics
  pub events :
      length y.store.events + total Instrument.stored x.metrics
      ≡ length x.store.events + total Instrument.stored y.metrics

-- the watched counters stand as they stood
abbrev Uncounted : Ingest → Ingest → Type 0
Uncounted m n = (i : Instrument) → Watched i → total i n ≡ total i m

module _ (h : Handler Database) where
  -- neither the tables nor the counters have moved
  unmoved :
      (x y : Exchange Database) → y.store ≡ x.store → Uncounted x.metrics y.metrics → Reconciled x y
  unmoved x y e u = record {
    joins = ground (
      arith,
      ap count_open e,
      u Instrument.joins_closed closed-Watched,
      u Instrument.joins_opened opened-Watched,
    );
    events =
        ground
          (arith, ap (λ (d : Database). length d.events) e, u Instrument.stored stored-Watched);
  }

  finish-Reconciled :
      (x y : Exchange Database) (v : Bool) (s : ℕ) (o : Bytes)
      → Reconciled x y
      → Reconciled x (finish h v s o y)
  finish-Reconciled x y v s o r =
      let e = store-finish y v s o in
      let opened = total-finish h Instrument.joins_opened v s o y opened-Watched in
      let closed = total-finish h Instrument.joins_closed v s o y closed-Watched in
      let stored = total-finish h Instrument.stored v s o y stored-Watched in
      record {
        joins = ground (arith, r.joins, ap count_open e, opened, closed);
        events = ground (arith, r.events, ap (λ (d : Database). length d.events) e, stored);
      }
    where
      store-finish :
          (y : Exchange Database) (v : Bool) (s : ℕ) (o : Bytes)
          → (finish h v s o y).store ≡ y.store
      store-finish y v s o = unfold finish write_header measure note in refl

  effects-Reconciled :
      (ev : Event) (res : Result) (x y : Exchange Database)
      → res.stored ≡ true
      → Balanced x.store res y.store
      → Uncounted x.metrics y.metrics
      → Reconciled x (count_effects h ev res y)
  unfolding same_instrument
  effects-Reconciled ev res x y s b u =
      let e = store-count_effects h ev res y in
      let opened = total-count_effects h Instrument.joins_opened ev res y opened-Watched in
      let closed = total-count_effects h Instrument.joins_closed ev res y closed-Watched in
      let stored = total-count_effects h Instrument.stored ev res y stored-Watched in
      record {
        joins = ground (
          arith,
          b.open_joins,
          ap count_open e,
          opened,
          closed,
          u Instrument.joins_closed closed-Watched,
          u Instrument.joins_opened opened-Watched,
        );
        events = ground (
          arith,
          b.all_events,
          ap bit s,
          ap (λ (d : Database). length d.events) e,
          stored,
          u Instrument.stored stored-Watched,
        );
      }

  Uncounted-add :
      (m n : Ingest) (j : Instrument) (k : ℕ) (attrs : List (Bytes × Bytes))
      → ((i : Instrument) → Watched i → same_instrument i j ≡ false)
      → Uncounted m n
      → Uncounted m (Metrics.add j k attrs n)
  Uncounted-add m n j k attrs o u i w = ground (arith, total-add i j k attrs n, o i w, u i w)

  -- nothing was stored, and nothing counted
  silent-Reconciled :
      (res : Result) (x y : Exchange Database)
      → Balanced x.store res y.store
      → res ≡ no_result
      → Uncounted x.metrics y.metrics
      → Reconciled x y
  silent-Reconciled res x y b e u =
      let (o, t, c, s) = result_fields e in
      record {
        joins = ground (
          arith,
          b.open_joins,
          o,
          c,
          u Instrument.joins_closed closed-Watched,
          u Instrument.joins_opened opened-Watched,
        );
        events = ground (arith, b.all_events, s, u Instrument.stored stored-Watched);
      }
    where
      result_fields :
          {r : Result}
          → r ≡ no_result
          → (bit r.join_opened ≡ 0) × Unit {0} × (r.joins_closed ≡ 0) × (bit r.stored ≡ 0)
      result_fields p = (
        ap (λ (q : Result). bit q.join_opened) p,
        tt,
        ap (λ (q : Result). q.joins_closed) p,
        ap (λ (q : Result). bit q.stored) p,
      )

  settle_success-Reconciled :
      (ev : Event) (res : Result) (b : Bool) (x y : Exchange Database)
      → res.stored ≡ b
      → Balanced x.store res y.store
      → (res.stored ≡ false → res ≡ no_result)
      → Uncounted x.metrics y.metrics
      → Reconciled x (settle_success h ev res b y)
  unfolding settle_success Metrics.count_duplicate measure note
  settle_success-Reconciled ev res true x y s b n u =
      finish-Reconciled x _ true 200 outcome_accepted (effects-Reconciled ev res x y s b u)
  settle_success-Reconciled ev res false x y s b n u = finish-Reconciled x _ true 200 _ (
      silent-Reconciled res x _ b (n s)
        (Uncounted-add x.metrics y.metrics Instrument.duplicates 1 _ (λ i w. w.duplicates) u))

  pub settle-Reconciled :
      (ev : Event) (o : Outcome) (x y : Exchange Database)
      → IsFair x.store o
      → Uncounted x.metrics y.metrics
      → Reconciled x (settle h ev o y)
  unfolding settle Metrics.count_partition_missing Metrics.count_close_out_of_order measure note log
  settle-Reconciled ev (s, res, some partition_missing) x y f u = finish-Reconciled x _ true 200 _ (
      unmoved x _ f (
        Uncounted-add x.metrics y.metrics Instrument.partition_missed 1 _
          (λ i w. w.partition_missed) u))
  settle-Reconciled ev (s, res, some close_out_of_order) x y f u =
      finish-Reconciled x _ true 200 _ (
        unmoved x _ f (
          Uncounted-add x.metrics y.metrics Instrument.close_out_of_order 1 _
            (λ i w. w.close_out_of_order) u))
  settle-Reconciled ev (s, res, some (failure e)) x y f u =
      finish-Reconciled x _ true 500 _ (unmoved x _ f u)
  settle-Reconciled ev (s, res, none) x y (b, n) u =
      settle_success-Reconciled ev res res.stored x _ refl b n u

  module _ (w : World) (x : Exchange Database) (valid : WellFormed x.store)
      (answered : IsDefinite w.commit) (over_postgres : h.writer ≡ writer w) where
    fair : (ev : Event) → IsFair x.store (h.writer.record_event ev x.store)
    unfolding writer
    fair ev = rw over_postgres (record_event-IsFair w ev x.store answered valid)

    dispatch-Reconciled :
        (t : Event × Disposition × Option TranslateError) → Reconciled x (dispatch h t x)
    unfolding dispatch record_delivery log note measure Metrics.count_rejected
        Metrics.count_unrecognised
    dispatch-Reconciled (ev, d, some e) =
        finish-Reconciled x _ true 400 _ (unmoved x _ refl (λ i _. refl))
    dispatch-Reconciled (ev, Disposition.reject, none) = finish-Reconciled x _ true 200 _ (
        unmoved x _ refl (
          Uncounted-add x.metrics x.metrics Instrument.rejected 1 _ (λ i w. w.rejected)
            (λ i _. refl)))
    dispatch-Reconciled (ev, Disposition.store, none) = settle-Reconciled ev _ x _ (fair ev) (
        Uncounted-add x.metrics x.metrics Instrument.unrecognised 1 _ (λ i w. w.unrecognised)
          (λ i _. refl))
    dispatch-Reconciled (ev, Disposition.ingest, none) =
        settle-Reconciled ev _ x _ (fair ev) (λ i _. refl)

    authenticated-Reconciled :
        (r : Request) (body : Bytes) (v : Option VerifyError)
        → Reconciled x (authenticated h r body v x)
    unfolding authenticated log note
    authenticated-Reconciled r body (some e) =
        finish-Reconciled x _ false 401 _ (unmoved x _ refl (λ i _. refl))
    authenticated-Reconciled r body none = dispatch-Reconciled _

    receive-Reconciled : (r : Request) (b : ReadBody) → Reconciled x (receive h r b x)
    unfolding receive
    receive-Reconciled r too_large =
        finish-Reconciled x x false 413 _ (unmoved x x refl (λ i _. refl))
    receive-Reconciled r broken = finish-Reconciled x x false 400 _ (unmoved x x refl (λ i _. refl))
    receive-Reconciled r (whole body) = authenticated-Reconciled r body _

    -- Over the PostgreSQL store, with well-formed tables and a commit that is answered, whatever
    -- is sent: the rows of `event_raw` grow by what the counter of stored events grows, and the
    -- open joins by what the counter of opened joins grows less what that of closed joins grows.
    pub serve_http-Reconciled : (r : Request) → Reconciled x (serve_http h r x)
    unfolding serve_http
    serve_http-Reconciled r = receive-Reconciled r _
