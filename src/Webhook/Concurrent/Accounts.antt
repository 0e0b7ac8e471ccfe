-- ===== src/Webhook/Concurrent/Accounts.antt =====
-- What receivers count when their calls of the store run at once, against the tables that these leave.
use mathlib.Core.Path.{subst}
use session_analysis_platfor.Prelude.{
  ℕ, ◌+◌, ◌≡◌, ltb, inl, inr, Bool-cases, refl, ap, List, [], ◌∷◌, Option, none, some, true, false,
  Bool, All, length, count_if, arith,
}
use session_analysis_platfor.Session.{Event}
use session_analysis_platfor.Store.{
  Result, StoreError, partition_missing, close_out_of_order, failure,
}
use session_analysis_platfor.Metrics.{Instrument}
use session_analysis_platfor.Metrics.Totals.{total, total-zero}
use session_analysis_platfor.Postgres.Tables.{Database}
use session_analysis_platfor.Postgres.Statements.{row_is_open}
use session_analysis_platfor.Postgres.Invariant.{WellFormed, record_event-WellFormed}
use session_analysis_platfor.Postgres.Counts.{count_open}
use session_analysis_platfor.Postgres.Fair.{IsFair, record_event-IsFair}
use session_analysis_platfor.Postgres.Record.Concurrent.{
  Call, Finished, finished, System, idle, Reach,
}
use session_analysis_platfor.Postgres.Record.Concurrent.Accounts.{IsAnswered}
use session_analysis_platfor.Postgres.Record.Concurrent.Serial.{
  Serial, nothing, then_call, Reach-Serial,
}
use session_analysis_platfor.Webhook.{
  Exchange, Handler, settle, settle_success, finish, count_effects, count_opened, count_closed,
  count_unmatched, measure, log, note, write_header, outcome_accepted, end_reason,
}
use session_analysis_platfor.Metrics
use session_analysis_platfor.Livekit.Translate.{backend}
use session_analysis_platfor.Webhook.Gate.{store-settle}
use session_analysis_platfor.Webhook.Accounts.{Reconciled, settle-Reconciled}
use session_analysis_platfor.Webhook.Reached.{IsFresh, Reconciled-refl, Reconciled-trans}

-- The handlers go on with what their calls have returned, one after another; the database is not
-- theirs, so that they leave the exchange's alone.
pub settle_all : (Call → Handler Database) → List Finished → Exchange Database → Exchange Database
settle_all of [] x = x
settle_all of (finished c res err ∷ log) x =
    let y = settle_all of log x in settle (of c) c.event (y.store, res, err) y

-- what a handler counts does not depend on the database
module _ (h : Handler Database) (ev : Event) (s db : Database) where
  metrics-count_unmatched :
      (b : Bool) (y z : Exchange Database)
      → y.metrics ≡ z.metrics
      → (count_unmatched h ev b y).metrics ≡ (count_unmatched h ev b z).metrics
  unfolding count_unmatched measure log
  metrics-count_unmatched true y z e = ap (Metrics.count_close_unmatched backend) e
  metrics-count_unmatched false y z e = e

  metrics-count_closed :
      (n : ℕ) (y z : Exchange Database)
      → y.metrics ≡ z.metrics
      → (count_closed h ev.type n y).metrics ≡ (count_closed h ev.type n z).metrics
  unfolding count_closed measure
  metrics-count_closed n y z e = elim (Bool-cases (ltb 0 n)) [
    | inl c ↦ rw c (ap (Metrics.count_joins_closed backend (end_reason ev.type) n) e)
    | inr c ↦ rw c e
  ]

  metrics-count_opened :
      (b : Bool) (y z : Exchange Database)
      → y.metrics ≡ z.metrics
      → (count_opened h b y).metrics ≡ (count_opened h b z).metrics
  unfolding count_opened measure
  metrics-count_opened true y z e = ap (Metrics.count_join_opened backend) e
  metrics-count_opened false y z e = e

  metrics-count_effects :
      (res : Result) (y : Exchange Database)
      → (count_effects h ev res (record y { store = s })).metrics
        ≡ (count_effects h ev res (record y { store = db })).metrics
  unfolding count_effects measure
  metrics-count_effects res y =
      metrics-count_unmatched res.close_unmatched _ _
        (metrics-count_closed res.joins_closed _ _ (metrics-count_opened res.join_opened _ _ refl))

  metrics-settle_success :
      (res : Result) (b : Bool) (y : Exchange Database)
      → (settle_success h ev res b (record y { store = s })).metrics
        ≡ (settle_success h ev res b (record y { store = db })).metrics
  unfolding settle_success finish write_header measure note
  metrics-settle_success res false y = refl
  metrics-settle_success res true y =
      ap (Metrics.request backend outcome_accepted true h.elapsed) (metrics-count_effects res y)

  metrics-settle :
      (res : Result) (err : Option StoreError) (y : Exchange Database) (a b : Database)
      → (settle h ev (s, res, err) (record y { store = a })).metrics
        ≡ (settle h ev (db, res, err) (record y { store = b })).metrics
  unfolding settle finish write_header measure note log
  metrics-settle res (some partition_missing) y a b = refl
  metrics-settle res (some close_out_of_order) y a b = refl
  metrics-settle res (some (failure e)) y a b = refl
  metrics-settle res none y a b = metrics-settle_success res res.stored y

with_metrics_of :
    (x y z : Exchange Database)
    → y.store ≡ z.store
    → y.metrics ≡ z.metrics
    → Reconciled x y
    → Reconciled x z
with_metrics_of x y z s m r = record {
  joins = ground (
    arith,
    r.joins,
    ap count_open s,
    ap (total Instrument.joins_closed) m,
    ap (total Instrument.joins_opened) m,
  );
  events =
      ground
        (arith, r.events, ap (λ (d : Database). length d.events) s, ap (total Instrument.stored) m);
}

Serial-Reconciled :
    (of : Call → Handler Database) (x : Exchange Database) {log : List Finished} {db : Database}
    → Serial x.store log db
    → WellFormed x.store
    → All IsAnswered log
    → WellFormed db × Reconciled x (record (settle_all of log x) { store = db })
unfolding settle_all
Serial-Reconciled of x nothing v a = (v, Reconciled-refl x)
Serial-Reconciled of x (then_call {log} {db} {db'} c res err ser e) v (d, ds) =
    let (u, r) = Serial-Reconciled of x ser v ds in
    let y : Exchange Database = settle_all of log x in
    let before : Exchange Database = record y { store = db } in
    let fair : IsFair db (db', res, err) =
      subst (IsFair db) e (record_event-IsFair c.world c.event db d u) in
    let settled : Exchange Database = settle (of c) c.event (db', res, err) before in
    let step = settle-Reconciled (of c) c.event (db', res, err) before before fair (λ i _. refl) in
    (
      subst (λ o. WellFormed o.0) e (record_event-WellFormed c.world c.event db u),
      with_metrics_of x settled _ (store-settle (of c) c.event (db', res, err) before)
          (metrics-settle (of c) c.event db' y.store res err y db y.store)
          (Reconciled-trans x before settled r step),
    )

-- Calls of `record_event` interleave at their inserts over one PostgreSQL store, from a fresh system
-- with well-formed tables, what a call does behind its insert being one step. Handlers made them, and
-- each goes on with what its own call has returned. As long as every commit was answered: the tables
-- satisfy the schema's invariants, `event_raw` has as many rows as these handlers have counted stored
-- events, and the open joins and those that they have counted as closed are as many as those that they
-- have counted as opened.
pub Reach_accounts_at_once :
    (of : Call → Handler Database) (x : Exchange Database) {s : System}
    → IsFresh x
    → WellFormed x.store
    → Reach (idle x.store) s
    → All IsAnswered s.log
    → WellFormed s.database
      × (length s.database.events ≡ total Instrument.stored (settle_all of s.log x).metrics)
      × (count_open s.database + total Instrument.joins_closed (settle_all of s.log x).metrics
          ≡ total Instrument.joins_opened (settle_all of s.log x).metrics)
Reach_accounts_at_once of x f v r a =
    let (u, p) = Serial-Reconciled of x (Reach-Serial r) v a in
    (
      u,
      omega (
        arith,
        p.events,
        total-zero Instrument.stored x.metrics f.no_metrics,
        ap length f.no_events,
      ),
      omega (
        arith,
        p.joins,
        total-zero Instrument.joins_opened x.metrics f.no_metrics,
        total-zero Instrument.joins_closed x.metrics f.no_metrics,
        ap (count_if row_is_open) f.no_joins,
      ),
    )
