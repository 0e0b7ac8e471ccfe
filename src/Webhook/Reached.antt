-- ===== src/Webhook/Reached.antt =====
-- All that the receivers over one PostgreSQL store can reach, as a step relation: each step is one
-- delivery, with what the sender sends and what goes wrong around the transaction left open.
use session_analysis_platfor.Prelude.{◌+◌, ◌≡◌, ap, inl, inr, [], length, count_if, arith}
use session_analysis_platfor.Metrics.{Instrument}
use session_analysis_platfor.Metrics.Totals.{total, total-zero}
use session_analysis_platfor.Postgres.Tables.{Database}
use session_analysis_platfor.Postgres.Statements.{row_is_open}
use session_analysis_platfor.Postgres.Record.{World, writer}
use session_analysis_platfor.Postgres.Invariant.{WellFormed, record_event-WellFormed}
use session_analysis_platfor.Postgres.Atomic.{IsDefinite}
use session_analysis_platfor.Postgres.Counts.{count_open}
use session_analysis_platfor.Webhook.{Exchange, Handler, Request, serve_http}
use session_analysis_platfor.Webhook.Gate.{serve_http_gate}
use session_analysis_platfor.Webhook.Accounts.{Reconciled, serve_http-Reconciled}

pub data Delivery (x : Exchange Database) : Exchange Database → Type 0 where
  delivery :
      (h : Handler Database) (w : World) (r : Request)
      → h.writer ≡ writer w
      → IsDefinite w.commit
      → Delivery x (serve_http h r x)

pub data Reach (x : Exchange Database) : Exchange Database → Type 0 where
  here : Reach x x
  next : {y z : Exchange Database} → Reach x y → Delivery y z → Reach x z

serve_http-WellFormed :
    (h : Handler Database) (w : World) (r : Request) (x : Exchange Database)
    → h.writer ≡ writer w
    → WellFormed x.store
    → WellFormed (serve_http h r x).store
unfolding writer
serve_http-WellFormed h w r x o v = elim (serve_http_gate h r x) [
  | inl k ↦ rw k v
  | inr k ↦ rw (k.recorded, o) (record_event-WellFormed w k.event x.store v)
]

Delivery-WellFormed :
    {x y : Exchange Database} → Delivery x y → WellFormed x.store → WellFormed y.store
Delivery-WellFormed {x} (delivery h w r o d) v = serve_http-WellFormed h w r x o v

Delivery-Reconciled : {x y : Exchange Database} → Delivery x y → WellFormed x.store → Reconciled x y
Delivery-Reconciled {x} (delivery h w r o d) v = serve_http-Reconciled h w x v d o r

pub Reconciled-refl : (x : Exchange Database) → Reconciled x x
Reconciled-refl x = record { joins = omega arith; events = omega arith }

pub Reconciled-trans :
    (x y z : Exchange Database) → Reconciled x y → Reconciled y z → Reconciled x z
Reconciled-trans x y z p q = record {
  joins = omega (arith, p.joins, q.joins);
  events = omega (arith, p.events, q.events);
}

Reach-both :
    {x y : Exchange Database} → Reach x y → WellFormed x.store → WellFormed y.store × Reconciled x y
Reach-both {x} here v = (v, Reconciled-refl x)
Reach-both {x} (next {y} {z} r d) v =
    let (u, p) = Reach-both r v in
    (Delivery-WellFormed d u, Reconciled-trans x y z p (Delivery-Reconciled d u))

-- Nothing is stored and nothing counted yet.
pub record IsFresh (x : Exchange Database) : Type 0 where
  pub no_events : x.store.events ≡ []
  pub no_joins : x.store.joins ≡ []
  pub no_metrics : x.metrics.measurements ≡ []

-- After any deliveries to a fresh system with well-formed tables, whatever was sent and whatever failed, as long as every
-- commit was answered: the tables satisfy the schema's invariants, `event_raw` has as many rows as
-- stored events were counted, and the open joins and those counted as closed are as many as those
-- counted as opened.
pub Reach_accounts :
    {x y : Exchange Database}
    → IsFresh x
    → WellFormed x.store
    → Reach x y
    → WellFormed y.store
      × (length y.store.events ≡ total Instrument.stored y.metrics)
      × (count_open y.store + total Instrument.joins_closed y.metrics
          ≡ total Instrument.joins_opened y.metrics)
Reach_accounts {x} {y} f v r =
    let (u, p) = Reach-both r v in
    (
      u,
      omega (
        arith,
        p.events,
        total-zero Instrument.stored x.metrics f.no_metrics,
        ap length f.no_events,
      ),
      omega (
        arith,
        p.joins,
        total-zero Instrument.joins_opened x.metrics f.no_metrics,
        total-zero Instrument.joins_closed x.metrics f.no_metrics,
        ap (count_if row_is_open) f.no_joins,
      ),
    )
