-- ===== src/Postgres/Record/Concurrent/Orderly.antt =====
-- What calls at once never do to each other, whatever becomes of the joins.
use mathlib.Core.Path.{subst}
use session_analysis_platfor.Prelude.{◌≡◌, sym, Option, All}
use session_analysis_platfor.Store.{Result, StoreError}
use session_analysis_platfor.Postgres.Tables.{Database}
use session_analysis_platfor.Postgres.Record.{record_event}
use session_analysis_platfor.Postgres.Record.Concurrent.{Call, answered, start_call, System, idle}
use session_analysis_platfor.Postgres.Record.Concurrent.Holding.{
  IsHolding, Foretells, start_call-Foretells, finish_said-IsHolding, joins-IsHolding, Apart,
  Apart-Taken, no_holder, All-Taken,
}
use session_analysis_platfor.Postgres.Record.Concurrent.Interleaved.{
  Move, answers, inserts, finishes, joins_change, Moves, start, then_move,
}

-- every call in flight could still insert its row, and no two would insert the same
pub record IsOrderly (s : System) : Type 0 where
  pub holds : All (λ c. IsHolding c s.database) s.in_flight
  pub apart : Apart s.in_flight

-- a call that returns before its insert has an effect leaves the database
pub answered_whole :
    (c : Call) (s db : Database) (res : Result) (err : Option StoreError)
    → start_call c s ≡ answered (db, res, err)
    → (record_event c.world c.event s ≡ (db, res, err)) × (db ≡ s)
unfolding Foretells
answered_whole c s db res err e = subst (Foretells c s) e (start_call-Foretells c s)

Move-IsOrderly : {s t : System} → Move s t → IsOrderly s → IsOrderly t
unfolding Foretells Apart
Move-IsOrderly {s} (answers c db res err e) o =
    let (_, same) = answered_whole c s.database db res err e in
    record {
      holds = subst (λ d. All (λ x. IsHolding x d) s.in_flight) (sym same) o.holds;
      apart = o.apart;
    }
Move-IsOrderly {s} (inserts c e free) o =
    let (_, can) = subst (Foretells c s.database) e (start_call-Foretells c s.database) in
    record { holds = (can, o.holds); apart = (no_holder c.event s.in_flight free, o.apart) }
Move-IsOrderly {s} (finishes c rest said fallback db res err t e) o =
    let (h, hs) = All-Taken (λ x. IsHolding x s.database) t o.holds in
    let (others, a) = Apart-Taken t o.apart in
    record {
      holds =
          subst (λ x. All (λ d. IsHolding d x.0) rest) e
            (finish_said-IsHolding c said fallback rest s.database others hs);
      apart = a;
    }
Move-IsOrderly {s} (joins_change joins) o = record {
  holds = joins-IsHolding s.in_flight s.database joins o.holds;
  apart = o.apart;
}

pub Moves-IsOrderly : {db : Database} {s : System} → Moves (idle db) s → IsOrderly s
unfolding Apart
Moves-IsOrderly start = record { holds = tt; apart = tt }
Moves-IsOrderly (then_move r m) = Move-IsOrderly m (Moves-IsOrderly r)
