-- ===== src/Store.antt =====
-- internal/ingest/store/store.go: what recording one delivery reports. The port's one method is
-- implemented in Postgres; the receiver takes any implementation of `Writer`.
pub mod Contract
use session_analysis_platfor.Prelude.{ℕ, Bool, false, Option, Bytes}
use session_analysis_platfor.Session.{Event}

pub record Result : Type 0 where
  pub stored : Bool
  pub join_opened : Bool
  pub joins_closed : ℕ
  pub close_unmatched : Bool

-- `var res store.Result`
abbrev pub no_result : Result
no_result = record {
  stored = false;
  join_opened = false;
  joins_closed = 0;
  close_unmatched = false;
}

-- The errors that callers tell apart by `errors.Is`, and all others.
pub data StoreError : Type 0 where
  partition_missing close_out_of_order : StoreError
  failure : Bytes → StoreError

-- `RecordEvent` of a store whose states are `S`: the state after the call, and both results.
pub record Writer (S : Type 0) : Type 0 where
  pub record_event : Event → S → S × Result × Option StoreError
