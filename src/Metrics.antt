-- ===== src/Metrics.antt =====
-- internal/ingest/metrics/metrics.go: the receiver's instruments. What is modelled of the meter is
-- the sequence of measurements that it was given.
pub mod Totals
pub mod Register
use session_analysis_platfor.Prelude.{
  ℕ, zero, suc, ◌+◌, Bool, true, false, List, [], ◌∷◌, ◌++◌, Bytes, codes, ◌==◌,
}

pub data Instrument : Type 0 where
  requests duration stored duplicates rejected unrecognised partition_missed : Instrument
  joins_opened joins_closed close_unmatched close_out_of_order : Instrument

pub record Measurement : Type 0 where
  pub instrument : Instrument
  pub value : ℕ
  pub attributes : List (Bytes × Bytes)

-- `metrics.Ingest`
pub record Ingest : Type 0 where
  pub measurements : List Measurement

unfoldable pub add : Instrument → ℕ → List (Bytes × Bytes) → Ingest → Ingest
add i n attrs m = record {
  measurements = m.measurements ++ record { instrument = i; value = n; attributes = attrs } ∷ [];
}

abbrev bool_text : Bool → Bytes
bool_text true = codes "true"
bool_text false = codes "false"

unfoldable pub backend_attr : Bytes → List (Bytes × Bytes)
backend_attr backend = (codes "backend", backend) ∷ []

unfoldable pub event_attrs : Bytes → Bytes → List (Bytes × Bytes)
event_attrs backend event_type = (codes "backend", backend) ∷ (codes "event_type", event_type) ∷ []

unfoldable pub request_attrs : Bytes → Bytes → Bool → List (Bytes × Bytes)
request_attrs backend outcome verified =
    (codes "backend", backend)
    ∷ (codes "outcome", outcome)
    ∷ (codes "verified", bool_text verified)
    ∷ []

-- the wall time in nanoseconds, which the histogram gets in seconds
unfoldable pub request : Bytes → Bytes → Bool → ℕ → Ingest → Ingest
request backend outcome verified elapsed m =
    add duration elapsed (backend_attr backend)
      (add requests 1 (request_attrs backend outcome verified) m)

unfoldable pub count_stored : Bytes → Bytes → Ingest → Ingest
count_stored backend event_type = add stored 1 (event_attrs backend event_type)

unfoldable pub count_duplicate : Bytes → Bytes → Ingest → Ingest
count_duplicate backend event_type = add duplicates 1 (event_attrs backend event_type)

unfoldable pub count_rejected : Bytes → Bytes → Ingest → Ingest
count_rejected backend event_type = add rejected 1 (event_attrs backend event_type)

unfoldable pub count_unrecognised : Bytes → Bytes → Ingest → Ingest
count_unrecognised backend event_type = add unrecognised 1 (event_attrs backend event_type)

unfoldable pub count_partition_missing : Bytes → Ingest → Ingest
count_partition_missing backend = add partition_missed 1 (backend_attr backend)

unfoldable pub count_join_opened : Bytes → Ingest → Ingest
count_join_opened backend = add joins_opened 1 (backend_attr backend)

unfoldable pub count_joins_closed : Bytes → Bytes → ℕ → Ingest → Ingest
count_joins_closed backend end_reason zero m = m
count_joins_closed backend end_reason (suc n) m =
    add joins_closed (suc n) ((codes "backend", backend) ∷ (codes "end_reason", end_reason) ∷ []) m

unfoldable pub count_close_unmatched : Bytes → Ingest → Ingest
count_close_unmatched backend = add close_unmatched 1 (backend_attr backend)

unfoldable pub count_close_out_of_order : Bytes → Ingest → Ingest
count_close_out_of_order backend = add close_out_of_order 1 (backend_attr backend)

-- instruments told apart by their places
place : Instrument → ℕ
place requests = 0
place duration = 1
place stored = 2
place duplicates = 3
place rejected = 4
place unrecognised = 5
place partition_missed = 6
place joins_opened = 7
place joins_closed = 8
place close_unmatched = 9
place close_out_of_order = 10

unfoldable pub same_instrument : Instrument → Instrument → Bool
unfolding place
same_instrument i j = place i == place j
