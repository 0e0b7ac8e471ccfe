-- ===== src/Metrics/Register.antt =====
-- internal/ingest/metrics/metrics.go: `NewIngest`.
pub mod Order
use session_analysis_platfor.Prelude.{
  ◌≡◌, ◌≢◌, refl, List, [], ◌∷◌, ◌++◌, Option, none, some, Bytes, codes, str_eq, ne_of_str_eq, ap,
  arith,
}
use session_analysis_platfor.Metrics.{
  Ingest, Instrument, requests, duration, stored, duplicates, rejected, unrecognised,
  partition_missed, joins_opened, joins_closed, close_unmatched, close_out_of_order,
}

unfoldable pub name_of : Instrument → Bytes
name_of requests = codes "sap_ingest_webhook_requests_total"
name_of duration = codes "sap_ingest_webhook_duration_seconds"
name_of stored = codes "sap_ingest_events_stored_total"
name_of duplicates = codes "sap_ingest_events_duplicate_total"
name_of rejected = codes "sap_ingest_events_rejected_total"
name_of unrecognised = codes "sap_ingest_events_unrecognised_total"
name_of partition_missed = codes "sap_ingest_partition_missing_total"
name_of joins_opened = codes "sap_ingest_joins_opened_total"
name_of joins_closed = codes "sap_ingest_joins_closed_total"
name_of close_unmatched = codes "sap_ingest_join_close_unmatched_total"
name_of close_out_of_order = codes "sap_ingest_join_close_out_of_order_total"

-- the counters, in the order in which they are registered
abbrev pub counters : List Instrument
counters =
    requests ∷ stored ∷ duplicates ∷ rejected ∷ unrecognised ∷ partition_missed ∷ joins_opened
    ∷ joins_closed ∷ close_unmatched ∷ close_out_of_order ∷ []

-- What OpenTelemetry's meter answers when an instrument of a name is asked for.
abbrev pub Meter : Type 0
Meter = Bytes → Option Bytes

-- the variable `err`, and the names that the meter was asked for
pub record Registration : Type 0 where
  pub err : Option Bytes
  pub asked : List Bytes

ask : Meter → Bytes → Option Bytes → List Bytes → Registration
ask meter name (some e) asked = record { err = some e; asked = asked }
ask meter name none asked = record { err = meter name; asked = asked ++ name ∷ [] }

-- the closure `c`, and the histogram's `if err == nil { … }`
unfoldable pub register : Meter → Bytes → Registration → Registration
unfolding ask
register meter name r = ask meter name r.err r.asked

unfoldable pub register_all : Meter → List Instrument → Registration → Registration
register_all meter [] r = r
register_all meter (i ∷ is) r = register_all meter is (register meter (name_of i) r)

pub data Registered : Type 0 where
  misconfigured : Bytes → Registered
  measuring : Ingest → Registered

abbrev pub built : Option Bytes → Registered
built (some e) = misconfigured e
built none = measuring (record { measurements = [] })

unfoldable pub registration : Meter → Registration
registration meter =
    register meter (name_of duration)
      (register_all meter counters (record { err = none; asked = [] }))

unfoldable pub new_ingest : Meter → Registered
new_ingest meter = built (registration meter).err
