-- ===== src/Postgres/Tables.antt =====
-- The rows of `event_raw` and `participant_join`, the database, and the errors that the driver
-- returns. SQL's NULL is `none`.
use session_analysis_platfor.Prelude.{
  Bool, false, not, ◌&&◌, List, [], ◌∷◌, Option, none, some, Bytes, codes, any, is_empty,
  if◌then◌else◌, str_eq,
}
use session_analysis_platfor.Store.{StoreError, close_out_of_order, failure}
use session_analysis_platfor.Time.{Time, before}

pub record EventRow : Type 0 where
  pub event_id : Bytes
  pub backend : Bytes
  pub backend_event_id : Option Bytes
  pub event_type : Bytes
  pub occurred_at : Time
  pub received_at : Time
  pub room_name : Option Bytes
  pub room_sid : Option Bytes
  pub participant_identity : Option Bytes
  pub participant_sid : Option Bytes
  pub track_sid : Option Bytes
  pub payload : Bytes

pub record JoinRow : Type 0 where
  pub join_id : Bytes
  pub backend : Bytes
  pub room_name : Bytes
  pub participant_identity : Bytes
  pub room_sid : Option Bytes
  pub participant_sid : Option Bytes
  pub started_at : Time
  pub ended_at : Option Time
  pub end_reason : Option Bytes
  pub started_event_id : Bytes
  pub ended_event_id : Option Bytes
  pub created_at : Time
  pub updated_at : Time

-- a partition holds the times from its first bound up to, not including, its second
pub record Database : Type 0 where
  pub partitions : List (Time × Time)
  pub events : List EventRow
  pub joins : List JoinRow

within : Time → Time × Time → Bool
within t (from, to) = not (before t from) && before t to

unfoldable pub covered : List (Time × Time) → Time → Bool
unfolding within
covered ps t = any (within t) ps

-- `pgconn.PgError`, as far as the program reads it
pub record PgError : Type 0 where
  pub code : Bytes
  pub constraint_name : Bytes

pub data DriverError : Type 0 where
  pg : PgError → DriverError
  other : Bytes → DriverError

-- `isPartitionMissing`
unfoldable pub is_partition_missing : DriverError → Bool
is_partition_missing (pg e) = str_eq e.code (codes "23514") && is_empty e.constraint_name
is_partition_missing (other m) = false

-- `classifyClose`
unfoldable pub classify_close : DriverError → StoreError
classify_close (pg e) =
    if str_eq e.code (codes "22000")
    then close_out_of_order
    else failure (codes "postgres: close join")
classify_close (other m) = failure (codes "postgres: close join")

-- `nullable`
unfoldable pub nullable : Bytes → Option Bytes
nullable [] = none
nullable (c ∷ s) = some (c ∷ s)
