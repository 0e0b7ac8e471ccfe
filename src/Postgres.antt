-- ===== src/Postgres.antt =====
-- internal/ingest/store/postgres/postgres.go: `RecordEvent` over the two tables of migrations/.
-- Each SQL statement is a function from a snapshot of the database to a reply; a transaction's
-- effects are on a snapshot of its own, which replaces the database when it is committed.
pub mod Tables
pub mod Statements
pub mod Replies
pub mod Reasons
pub mod Record
pub mod Keys
pub mod Invariant
pub mod OpenRows
pub mod History
pub mod Atomic
pub mod OutOfOrder
pub mod Closing
pub mod Kept
pub mod Latest
pub mod Departure
pub mod Stay
pub mod Race
pub mod Events
pub mod Counts
pub mod Fair
