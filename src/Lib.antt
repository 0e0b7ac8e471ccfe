-- ===== src/Lib.antt =====
-- The session analysis platform: its webhook ingest path.
--
-- A media server delivers webhooks at least once. The receiver (internal/ingest/webhook) reads the
-- body, lets the LiveKit adapter (internal/ingest/adapter/livekit) verify its signature and
-- translate it into a canonical event, and hands that to the store (internal/ingest/store and its
-- PostgreSQL implementation), which records the event and its effect on the joins in one
-- transaction. The event's id is derived from the delivery (internal/ingest/eventid), so that a
-- redelivery meets the row of the first one. Every step is counted (internal/ingest/metrics).
-- Two programs are built from the repository: the ingester, which serves this receiver, and the
-- query API, which serves a health check so far. Both read their configuration, set telemetry up
-- (internal/telemetry), and the ingester opens its pool of connections (internal/database).
--
-- Where the code is:
--   Session            internal/session/session.go: events, joins, the derived session
--   EventId            internal/ingest/eventid/eventid.go: FromBackendEventID, FromFields, encode, itoa
--   Store              internal/ingest/store/store.go: Result, the errors, Writer
--   Postgres/Tables, Statements
--                      internal/ingest/store/postgres/postgres.go: the SQL statements as functions on
--                      the two tables, with the keys and constraints of migrations/
--   Postgres/Record    the same file: RecordEvent, applyJoinEffect and close over these statements
--   Postgres/Record/Concurrent
--                      the same file: calls of RecordEvent at once
--   Livekit/Verify, Translate, JsonNum
--                      internal/ingest/adapter/livekit: the file of the same name
--   Livekit/Payload    translate.go: the struct `payload`, read as encoding/json reads it
--   Metrics            internal/ingest/metrics/metrics.go: one function per counting method
--   Metrics/Register   the same file: NewIngest
--   Config             internal/config/config.go: LoadService, LoadIngester and their readers
--   Webhook            internal/ingest/webhook/handler.go: ServeHTTP, cut where it returns early
--   Telemetry          internal/telemetry/telemetry.go: Setup and its shutdown function
--   Pool               internal/database/pool.go: Options, IngestOptions, Open
--   Process            the calls that a program makes to the world outside it
--   Programs/Ingester, Routes
--                      cmd/ingester/main.go: run and main, and the routes of its server
--   Programs/Queryapi  cmd/queryapi/main.go: run and main
--   Prelude, Time, Strconv, Livekit/Json, Livekit/Base64
--                      what the code uses of the language and of Go's standard library
-- The modules below these hold their proofs; Examples holds runs and instances.
--
-- State is passed on explicitly. A Go string or byte slice is a list of bytes. A call of ServeHTTP
-- takes an Exchange (the store, the measurements, the log, the span and the statuses written) to
-- the one that it leaves. A transaction works on a snapshot of the database, which replaces the
-- database at a commit; World says what happens outside the code in one call: the clock, the random
-- join id, and which round trips to the server fail, the answer to the commit included. Calls
-- come one after another, but for four modules. Postgres/Record/Concurrent lets any number of calls
-- of RecordEvent run at once: each is cut behind its INSERT and holds the key of its row until it
-- ends, while another INSERT of that key waits, as PostgreSQL documents of unique indexes; the
-- statements on the joins and the commit are one step. Webhook/Concurrent is the receiver over such
-- calls. Postgres/Record/Concurrent/Interleaved cuts the calls between their statements: what a
-- statement on the joins answers, and what becomes of the joins at any moment, is left open there, so
-- that it covers every order in which locks and snapshots may let them run. Postgres/Race takes two
-- transactions that close one join at once, by what PostgreSQL documents of READ COMMITTED. What
-- becomes of the joins when more of their statements interleave is not modelled.
--
-- Store/Contract states what the port promises of events, for a store of any type; Webhook/Redelivery,
-- Webhook/Runs and Programs/Routes take the receiver over any store, Webhook/Reached, Webhook/Retried
-- and Webhook/Whole the one over PostgreSQL. Livekit/Payload/Written says what it is for a payload to
-- be written in a JSON value, and Livekit/Translate/Delivered which event that is.
-- A start of a program is a function from what it finds outside (Outside) to the list of its calls
-- and its error; a deferred call stands behind the calls of the rest. Its server's goroutine is taken
-- to have started to listen when a signal comes, and the deadlines of contexts are left out.
--
-- Parameters: SHA-1 and the UUID package (UuidPackage), the JWT package and SHA-256
-- (CryptoPackage), the scanner of encoding/json and its float64 (JsonPackage), pgxpool (PoolPackage),
-- OpenTelemetry's constructors and shutdowns (Collector) and its meter (Meter), and the environment
-- of the process. Where two ids are compared, SHA-1 is assumed not to collide on the two inputs.
--
-- Bounds and fuel. The lengths that `encode` writes are taken modulo 2 ^ 32, and `itoa` works on
-- 64-bit integers with their wrap-around. Its loop runs on the free bytes of its buffer, 20 at the
-- start; an int64 has 19 digits at most. TrimSpace runs on the length of its text, since each round
-- drops a byte. `format_uint` writes at most 20 digits, and a 64-bit number has no more. The year of
-- a time is written with as many digits as it has.
--
-- PostgreSQL keeps microseconds of a time, and the model all nanoseconds; the times of deliveries
-- are whole seconds. It keeps a payload as jsonb, which normalises the text, and the model keeps the
-- bytes. Among joins with one start, `closeByIdentity` takes any, and the model the
-- first. Error texts are cut to their constant part.
--
-- Not modelled: the SQL of the migrations itself, deployment and benchmarks; row locks and snapshots
-- of the joins beyond what Postgres/Race takes from them; ServeMux's cleaning of paths and the text of
-- answers. The query side and correlation have no code yet. Of the functions under cmd and internal,
-- two have no definition, since they only fill a struct in or change a type (NewLiveKitHandler and
-- protoInt64.int64); of NewIngest, the descriptions and units of the instruments are left out.
mod Prelude
pub mod Time
pub mod Session
pub mod Strconv
pub mod EventId
pub mod Store
pub mod Postgres
pub mod Livekit
pub mod Metrics
pub mod Config
pub mod Process
pub mod Telemetry
pub mod Pool
pub mod Webhook
pub mod Programs
mod Examples
