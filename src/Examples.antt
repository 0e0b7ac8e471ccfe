-- ===== src/Examples.antt =====
-- Runs of the model at concrete inputs: tests, and each theorem at an input that meets its
-- hypotheses.
mod Data
mod Tables
mod EventIds
mod Receiver
mod Configured
mod Programs
mod Deliveries
mod Sessions
mod Concurrent
mod Payloads
mod Runs
mod Stays
