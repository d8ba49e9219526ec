-- ===== src/Ingest.antt =====
-- The ingest of spans: crates/perseval-store/src/workspace/ingest.rs. `Pending` is the choice of the
-- journal rows that are projected together, `Summary` the incremental summary of a trace.
pub mod Pending
mod Tests
