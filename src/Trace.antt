-- ===== src/Trace.antt =====
-- The full-trace view: apps/perseval-app/src/screens/failure_inbox. `Timeline` is
-- full_trace_timeline.rs, `Tree` the state of full_trace_tree.rs.
pub mod Timeline
pub mod Tree
mod Tests
