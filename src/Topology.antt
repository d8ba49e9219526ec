-- ===== src/Topology.antt =====
-- The topology of a trace: crates/perseval-store/src/workspace/topology.rs. `Walk` is the loop that
-- climbs a chain of parents, `Layout` the depth of every span, `Projection` the depth-first order of
-- a finalized trace and `Live` the incremental index of a live one.
pub mod Walk
pub mod Layout
pub mod Projection
pub mod Live
mod Tests
