-- ===== src/Service.antt =====
-- The live service: crates/perseval-service/src. `Admission` is the byte budget of live.rs, `Deltas`
-- the delta hub of live.rs, `Supervision` is supervision.rs.
pub mod Admission
pub mod Supervision
pub mod Deltas
pub mod Retry
mod Tests
