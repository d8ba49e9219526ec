-- ===== src/Controllers.antt =====
-- The application's query controllers: apps/perseval-app/src/controllers. `Cache` is
-- bounded_cache.rs, `Requests` is query.rs and `Sequence` is subscription.rs.
pub mod Cache
pub mod Requests
pub mod Sequence
mod Tests
