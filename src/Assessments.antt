-- ===== src/Assessments.antt =====
-- The jobs that assess finished traces: crates/perseval-store/src/workspace/assessments.rs. `State`
-- has the tables, `Budget` the daily budgets, `Jobs` the counts of a job, `Claim` and `Commit` the
-- two transactions of a worker, `Cancel` the cancellation.
pub mod State
pub mod Budget
pub mod Jobs
pub mod Claim
pub mod Commit
pub mod Steps
mod Tests
