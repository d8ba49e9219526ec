-- ===== src/Reviews.antt =====
-- Human review of assessments: crates/perseval-store/src/workspace/reviews.rs. `State` has the tables,
-- `Truth` what the reviewers agree on, `Enqueue`, `Assign`, `Submit` and `Adjudicate` the transactions.
pub mod State
pub mod Truth
pub mod Enqueue
pub mod Assign
pub mod Submit
pub mod Adjudicate
pub mod Blind
pub mod Steps
mod Tests
