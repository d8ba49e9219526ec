-- ===== src/Controllers/Sequence.antt =====
-- `SequenceTracker` of apps/perseval-app/src/controllers/subscription.rs.
pub mod Laws
use perseval.Base.{ℕ, leb, ◌==◌, if◌then◌else◌, u64_max, saturating_add}

pub data SequenceStatus : Type 0 where
  in_order duplicate : SequenceStatus
  gap : ℕ → ℕ → SequenceStatus

pub record SequenceTracker : Type 0 where
  pub last_committed : ℕ

unfoldable pub from_snapshot : ℕ → SequenceTracker
from_snapshot sequence = record { last_committed = sequence }

unfoldable pub observe : ℕ → SequenceTracker → SequenceTracker × SequenceStatus
observe sequence t =
    let expected = saturating_add u64_max t.last_committed 1 in
    if leb sequence t.last_committed then (t, duplicate) else (
      record { last_committed = sequence },
      if sequence == expected then in_order else gap expected sequence,
    )

unfoldable pub resync : ℕ → SequenceTracker → SequenceTracker
resync sequence t = record { last_committed = sequence }
