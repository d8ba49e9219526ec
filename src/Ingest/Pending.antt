-- ===== src/Ingest/Pending.antt =====
-- `pending_projection_sequences` of crates/perseval-store/src/workspace/ingest.rs: the loop over the
-- rows that the query returns, in the order of their sequences. The counts are usize of 64 bits.
pub mod Prefix
use perseval.Base.{
  ℕ, List, [], ◌∷◌, Bool, true, false, ◌&&◌, ◌||◌, not, ltb, if◌then◌else◌, saturating_add, u64_max,
  map,
}

-- A row of the journal: its sequence, its spans and its bytes, as `max(0)` leaves them.
pub record JournalRow : Type 0 where
  pub sequence : ℕ
  pub accepted_spans : ℕ
  pub normalized_bytes : ℕ

-- The condition of the `break`; `taken` says whether a row was taken before.
unfoldable pub stops : ℕ → ℕ → Bool → ℕ → ℕ → JournalRow → Bool
stops maximum_spans maximum_bytes taken spans bytes row =
    taken
    && (ltb maximum_spans (saturating_add u64_max spans row.accepted_spans)
        || ltb maximum_bytes (saturating_add u64_max bytes row.normalized_bytes))

unfoldable pub take_rows : ℕ → ℕ → Bool → ℕ → ℕ → List JournalRow → List JournalRow
unfolding stops
take_rows maximum_spans maximum_bytes taken spans bytes [] = []
take_rows maximum_spans maximum_bytes taken spans bytes (row ∷ rows) =
    let rest =
      take_rows maximum_spans maximum_bytes true (saturating_add u64_max spans row.accepted_spans)
        (saturating_add u64_max bytes row.normalized_bytes) rows in
    if stops maximum_spans maximum_bytes taken spans bytes row then [] else row ∷ rest

-- The rows, at most `maximum_rows` of them, are those that are not projected yet.
unfoldable pub pending_projection_sequences : ℕ → ℕ → List JournalRow → List ℕ
unfolding take_rows
pending_projection_sequences maximum_spans maximum_bytes rows =
    map (λ row. row.sequence) (take_rows maximum_spans maximum_bytes false 0 0 rows)
