-- ===== src/Ingest/Tests.antt =====
-- A journal of three rows.
use perseval.Base.{ℕ, List, [], ◌∷◌, ◌++◌, false, refl, arith, ◌≡◌, ◌≤◌, ◌<◌, ◌+◌, ◌⊎◌, map}
use perseval.Ingest.Pending.{JournalRow, take_rows, pending_projection_sequences}
use perseval.Ingest.Pending.Prefix.{spans_of, bytes_of, pending-maximal}

abbrev journal_row : ℕ → ℕ → JournalRow
journal_row sequence spans = record {
  sequence = sequence;
  accepted_spans = spans;
  normalized_bytes = 100;
}

abbrev later_rows : List JournalRow
later_rows = journal_row 8 3 ∷ journal_row 9 5 ∷ []

pending_test : pending_projection_sequences 7 1000 (journal_row 7 3 ∷ later_rows) ≡ 7 ∷ 8 ∷ []
unfolding pending_projection_sequences
pending_test = refl

-- A row above the limits is taken where it is the first.
first_row_test : pending_projection_sequences 2 1000 (journal_row 7 3 ∷ later_rows) ≡ 7 ∷ []
unfolding pending_projection_sequences
first_row_test = refl

pending-maximal_example :
    let rows = journal_row 7 3 ∷ later_rows in
    let taken = take_rows 7 1000 false 0 0 rows in
    (pending_projection_sequences 7 1000 rows ≡ map (λ r. r.sequence) taken)
    × (spans_of taken ≤ 7)
    × (bytes_of taken ≤ 1000)
    × (left : List JournalRow) × (taken ++ left ≡ rows)
    × ((next : JournalRow) (later : List JournalRow)
        → left ≡ next ∷ later
        → (7 < spans_of taken + next.accepted_spans)
          ⊎ (1000 < bytes_of taken + next.normalized_bytes))
pending-maximal_example =
    pending-maximal 7 1000 (journal_row 7 3) later_rows (omega arith) (omega arith) (omega arith)
      (omega arith)
