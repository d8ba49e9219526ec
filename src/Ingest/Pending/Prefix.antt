-- ===== src/Ingest/Pending/Prefix.antt =====
-- What is taken is a prefix of the journal that fits, and that can be no longer.
use perseval.Base.{
  ℕ, List, [], ◌∷◌, ◌++◌, true, false, arith, inl, inr, refl, Bool-cases, u64_max, saturating_add,
  ◌≤◌, ◌<◌, ◌+◌, ◌≡◌, ◌⊎◌, ap, dec_lt, map,
}
use perseval.Ingest.Pending.{JournalRow, stops, take_rows, pending_projection_sequences}

abbrev pub spans_of : List JournalRow → ℕ
spans_of [] = 0
spans_of (row ∷ rows) = row.accepted_spans + spans_of rows

abbrev pub bytes_of : List JournalRow → ℕ
bytes_of [] = 0
bytes_of (row ∷ rows) = row.normalized_bytes + bytes_of rows

stops-over :
    (maximum_spans maximum_bytes spans bytes : ℕ) (row : JournalRow)
    → stops maximum_spans maximum_bytes true spans bytes row ≡ true
    → (maximum_spans < spans + row.accepted_spans) ⊎ (maximum_bytes < bytes + row.normalized_bytes)
unfolding stops
stops-over maximum_spans maximum_bytes spans bytes row h =
    elim (dec_lt maximum_spans (spans + row.accepted_spans)) [
      | yes p ↦ inl p
      | no p ↦ inr (ground arith)
    ]

goes_on :
    (maximum_spans maximum_bytes spans bytes : ℕ) (row : JournalRow)
    → maximum_spans < u64_max
    → maximum_bytes < u64_max
    → stops maximum_spans maximum_bytes true spans bytes row ≡ false
    → (saturating_add u64_max spans row.accepted_spans ≡ spans + row.accepted_spans)
      × (saturating_add u64_max bytes row.normalized_bytes ≡ bytes + row.normalized_bytes)
      × (spans + row.accepted_spans ≤ maximum_spans)
      × (bytes + row.normalized_bytes ≤ maximum_bytes)
unfolding stops
goes_on maximum_spans maximum_bytes spans bytes row ms mb h = ground arith

-- What was taken before and what is taken now fits; and the row that would come next does not.
take_rows-fits :
    (maximum_spans maximum_bytes spans bytes : ℕ) (rows : List JournalRow)
    → spans ≤ maximum_spans
    → bytes ≤ maximum_bytes
    → maximum_spans < u64_max
    → maximum_bytes < u64_max
    → let taken = take_rows maximum_spans maximum_bytes true spans bytes rows in
      (spans + spans_of taken ≤ maximum_spans)
      × (bytes + bytes_of taken ≤ maximum_bytes)
      × (left : List JournalRow) × (taken ++ left ≡ rows)
      × ((next : JournalRow) (later : List JournalRow)
          → left ≡ next ∷ later
          → (maximum_spans < spans + spans_of taken + next.accepted_spans)
            ⊎ (maximum_bytes < bytes + bytes_of taken + next.normalized_bytes))
unfolding take_rows
take_rows-fits maximum_spans maximum_bytes spans bytes [] hs hb ms mb =
    (omega arith, omega arith, [], refl, λ next later e. cc)
take_rows-fits maximum_spans maximum_bytes spans bytes (row ∷ rows) hs hb ms mb =
    elim (Bool-cases (stops maximum_spans maximum_bytes true spans bytes row)) [
      | inl h ↦
          let over = stops-over maximum_spans maximum_bytes spans bytes row h in
          rw (h, take_rows)
            (omega arith, omega arith, row ∷ rows, refl, λ next later e. ground (arith, over))
      | inr h ↦
          let (sum, sum', fits, fits') =
            goes_on maximum_spans maximum_bytes spans bytes row ms mb h in
          let (le, le', left, parts, next_over) =
            take_rows-fits maximum_spans maximum_bytes
              (saturating_add u64_max spans row.accepted_spans)
              (saturating_add u64_max bytes row.normalized_bytes) rows (omega (arith, sum, fits))
              (omega (arith, sum', fits')) ms mb in
          rw (h, take_rows)
            (
              omega (arith, le, sum),
              omega (arith, le', sum'),
              left,
              ap (◌∷◌ row) parts,
              λ next later e. elim (next_over next later e) [
                | inl o ↦ inl (omega (arith, o, sum))
                | inr o ↦ inr (omega (arith, o, sum'))
              ],
            )
    ]

-- For limits below 2^64 - 1, if the first row fits both of them, what is taken is a prefix of the rows that fits them, and
-- where a row is left, taking it too would have gone beyond a limit.
pub pending-maximal :
    (maximum_spans maximum_bytes : ℕ) (row : JournalRow) (rows : List JournalRow)
    → maximum_spans < u64_max
    → maximum_bytes < u64_max
    → row.accepted_spans ≤ maximum_spans
    → row.normalized_bytes ≤ maximum_bytes
    → let taken = take_rows maximum_spans maximum_bytes false 0 0 (row ∷ rows) in
      (pending_projection_sequences maximum_spans maximum_bytes (row ∷ rows)
        ≡ map (λ r. r.sequence) taken)
      × (spans_of taken ≤ maximum_spans)
      × (bytes_of taken ≤ maximum_bytes)
      × (left : List JournalRow) × (taken ++ left ≡ row ∷ rows)
      × ((next : JournalRow) (later : List JournalRow)
          → left ≡ next ∷ later
          → (maximum_spans < spans_of taken + next.accepted_spans)
            ⊎ (maximum_bytes < bytes_of taken + next.normalized_bytes))
unfolding take_rows pending_projection_sequences stops
pending-maximal maximum_spans maximum_bytes row rows ms mb hs hb =
    let sum : saturating_add u64_max 0 row.accepted_spans ≡ row.accepted_spans = ground arith in
    let sum' : saturating_add u64_max 0 row.normalized_bytes ≡ row.normalized_bytes =
      ground arith in
    let (le, le', left, parts, over) =
      take_rows-fits maximum_spans maximum_bytes (saturating_add u64_max 0 row.accepted_spans)
        (saturating_add u64_max 0 row.normalized_bytes) rows (omega (arith, sum, hs))
        (omega (arith, sum', hb)) ms mb in
    (
      refl,
      omega (arith, le, sum),
      omega (arith, le', sum'),
      left,
      ap (◌∷◌ row) parts,
      λ next later e. elim (over next later e) [
        | inl o ↦ inl (omega (arith, o, sum))
        | inr o ↦ inr (omega (arith, o, sum'))
      ],
    )
