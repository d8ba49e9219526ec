-- ===== src/Controllers/Sequence/Laws.antt =====
-- Over every stream of sequence numbers.
use perseval.Base.{
  ℕ, suc, ◌+◌, ◌≤◌, ◌<◌, ◌≡◌, ◌↔◌, List, [], ◌∷◌, max, arith, u64_max, ◌-◌, All, ◌∙◌, ap,
}
use perseval.Controllers.Sequence.{
  SequenceStatus, in_order, duplicate, gap, SequenceTracker, observe,
}

-- What the three answers mean, for a sequence number of the u64 range.
pub observe_status :
    (sequence : ℕ) (t : SequenceTracker)
    → sequence ≤ u64_max
    → (((observe sequence t).1 ≡ duplicate) ↔ (sequence ≤ t.last_committed))
      × (((observe sequence t).1 ≡ in_order) ↔ (sequence ≡ t.last_committed + 1))
      × ((expected received : ℕ)
          → (observe sequence t).1 ≡ gap expected received
          → (expected ≡ t.last_committed + 1) × (received ≡ sequence) × (expected < received))
unfolding observe
observe_status sequence t b = (ground arith, ground arith, λ e r h. ground arith)

-- The stream as a subscriber feeds it.
unfoldable pub observe_all : List ℕ → SequenceTracker → SequenceTracker × List SequenceStatus
observe_all [] t = (t, [])
observe_all (sequence ∷ rest) t =
    let (u, status) = observe sequence t in
    let (v, statuses) = observe_all rest u in (v, status ∷ statuses)

abbrev pub largest : ℕ → List ℕ → ℕ
largest most [] = most
largest most (x ∷ xs) = largest (max most x) xs

-- What was skipped: the numbers in the gaps that were reported.
abbrev pub skipped : List SequenceStatus → ℕ
skipped [] = 0
skipped (gap expected received ∷ rest) = skipped rest + (received - expected)
skipped (in_order ∷ rest) = skipped rest
skipped (duplicate ∷ rest) = skipped rest

abbrev pub advances : List SequenceStatus → ℕ
advances [] = 0
advances (duplicate ∷ rest) = advances rest
advances (in_order ∷ rest) = suc (advances rest)
advances (gap expected received ∷ rest) = suc (advances rest)

advances-cons :
    (status : SequenceStatus) (rest : List SequenceStatus)
    → advances (status ∷ rest) + skipped (status ∷ rest)
      ≡ advances (status ∷ []) + skipped (status ∷ []) + advances rest + skipped rest
advances-cons in_order rest = omega arith
advances-cons duplicate rest = omega arith
advances-cons (gap expected received) rest = omega arith

observe_accounts :
    (sequence : ℕ) (t : SequenceTracker)
    → sequence ≤ u64_max
    → let (u, status) = observe sequence t in
      (u.last_committed ≡ max t.last_committed sequence)
      × (u.last_committed ≡ t.last_committed + advances (status ∷ []) + skipped (status ∷ []))
unfolding observe
observe_accounts sequence t b = ground arith

-- Over a whole stream the tracker holds the largest number seen, and accounts for the distance: each
-- step forward is an accepted number or one that a gap reported as skipped.
pub observe_all_accounts :
    (stream : List ℕ) (t : SequenceTracker)
    → All (λ n. n ≤ u64_max) stream
    → let (u, statuses) = observe_all stream t in
      (u.last_committed ≡ largest t.last_committed stream)
      × (u.last_committed ≡ t.last_committed + advances statuses + skipped statuses)
unfolding observe_all
observe_all_accounts [] t b = omega arith
observe_all_accounts (sequence ∷ rest) t b =
    let step = observe_accounts sequence t b.0 in
    let (last, total) = observe_all_accounts rest (observe sequence t).0 b.1 in
    (
      last ∙ ap (λ n. largest n rest) step.0,
      omega (
        arith,
        total,
        step.1,
        advances-cons (observe sequence t).1 (observe_all rest (observe sequence t).0).1,
      ),
    )
