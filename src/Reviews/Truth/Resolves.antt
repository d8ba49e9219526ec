-- ===== src/Reviews/Truth/Resolves.antt =====
-- The stored status of a task and the truth that the calibration reads are two programs that agree.
use perseval.Base.{
  ◌≡◌, refl, ◌<◌, ◌↔◌, List, [], ◌∷◌, ltb, length, Bool-cases, arith, inl, inr, ◌⊎◌,
}
use perseval.Reviews.State.{Store, Task, Annotation, Externals, TaskStatus}
use perseval.Reviews.Truth.{
  current_annotations, agree, unanimous, Truth, panics, unresolved, resolved, ResolvedTruth,
  resolved_truth, resolve_task_status,
}

-- Some annotation has a first one.
unanimous-resolved :
    (annotations : List Annotation)
    → 0 < length annotations
    → (truth : ResolvedTruth) × (unanimous annotations ≡ resolved truth)
unanimous-resolved [] h = absurd (omega arith)
unanimous-resolved (a ∷ annotations) h = (_, refl)

Truth-cases :
    (t : Truth)
    → ((t ≡ panics) ⊎ (t ≡ unresolved)) ⊎ ((truth : ResolvedTruth) × (t ≡ resolved truth))
Truth-cases panics = inl (inl refl)
Truth-cases unresolved = inl (inr refl)
Truth-cases (resolved truth) = inr (truth, refl)

module _ (ext : Externals) where
  -- For a task that wants a reviewer, `resolve_task_status` says completed exactly if `resolved_truth`
  -- finds a truth, and it says that the review goes on exactly while annotations are missing.
  pub resolve_task_status-resolved_truth :
      (s : Store) (task : Task)
      → 0 < task.required_reviewers
      → ((resolve_task_status ext s task ≡ TaskStatus.completed)
          ↔ ((truth : ResolvedTruth) × (resolved_truth ext s task ≡ resolved truth)))
        × ((resolve_task_status ext s task ≡ TaskStatus.in_review) ↔ (
            length (current_annotations task.task_id s.revisions s.assignments)
            < task.required_reviewers))
  unfolding resolve_task_status resolved_truth
  resolve_task_status-resolved_truth s task h =
      let annotations = current_annotations task.task_id s.revisions s.assignments in
      let few = ltb (length annotations) task.required_reviewers in
      elim (Bool-cases few) [
        | inl missing ↦ (
          (λ e. absurd (ground arith), λ p. absurd (ground (arith, p.1))),
          (λ e. ground arith, λ e. ground arith),
        )
        | inr enough ↦ elim (Bool-cases (agree annotations)) [
          | inl same_ ↦
              let (truth, e) = unanimous-resolved annotations (ground arith) in
              (
                (λ c. (truth, ground arith), λ p. ground arith),
                (λ c. absurd (ground arith), λ c. absurd (ground arith)),
              )
          | inr differ ↦ elim (Truth-cases (resolved_truth ext s task)) [
            | inl (inl p) ↦ (
              (λ c. absurd (ground arith), λ q. absurd (ground (arith, q.1))),
              (λ c. absurd (ground arith), λ c. absurd (ground arith)),
            )
            | inl (inr p) ↦ (
              (λ c. absurd (ground arith), λ q. absurd (ground (arith, q.1))),
              (λ c. absurd (ground arith), λ c. absurd (ground arith)),
            )
            | inr (truth, e) ↦ (
              (λ c. (truth, e), λ p. ground arith),
              (λ c. absurd (ground arith), λ c. absurd (ground arith)),
            )
          ]
        ]
      ]
