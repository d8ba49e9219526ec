-- ===== src/Reviews/Enqueue/Once.antt =====
-- What an accepted `enqueue_review_task` of crates/perseval-store/src/workspace/reviews.rs wrote.
use Prim.Native.String.{String}
use perseval.Base.{
  ℕ, ◌≡◌, [], ◌∷◌, ◌++◌, some, true, false, ◌&&◌, find-Member, arith, inl, any-Member, any-last,
  eq→same, inr, Option-cases, same, find, any, get, text_dec, sym,
}
use perseval.Reviews.State.{
  Store, Queue, Task, AnnotationCase, SelectionReason, Externals, ok, queue_named,
}
use perseval.Reviews.Enqueue.{
  case_named, group_of, calibrates, insert_task, enqueue_case, enqueue_review_task,
}

calibrates-both :
    (queue : Queue) (task : Task) (other : Queue)
    → queue.queue_id ≡ task.queue_id
    → queue.evaluator_release_id ≡ other.evaluator_release_id
    → (same queue.queue_id task.queue_id
        && same queue.evaluator_release_id other.evaluator_release_id)
      ≡ true
calibrates-both queue task other h k = ground (
  arith,
  eq→same queue.queue_id task.queue_id h,
  eq→same queue.evaluator_release_id other.evaluator_release_id k,
)

module _ (ext : Externals) where
  pub enqueue_case-inverts :
      (queue : Queue) (row : AnnotationCase) (assessment_id : String) (reason : SelectionReason)
      (now : ℕ) (s t : Store) (task : Task)
      → enqueue_case ext queue row assessment_id reason now s ≡ ok task t
      → (any (calibrates s.queues row.case_id queue.evaluator_release_id) s.tasks ≡ false)
        × (t.tasks ≡ s.tasks ++ task ∷ [])
        × (t.queues ≡ s.queues)
        × (t.cases ≡ s.cases)
        × (task.case_id ≡ row.case_id)
        × (task.queue_id ≡ queue.queue_id)
        × (t.assignments ≡ s.assignments)
  unfolding enqueue_case insert_task
  enqueue_case-inverts queue row assessment_id reason now s t task h =
      elim (Option-cases (find (group_of queue row) s.split_groups)) [
        | inl e ↦ absurd (ground arith)
        | inr (group, e) ↦
            elim (Option-cases
              (get text_dec queue.annotation_schema_release_id s.required_reviewers)) [
                | inl f ↦ absurd (ground arith)
                | inr (required, f) ↦ (
                  ground arith,
                  ground arith,
                  ground arith,
                  ground arith,
                  ground arith,
                  ground arith,
                  ground arith,
                )
              ]
      ]

  pub enqueue-inverts :
      (queue_id case_id assessment_id : String) (reason : SelectionReason) (now : ℕ) (s t : Store)
      (task : Task)
      → enqueue_review_task ext queue_id case_id assessment_id reason now s ≡ ok task t
      → (queue : Queue) × (row : AnnotationCase) × (find (queue_named queue_id) s.queues
          ≡ some queue)
        × (find (case_named case_id) s.cases ≡ some row)
        × (enqueue_case ext queue row assessment_id reason now s ≡ ok task t)
  unfolding enqueue_review_task
  enqueue-inverts queue_id case_id assessment_id reason now s t task h =
      elim (Option-cases (find (queue_named queue_id) s.queues)) [
        | inl e ↦ absurd (ground arith)
        | inr (queue, e) ↦ elim (Option-cases (find (case_named case_id) s.cases)) [
          | inl f ↦ absurd (ground arith)
          | inr (row, f) ↦ (queue, row, e, f, ground arith)
        ]
      ]

  -- The new task stands in the way of every queue for the evaluator release.
  pub enqueued-calibrates :
      (queue_id case_id assessment_id : String) (reason : SelectionReason) (now : ℕ) (s t : Store)
      (task : Task) (queue other : Queue) (row : AnnotationCase)
      → find (queue_named queue_id) s.queues ≡ some queue
      → find (case_named case_id) s.cases ≡ some row
      → other.evaluator_release_id ≡ queue.evaluator_release_id
      → enqueue_review_task ext queue_id case_id assessment_id reason now s ≡ ok task t
      → any (calibrates s.queues row.case_id other.evaluator_release_id) t.tasks ≡ true
  enqueued-calibrates queue_id case_id assessment_id reason now s t task queue other row listed
        there same_release h =
      let (q, row', e, f, accepted) =
        enqueue-inverts queue_id case_id assessment_id reason now s t task h in
      let (_, tasks, _, _, of_case, of_queue, _) =
        enqueue_case-inverts q row' assessment_id reason now s t task accepted in
      let same_case : task.case_id ≡ row.case_id = cc in
      let same_queue : queue.queue_id ≡ task.queue_id = cc in
      let (m, _) = find-Member (queue_named queue_id) s.queues queue listed in
      let joined =
        any-Member
          (λ r.
            same r.queue_id task.queue_id && same r.evaluator_release_id other.evaluator_release_id)
          s.queues queue m (calibrates-both queue task other same_queue (sym same_release)) in
      let meets : calibrates s.queues row.case_id other.evaluator_release_id task ≡ true =
        ground (arith, eq→same task.case_id row.case_id same_case) in
      rw tasks
        (any-last (calibrates s.queues row.case_id other.evaluator_release_id) s.tasks task meets)
