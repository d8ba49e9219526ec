-- ===== src/Reviews/Enqueue.antt =====
-- `enqueue_review_task` of crates/perseval-store/src/workspace/reviews.rs.
pub mod Once
use Prim.Native.String.{String}
use perseval.Base.{
  ℕ, List, [], ◌∷◌, ◌++◌, none, some, Bool, true, false, if◌then◌else◌, ◌==◌, ◌&&◌, ◌||◌, not, same,
  any, find, get, count, text_dec, keyed,
}
use perseval.Assessments.State.{AssessmentRecord}
use perseval.Reviews.State.{
  Store, Queue, Task, AnnotationCase, SplitGroup, SelectionReason, TaskStatus, Externals, Error,
  Result, ok, err, is_blind, is_random_audit, queue_named,
}

abbrev pub case_named : String → AnnotationCase → Bool
case_named case_id row = keyed (λ (c : AnnotationCase). c.case_id) case_id row

-- The group of the case in the split of the queue.
abbrev pub group_of : Queue → AnnotationCase → SplitGroup → Bool
group_of queue row g =
    same g.split_release_id queue.split_release_id && same g.leakage_group_id row.leakage_group_id

-- The assessment is one of this exact trace, by the release of the queue.
abbrev pub assessment_matches : String → Queue → AnnotationCase → AssessmentRecord → Bool
assessment_matches assessment_id queue row a =
    same a.assessment_id assessment_id
    && (same a.project_id queue.project_id
        && (same a.target.logical_trace_id row.logical_trace_id
            && ((a.target.revision == row.revision)
                && (same a.target.evaluator_release_id queue.evaluator_release_id
                    && (same a.target.context_binding_id row.context_binding_id
                        && same a.target.projection_hash row.safe_projection_hash)))))

-- A task of the case whose queue is for the evaluator release.
abbrev pub calibrates : List Queue → String → String → Task → Bool
calibrates queues case_id evaluator_release_id t =
    same t.case_id case_id
    && any (λ q. same q.queue_id t.queue_id && same q.evaluator_release_id evaluator_release_id)
        queues

-- `INSERT INTO review_tasks`, with its unique columns.
unfoldable pub insert_task : Task → Store → Result Task
insert_task task s =
    if any
      (λ t.
        same t.task_id task.task_id
        || ((same t.queue_id task.queue_id && same t.case_id task.case_id)
            || (same t.case_id task.case_id && same t.assessment_id task.assessment_id)))
      s.tasks
    then err Error.duplicate_row
    else ok task (record s { tasks = s.tasks ++ task ∷ [] })

-- A blind queue takes a selected case only beside random ones.
unfoldable pub lacks_random_audit : Queue → SelectionReason → List Task → Bool
unfolding count
lacks_random_audit queue reason tasks =
    is_blind queue.mode
    && (not (is_random_audit reason)
        && ((queue.random_audit_basis_points == 0)
            || (count (λ t. same t.queue_id queue.queue_id && is_random_audit t.selection_reason)
                  tasks
                == 0)))

module _ (ext : Externals) where
  abbrev pub task_of : Queue → AnnotationCase → SplitGroup → String → SelectionReason → ℕ → ℕ → Task
  task_of queue row group assessment_id reason required now = record {
    task_id = ext.task_identity queue.queue_id row.case_id assessment_id reason;
    queue_id = queue.queue_id;
    case_id = row.case_id;
    project_id = queue.project_id;
    assessment_id = assessment_id;
    leakage_group_id = row.leakage_group_id;
    split = group.split;
    selection_reason = reason;
    required_reviewers = required;
    status = TaskStatus.pending;
    created_at = now;
  }

  -- From the loaded queue and case on.
  unfoldable pub enqueue_case :
      Queue → AnnotationCase → String → SelectionReason → ℕ → Store → Result Task
  unfolding insert_task lacks_random_audit
  enqueue_case queue row assessment_id reason now s =
      if not (
        same row.project_id queue.project_id
        && same row.annotation_schema_release_id queue.annotation_schema_release_id)
      then err Error.other_schema
      else (elim (find (group_of queue row) s.split_groups) [
        | none ↦ err Error.group_not_in_split
        | some group ↦
            if not (any (assessment_matches assessment_id queue row) s.assessments)
            then err Error.other_assessment
            else (elim (get text_dec queue.annotation_schema_release_id s.required_reviewers) [
              | none ↦ err Error.schema_not_found
              | some required ↦
                  if any (calibrates s.queues row.case_id queue.evaluator_release_id) s.tasks
                  then err Error.duplicate_case
                  else if not (is_blind queue.mode) && is_random_audit reason
                  then err Error.triage_random_audit
                  else if lacks_random_audit queue reason s.tasks
                  then err Error.no_random_audit
                  else insert_task (task_of queue row group assessment_id reason required now) s
            ])
      ])

  unfoldable pub enqueue_review_task :
      String → String → String → SelectionReason → ℕ → Store → Result Task
  unfolding enqueue_case
  enqueue_review_task queue_id case_id assessment_id reason now s =
      if ext.is_blank queue_id || (ext.is_blank case_id || ext.is_blank assessment_id)
      then err Error.empty_argument
      else (elim (find (queue_named queue_id) s.queues) [
        | none ↦ err Error.queue_not_found
        | some queue ↦
            if not queue.active
            then err Error.queue_inactive
            else (elim (find (case_named case_id) s.cases) [
              | none ↦ err Error.case_not_found
              | some row ↦ enqueue_case queue row assessment_id reason now s
            ])
      ])
