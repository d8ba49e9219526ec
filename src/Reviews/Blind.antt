-- ===== src/Reviews/Blind.antt =====
-- Who sees what the model said: `blind_task_model_reveal_allowed`, the decision in
-- `review_task_for_reviewer`, and `assessment_blind_embargo` of
-- crates/perseval-store/src/workspace/reviews.rs.
pub mod Hidden
use Prim.Native.String.{String}
use mathlib.Core.Option
use perseval.Base.{
  List, [], ◌∷◌, Option, none, some, Bool, true, false, if◌then◌else◌, ltb, ◌==◌, ◌&&◌, ◌||◌, not,
  same, any, find,
}
use perseval.Reviews.State.{
  Store, Queue, Task, Split, Externals, is_blind, is_test, is_cancelled, is_completed, queue_named,
}

abbrev pub same_split : Split → Split → Bool
same_split Split.train Split.train = true
same_split Split.calibration Split.calibration = true
same_split Split.test Split.test = true
same_split _ _ = false

-- A threshold policy rests on a calibration release whose split has the task's group.
unfoldable pub threshold_is_frozen : Split → Store → Task → Queue → Bool
threshold_is_frozen split s task queue =
    any
      (λ c.
        same c.project_id task.project_id
        && (same c.evaluator_release_id queue.evaluator_release_id
            && (same c.annotation_schema_release_id queue.annotation_schema_release_id
                && (any (λ p. same p c.calibration_release_id) s.threshold_policies
                    && any
                        (λ g.
                          same g.split_release_id c.split_release_id
                          && (same g.leakage_group_id task.leakage_group_id
                              && same_split g.split split))
                        s.split_groups))))
      s.calibration_releases

unfoldable pub blind_task_model_reveal_allowed : Store → Task → Queue → Bool
unfolding threshold_is_frozen
blind_task_model_reveal_allowed s task queue =
    if not (is_completed task.status)
    then false
    else if not (is_test task.split)
    then true
    else threshold_is_frozen Split.test s task queue

-- Whether the reviewer's view of the task has the assessment.
unfoldable pub reveals : Store → Task → Queue → Bool
unfolding blind_task_model_reveal_allowed
reveals s task queue = not (is_blind queue.mode) || blind_task_model_reveal_allowed s task queue

-- The condition on a row of the join of tasks and queues.
unfoldable pub embargoes : Store → Task → Queue → Bool
unfolding threshold_is_frozen
embargoes s task queue =
    is_blind queue.mode
    && (not (is_cancelled task.status)
        && (not (is_completed task.status)
            || (is_test task.split && not (threshold_is_frozen task.split s task queue))))

unfoldable pub is_embargoed : Store → String → Task → Bool
unfolding embargoes
is_embargoed s assessment_id task =
    same task.assessment_id assessment_id && (elim (find (queue_named task.queue_id) s.queues) [
      | none ↦ false
      | some queue ↦ embargoes s task queue
    ])

module _ (ext : Externals) where
  -- `ORDER BY t.created_at_unix_ms, t.task_id`
  abbrev pub task_before : Task → Task → Bool
  task_before a b =
      ltb a.created_at b.created_at
      || ((a.created_at == b.created_at) && ext.text_before a.task_id b.task_id)

  -- The first task that embargoes the assessment.
  unfoldable pub embargoing : Store → String → List Task → Option Task
  unfolding is_embargoed
  embargoing s assessment_id [] = none
  embargoing s assessment_id (task ∷ tasks) =
      let rest = embargoing s assessment_id tasks in
      if is_embargoed s assessment_id task
      then (elim rest [
        | none ↦ some task
        | some other ↦ if task_before other task then some other else some task
      ])
      else rest

  unfoldable pub assessment_blind_embargo : Store → String → Option (String × String)
  unfolding embargoing
  assessment_blind_embargo s assessment_id =
      Option.map (λ task. (task.task_id, task.queue_id)) (embargoing s assessment_id s.tasks)
