-- ===== src/Reviews/Assign.antt =====
-- `assign_review_task` of crates/perseval-store/src/workspace/reviews.rs.
pub mod Bounded
use Prim.Native.String.{String}
use perseval.Base.{
  ℕ, List, [], ◌∷◌, ◌++◌, Option, none, some, Bool, true, false, if◌then◌else◌, ◌+◌, leb, ◌==◌,
  ◌||◌, ◌&&◌, not, same, any, find, count,
}
use perseval.Reviews.State.{
  Store, Task, Assignment, TaskStatus, Authority, Externals, Error, Result, ok, err, is_human,
  is_completed, is_cancelled, task_named, assigned, of_task, persist_status,
}

-- From the loaded task on: a reviewer who is assigned keeps the assignment.
unfoldable pub assign_loaded : String → Task → Store → Result Assignment
unfolding count
assign_loaded reviewer_id task s =
    if is_completed task.status || is_cancelled task.status
    then err Error.task_closed
    else (elim (find (assigned task.task_id reviewer_id) s.assignments) [
      | some existing ↦ ok existing s
      | none ↦
          let number = count (of_task task.task_id) s.assignments in
          if leb task.required_reviewers number
          then err Error.enough_reviewers
          else if any (λ a. of_task task.task_id a && (a.reviewer_ordinal == number + 1))
              s.assignments
          then err Error.duplicate_row
          else (let row : Assignment = record {
            task_id = task.task_id;
            reviewer_id = reviewer_id;
            reviewer_ordinal = number + 1;
            submitted = none;
          } in
              ok row (record s {
                assignments = s.assignments ++ row ∷ [];
                tasks = persist_status task.task_id TaskStatus.in_review s.tasks;
              }))
    ])

module _ (ext : Externals) where
  unfoldable pub assign_review_task : String → String → Authority → Store → Result Assignment
  unfolding assign_loaded
  assign_review_task task_id reviewer_id authority s =
      if not (is_human authority)
      then err Error.not_human
      else if ext.is_blank reviewer_id
      then err Error.empty_reviewer
      else (elim (find (task_named task_id) s.tasks) [
        | none ↦ err Error.task_not_found
        | some task ↦ assign_loaded reviewer_id task s
      ])
