-- ===== src/Reviews/Adjudicate.antt =====
-- `adjudicate_review_task` of crates/perseval-store/src/workspace/reviews.rs.
pub mod Decides
use Prim.Native.String.{String}
use perseval.Base.{
  ℕ, List, [], ◌∷◌, Option, none, some, Bool, true, false, if◌then◌else◌, ◌+◌, ◌==◌, ◌||◌, ◌&&◌,
  not, same, any, find,
}
use perseval.Reviews.State.{
  Store, Task, Assignment, Adjudication, TaskStatus, Authority, Externals, Error, Result, ok, err,
  is_human, is_awaiting, task_named, assigned, persist_status,
}
use perseval.Reviews.Truth.{current_annotations, revision_ids, same_set, latest_adjudication}
use perseval.Reviews.Submit.{Answer, same_head, evidence_known, validate_review_answer}

abbrev pub adjudication_head : Option Adjudication → Option String
adjudication_head none = none
adjudication_head (some a) = some a.revision_id

abbrev pub next_adjudication : Option Adjudication → ℕ
next_adjudication none = 1
next_adjudication (some a) = a.adjudication_revision + 1

-- `INSERT INTO adjudication_revisions`, with its unique columns.
unfoldable pub insert_adjudication : Adjudication → List Adjudication → Option (List Adjudication)
insert_adjudication row rows =
    if any
      (λ a.
        same a.revision_id row.revision_id
        || (same a.adjudication_id row.adjudication_id
            && (a.adjudication_revision == row.adjudication_revision)))
      rows
    then none
    else some (row ∷ rows)

-- `INSERT INTO adjudication_inputs`, one for each revision; a pair is unique.
unfoldable pub insert_inputs :
    String → List String → List (String × String) → Option (List (String × String))
insert_inputs revision_id [] inputs = some inputs
insert_inputs revision_id (id ∷ ids) inputs =
    let rest = insert_inputs revision_id ids ((revision_id, id) ∷ inputs) in
    if any (λ e. same e.0 revision_id && same e.1 id) inputs then none else rest

module _ (ext : Externals) where
  abbrev pub adjudication_of :
      Task → List String → Option String → Answer → String → ℕ → Option Adjudication → Adjudication
  adjudication_of task ids head answer adjudicated_by now last =
      let id = ext.adjudication_identity task.case_id in
      record {
        adjudication_id = id;
        revision_id =
            ext.adjudication_revision_identity id (next_adjudication last) head ids answer.label
              (ext.trim answer.explanation) answer.evidence_keys adjudicated_by now;
        adjudication_revision = next_adjudication last;
        supersedes_revision_id = adjudication_head last;
        task_id = task.task_id;
        annotation_revision_ids = ids;
        label = answer.label;
        explanation = ext.trim answer.explanation;
        evidence_keys = answer.evidence_keys;
        adjudicated_by = adjudicated_by;
      }

  -- The writes of an accepted adjudication.
  unfoldable pub append_adjudication : Task → Adjudication → Store → Result Adjudication
  unfolding insert_adjudication insert_inputs
  append_adjudication task row s = elim (insert_adjudication row s.adjudications) [
    | none ↦ err Error.duplicate_row
    | some adjudications ↦
        elim (insert_inputs row.revision_id row.annotation_revision_ids s.adjudication_inputs) [
          | none ↦ err Error.duplicate_row
          | some inputs ↦ ok row (record s {
            adjudications = adjudications;
            adjudication_inputs = inputs;
            tasks = persist_status task.task_id TaskStatus.completed s.tasks;
          })
        ]
  ]

  -- From the loaded task on.
  unfoldable pub adjudicate_loaded :
      Task → List String → Option String → Answer → String → ℕ → Store → Result Adjudication
  unfolding append_adjudication
  adjudicate_loaded task ids head answer adjudicated_by now s =
      if not (is_awaiting task.status)
      then err Error.not_awaiting
      else if any (assigned task.task_id adjudicated_by) s.assignments
      then err Error.reviewer_adjudicates
      else if not
          (same_set ids (revision_ids (current_annotations task.task_id s.revisions s.assignments)))
      then err Error.other_annotations
      else if not (evidence_known task.case_id s.evidence answer.evidence_keys)
      then err Error.unknown_evidence
      else (let last =
            latest_adjudication (ext.adjudication_identity task.case_id) s.adjudications in
          if not (same_head (adjudication_head last) head)
          then err Error.head_changed
          else append_adjudication task
              (adjudication_of task ids head answer adjudicated_by now last) s)

  unfoldable pub adjudicate_review_task :
      String
      → List String
      → Option String
      → Answer
      → String
      → Authority
      → ℕ
      → Store
      → Result Adjudication
  unfolding validate_review_answer adjudicate_loaded
  adjudicate_review_task task_id ids head answer adjudicated_by authority now s =
      if not (is_human authority)
      then err Error.not_human
      else (elim (validate_review_answer ext answer) [
        | some e ↦ err e
        | none ↦
            if ext.is_blank adjudicated_by
            then err Error.empty_reviewer
            else (elim (find (task_named task_id) s.tasks) [
              | none ↦ err Error.task_not_found
              | some task ↦ adjudicate_loaded task ids head answer adjudicated_by now s
            ])
      ])
