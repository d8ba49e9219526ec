-- ===== src/Reviews/Submit.antt =====
-- `submit_annotation_revision`, `validate_review_answer` and `validate_evidence_keys` of
-- crates/perseval-store/src/workspace/reviews.rs.
pub mod Heads
use Prim.Native.String.{String}
use perseval.Base.{
  ℕ, List, [], ◌∷◌, Option, none, some, Bool, true, false, if◌then◌else◌, ◌+◌, ◌==◌, ◌||◌, ◌&&◌,
  not, same, any, find, update, contains, include, text_dec, latest,
}
use perseval.Reviews.State.{
  Store, Queue, Task, Assignment, Annotation, Label, TaskStatus, Authority, Externals, Error,
  Result, ok, err, is_human, is_blind, is_completed, is_cancelled, same_label, task_named,
  queue_named, assigned, persist_status,
}
use perseval.Reviews.Truth.{resolve_task_status}

-- What a reviewer hands in.
pub record Answer : Type 0 where
  pub label : Label
  pub explanation : String
  pub evidence_keys : List String

unfoldable pub has_duplicate : List String → Bool
has_duplicate [] = false
has_duplicate (key ∷ keys) = contains text_dec key keys || has_duplicate keys

unfoldable pub evidence_known : String → List (String × String) → List String → Bool
evidence_known case_id evidence [] = true
evidence_known case_id evidence (key ∷ keys) =
    any (λ e. same e.0 case_id && same e.1 key) evidence && evidence_known case_id evidence keys

abbrev pub latest_revision : String → List Annotation → Option Annotation
latest_revision annotation_id rows =
    latest (λ a. a.annotation_revision) (λ a. same a.annotation_id annotation_id) rows

abbrev pub head_of : Option Annotation → Option String
head_of none = none
head_of (some a) = some a.revision_id

abbrev pub next_number : Option Annotation → ℕ
next_number none = 1
next_number (some a) = a.annotation_revision + 1

abbrev pub same_head : Option String → Option String → Bool
same_head none none = true
same_head (some a) (some b) = same a b
same_head none (some b) = false
same_head (some a) none = false

abbrev pub is_some : Option Annotation → Bool
is_some none = false
is_some (some a) = true

-- `INSERT INTO annotation_revisions`, with its unique columns.
unfoldable pub insert_revision : Annotation → List Annotation → Option (List Annotation)
insert_revision row rows =
    if any
      (λ a.
        same a.revision_id row.revision_id
        || (same a.annotation_id row.annotation_id
            && (a.annotation_revision == row.annotation_revision)))
      rows
    then none
    else some (row ∷ rows)

module _ (ext : Externals) where
  unfoldable pub validate_review_answer : Answer → Option Error
  unfolding has_duplicate
  validate_review_answer answer =
      if ext.is_blank answer.explanation
        || (not (same_label answer.label Label.abstain)
            && (elim answer.evidence_keys [ [] ↦ true | _ ∷ _ ↦ false ]))
      then some Error.incomplete_answer
      else if any (λ key. ext.is_blank key) answer.evidence_keys
          || has_duplicate answer.evidence_keys
      then some Error.invalid_keys
      else none

  abbrev pub annotation_of :
      Task → Queue → String → Answer → Option String → ℕ → Option Annotation → Annotation
  annotation_of task queue reviewer_id answer head now last =
      let id =
        ext.annotation_identity task.case_id queue.annotation_schema_release_id reviewer_id in
      record {
        annotation_id = id;
        revision_id =
            ext.annotation_revision_identity id (next_number last) head task.task_id answer.label
              (ext.trim answer.explanation) answer.evidence_keys now;
        case_id = task.case_id;
        source_task_id = task.task_id;
        reviewer_id = reviewer_id;
        annotation_revision = next_number last;
        supersedes_revision_id = head_of last;
        label = answer.label;
        explanation = ext.trim answer.explanation;
        evidence_keys = answer.evidence_keys;
      }

  -- The writes of an accepted revision.
  unfoldable pub append_revision : Task → Annotation → Store → Result Annotation
  unfolding insert_revision
  append_revision task row s = elim (insert_revision row s.revisions) [
    | none ↦ err Error.duplicate_row
    | some revisions ↦
        let t = record s {
          annotations = include text_dec row.annotation_id s.annotations;
          revisions = revisions;
          assignments =
              update (assigned task.task_id row.reviewer_id)
                (λ a. record a { submitted = some row.revision_id }) s.assignments;
        } in
        ok row (record t {
          tasks = persist_status task.task_id (resolve_task_status ext t task) t.tasks;
        })
  ]

  -- From the loaded task and queue on.
  unfoldable pub submit_loaded :
      Task → Queue → String → Option String → Answer → ℕ → Store → Result Annotation
  unfolding append_revision evidence_known
  submit_loaded task queue reviewer_id head answer now s =
      if is_cancelled task.status
      then err Error.task_closed
      else if not (any (assigned task.task_id reviewer_id) s.assignments)
      then err Error.not_assigned
      else if not (evidence_known task.case_id s.evidence answer.evidence_keys)
      then err Error.unknown_evidence
      else (let last =
            latest_revision
              (ext.annotation_identity task.case_id queue.annotation_schema_release_id reviewer_id)
              s.revisions in
          if is_blind queue.mode && (is_completed task.status && is_some last)
          then err Error.answers_locked
          else if not (same_head (head_of last) head)
          then err Error.head_changed
          else append_revision task (annotation_of task queue reviewer_id answer head now last) s)

  unfoldable pub submit_annotation_revision :
      String → String → Option String → Answer → Authority → ℕ → Store → Result Annotation
  unfolding validate_review_answer submit_loaded
  submit_annotation_revision task_id reviewer_id head answer authority now s =
      if not (is_human authority)
      then err Error.not_human
      else (elim (validate_review_answer answer) [
        | some e ↦ err e
        | none ↦ elim (find (task_named task_id) s.tasks) [
          | none ↦ err Error.task_not_found
          | some task ↦ elim (find (queue_named task.queue_id) s.queues) [
            | none ↦ err Error.queue_not_found
            | some queue ↦ submit_loaded task queue reviewer_id head answer now s
          ]
        ]
      ])
