-- ===== src/Reviews/State.antt =====
-- The tables of the review transactions (workspace/schema.rs) and their types (model.rs). Columns that
-- no modelled statement reads are left out.
use Prim.Native.String.{String}
use perseval.Assessments.State.{AssessmentRecord}
use perseval.Base.{ℕ, List, Option, Bool, true, false, ◌==◌, ◌&&◌, same, keyed, update}

pub data Authority : Type 0 where
  human mcp_agent importer : Authority

abbrev pub is_human : Authority → Bool
is_human Authority.human = true
is_human _ = false

pub data Label : Type 0 where
  completed partial failed abstain : Label

abbrev pub label_index : Label → ℕ
label_index Label.completed = 0
label_index Label.partial = 1
label_index Label.failed = 2
label_index Label.abstain = 3

abbrev pub same_label : Label → Label → Bool
same_label a b = label_index a == label_index b

pub data Mode : Type 0 where
  blind_calibration visible_triage : Mode

abbrev pub is_blind : Mode → Bool
is_blind Mode.blind_calibration = true
is_blind Mode.visible_triage = false

pub data TaskStatus : Type 0 where
  pending in_review awaiting_adjudication completed cancelled : TaskStatus

abbrev pub is_completed : TaskStatus → Bool
is_completed TaskStatus.completed = true
is_completed _ = false

abbrev pub is_cancelled : TaskStatus → Bool
is_cancelled TaskStatus.cancelled = true
is_cancelled _ = false

abbrev pub is_awaiting : TaskStatus → Bool
is_awaiting TaskStatus.awaiting_adjudication = true
is_awaiting _ = false

pub data Split : Type 0 where
  train calibration test : Split

abbrev pub is_test : Split → Bool
is_test Split.test = true
is_test _ = false

pub data SelectionReason : Type 0 where
  random_audit active_learning manual : SelectionReason

abbrev pub is_random_audit : SelectionReason → Bool
is_random_audit SelectionReason.random_audit = true
is_random_audit _ = false

pub record Queue : Type 0 where
  pub queue_id : String
  pub project_id : String
  pub evaluator_release_id : String
  pub split_release_id : String
  pub random_audit_basis_points : ℕ
  pub active : Bool
  pub mode : Mode
  pub annotation_schema_release_id : String

pub record Task : Type 0 where
  pub task_id : String
  pub queue_id : String
  pub case_id : String
  pub project_id : String
  pub assessment_id : String
  pub leakage_group_id : String
  pub split : Split
  pub selection_reason : SelectionReason
  pub required_reviewers : ℕ
  pub status : TaskStatus
  pub created_at : ℕ

-- A row of `review_assignments`.
pub record Assignment : Type 0 where
  pub task_id : String
  pub reviewer_id : String
  pub reviewer_ordinal : ℕ
  pub submitted : Option String

-- `AnnotationRevisionV1`
pub record Annotation : Type 0 where
  pub annotation_id : String
  pub revision_id : String
  pub case_id : String
  pub source_task_id : String
  pub reviewer_id : String
  pub annotation_revision : ℕ
  pub supersedes_revision_id : Option String
  pub label : Label
  pub explanation : String
  pub evidence_keys : List String

-- `AdjudicationV1`
pub record Adjudication : Type 0 where
  pub adjudication_id : String
  pub revision_id : String
  pub adjudication_revision : ℕ
  pub supersedes_revision_id : Option String
  pub task_id : String
  pub annotation_revision_ids : List String
  pub label : Label
  pub explanation : String
  pub evidence_keys : List String
  pub adjudicated_by : String

-- `AnnotationCaseV1`
pub record AnnotationCase : Type 0 where
  pub case_id : String
  pub project_id : String
  pub annotation_schema_release_id : String
  pub logical_trace_id : String
  pub revision : ℕ
  pub context_binding_id : String
  pub safe_projection_hash : String
  pub leakage_group_id : String

-- A row of `calibration_releases`, with the split release that its JSON names.
pub record CalibrationRelease : Type 0 where
  pub calibration_release_id : String
  pub project_id : String
  pub evaluator_release_id : String
  pub annotation_schema_release_id : String
  pub split_release_id : String

-- A row of `review_split_groups`.
pub record SplitGroup : Type 0 where
  pub split_release_id : String
  pub leakage_group_id : String
  pub split : Split

-- The tables. The assessments are those that the assessment transactions write. The assignments of a task stand in the order of their ordinals: each is appended with
-- an ordinal above those that are there.
pub record Store : Type 0 where
  pub queues : List Queue
  pub tasks : List Task
  pub assignments : List Assignment
  -- The ids of `annotations`.
  pub annotations : List String
  pub revisions : List Annotation
  pub adjudications : List Adjudication
  pub adjudication_inputs : List (String × String)
  -- The case and the key of each evidence.
  pub evidence : List (String × String)
  pub calibration_releases : List CalibrationRelease
  -- The calibration release of each row of `threshold_policy_releases`.
  pub threshold_policies : List String
  pub split_groups : List SplitGroup
  pub cases : List AnnotationCase
  -- The reviewers that each annotation schema release wants.
  pub required_reviewers : List (String × ℕ)
  pub assessments : List AssessmentRecord

-- `trim`, the order of texts in SQLite, and the hashes that serve as ids.
pub record Externals : Type 0 where
  pub text_before : String → String → Bool
  pub trim : String → String
  pub is_blank : String → Bool
  pub task_identity : String → String → String → SelectionReason → String
  pub annotation_identity : String → String → String → String
  pub annotation_revision_identity :
      String → ℕ → Option String → String → Label → String → List String → ℕ → String
  pub adjudication_identity : String → String
  pub adjudication_revision_identity :
      String → ℕ → Option String → List String → Label → String → List String → String → ℕ → String

pub data Error : Type 0 where
  not_human empty_reviewer task_not_found queue_not_found task_closed enough_reviewers duplicate_row
        incomplete_answer invalid_keys unknown_evidence not_assigned answers_locked head_changed
        not_awaiting reviewer_adjudicates other_annotations empty_argument queue_inactive
        case_not_found other_schema group_not_in_split other_assessment schema_not_found
        duplicate_case triage_random_audit no_random_audit :
      Error

pub data Result (A : Type 0) : Type 0 where
  ok : A → Store → Result A
  err : Error → Result A

abbrev pub after : {A : Type 0} → Result A → Store → Store
after (ok a s) before = s
after (err e) before = before

abbrev pub task_named : String → Task → Bool
task_named task_id task = keyed (λ (t : Task). t.task_id) task_id task

abbrev pub queue_named : String → Queue → Bool
queue_named queue_id queue = keyed (λ (q : Queue). q.queue_id) queue_id queue

abbrev pub assigned : String → String → Assignment → Bool
assigned task_id reviewer_id a = same a.task_id task_id && same a.reviewer_id reviewer_id

abbrev pub of_task : String → Assignment → Bool
of_task task_id a = same a.task_id task_id

-- `persist_task_status`
abbrev pub persist_status : String → TaskStatus → List Task → List Task
persist_status task_id status tasks =
    update (task_named task_id) (λ t. record t { status = status }) tasks
