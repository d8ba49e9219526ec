-- ===== src/Assessments/State.antt =====
-- The tables that the assessment transactions read and write (workspace/schema.rs), and the types of
-- crates/perseval-store/src/model.rs that go in and out. Columns that no transaction reads back
-- (updated_at, latency, the request and response hashes, the failure text) are left out.
use Prim.Native.String.{String}
use perseval.Base.{ℕ, List, Option, Bool, true, false, not}

pub data ItemStatus : Type 0 where
  pending running succeeded abstained failed cancelled budget_blocked privacy_blocked
        provider_unavailable not_applicable :
      ItemStatus

pub data JobStatus : Type 0 where
  pending running completed partial cancelled failed : JobStatus

abbrev pub is_open : ItemStatus → Bool
is_open ItemStatus.pending = true
is_open ItemStatus.running = true
is_open _ = false

-- `AssessmentItemStatusV1::is_terminal`
abbrev pub is_terminal : ItemStatus → Bool
is_terminal status = not (is_open status)

abbrev pub is_pending : ItemStatus → Bool
is_pending ItemStatus.pending = true
is_pending _ = false

abbrev pub is_running : ItemStatus → Bool
is_running ItemStatus.running = true
is_running _ = false

abbrev pub is_cancelled : ItemStatus → Bool
is_cancelled ItemStatus.cancelled = true
is_cancelled _ = false

-- `status IN ('failed', 'budget_blocked', 'privacy_blocked', 'provider_unavailable')`
abbrev pub is_failure : ItemStatus → Bool
is_failure ItemStatus.failed = true
is_failure ItemStatus.budget_blocked = true
is_failure ItemStatus.privacy_blocked = true
is_failure ItemStatus.provider_unavailable = true
is_failure _ = false

abbrev pub job_is_pending : JobStatus → Bool
job_is_pending JobStatus.pending = true
job_is_pending _ = false

-- `status IN ('pending', 'running', 'partial')`
abbrev pub is_cancellable : JobStatus → Bool
is_cancellable JobStatus.pending = true
is_cancellable JobStatus.running = true
is_cancellable JobStatus.partial = true
is_cancellable _ = false

-- What an item assesses, and by which release.
pub record Target : Type 0 where
  pub logical_trace_id : String
  pub revision : ℕ
  pub evaluator_release_id : String
  pub context_binding_id : String
  pub context_release_id : Option String
  pub projection_hash : String

-- A row of `assessment_job_items`.
pub record Item : Type 0 where
  pub item_id : String
  pub job_id : String
  pub project_id : String
  pub target : Target
  pub estimated_cost_micros : ℕ
  pub cache_key : String
  pub status : ItemStatus
  pub attempt_count : ℕ
  pub lease_owner : Option String
  pub lease_expires_at : Option ℕ
  pub next_attempt_at : ℕ
  pub terminal_reason : Option String
  pub created_at : ℕ

-- A row of `assessment_jobs`.
pub record Job : Type 0 where
  pub job_id : String
  pub status : JobStatus
  pub cancel_requested : Bool
  pub item_count : ℕ
  pub terminal_count : ℕ

-- `ProjectAssessmentPolicyV1`
pub record Policy : Type 0 where
  pub provider_enabled : Bool
  pub daily_budget_micros : ℕ
  pub per_attempt_budget_micros : ℕ
  pub lease_duration_ms : ℕ
  pub maximum_attempts : ℕ

-- A row of `assessment_attempts`.
pub record Attempt : Type 0 where
  pub attempt_id : String
  pub item_id : String
  pub attempt_number : ℕ
  pub lease_owner : String
  pub status : ItemStatus
  pub retryable : Bool
  pub reserved_cost_micros : ℕ
  pub charged_cost_micros : ℕ

-- A row of `assessment_daily_budgets`; the day is a number of days since the epoch.
pub record DailyBudget : Type 0 where
  pub project_id : String
  pub utc_day : ℕ
  pub reserved_micros : ℕ
  pub charged_micros : ℕ

pub data Verdict : Type 0 where
  pass fail abstain : Verdict

-- What the store reads of a `LearnedEvaluationV1`.
pub record Evaluation : Type 0 where
  pub evaluator_release_id : String
  pub target_key : String
  pub target_revision : String
  pub trace_context_binding_id : String
  pub projection_hash : String
  pub verdict : Verdict

-- What the store reads of a `ProviderResponseEnvelopeV1`.
pub record Envelope : Type 0 where
  pub provider : Option String
  pub requested_model : String
  pub returned_model : Option String

-- `AssessmentRecordV1`, a row of `assessments` and the content of a cache entry.
pub record AssessmentRecord : Type 0 where
  pub assessment_id : String
  pub item_id : String
  pub project_id : String
  pub target : Target
  pub provider : Option String
  pub requested_model : Option String
  pub returned_model : Option String
  pub status : ItemStatus
  pub evaluation : Option Evaluation
  pub cost_micros : ℕ

-- The tables.
pub record Store : Type 0 where
  pub items : List Item
  pub jobs : List Job
  pub policies : List (String × Policy)
  pub budgets : List DailyBudget
  pub attempts : List Attempt
  pub assessments : List AssessmentRecord
  pub cache : List (String × AssessmentRecord)
  -- The project and the id of each evaluator release.
  pub evaluator_releases : List (String × String)

-- What the transactions take from other code: whether a text trims to nothing, the order of texts
-- in SQLite, the hashes that serve as ids, and the validity checks of the evaluation library.
pub record Externals (Catalog Failure : Type 0) : Type 0 where
  pub is_blank : String → Bool
  pub text_before : String → String → Bool
  pub attempt_identity : String → ℕ → String → String
  pub record_identity : String → Target → Option Evaluation → String
  pub cached_identity : String → String → String
  pub evaluation_valid : Evaluation → Catalog → Bool
  pub envelope_valid : Envelope → Bool
  pub failure_valid : Failure → Bool

-- `AssessmentCommitV1`
pub record AssessmentCommit (Catalog Failure : Type 0) : Type 0 where
  pub status : ItemStatus
  pub evaluation : Option Evaluation
  pub evidence_catalog : Option Catalog
  pub provider_response : Option Envelope
  pub provider_failure : Option Failure
  pub charged_cost_micros : ℕ
  pub retryable : Bool
  pub error_code : Option String

-- `ClaimedAssessmentItemV1`
pub record ClaimedItem : Type 0 where
  pub item_id : String
  pub job_id : String
  pub project_id : String
  pub target : Target
  pub cache_key : String
  pub attempt_id : String
  pub attempt_number : ℕ
  pub lease_owner : String
  pub lease_expires_at : ℕ
  pub reserved_cost_micros : ℕ
  pub preflight_status : Option ItemStatus

-- What makes a transaction fail; its writes are rolled back.
pub data Error : Type 0 where
  empty_lease_owner concurrently_claimed not_terminal missing_catalog invalid_evaluation
        other_target status_conflict missing_evaluation invalid_envelope invalid_failure no_rows
        lost_lease duplicate_row missing_release job_not_found :
      Error

-- A transaction gives its answer and the new tables, or fails and leaves them.
pub data Result (A : Type 0) : Type 0 where
  ok : A → Store → Result A
  err : Error → Result A

-- The tables after a transaction.
abbrev pub after : {A : Type 0} → Result A → Store → Store
after (ok a s) before = s
after (err e) before = before
