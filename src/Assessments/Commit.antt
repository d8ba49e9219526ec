-- ===== src/Assessments/Commit.antt =====
-- `commit_assessment_attempt`, `validate_assessment_commit` and `cancel_assessment_job` of
-- crates/perseval-store/src/workspace/assessments.rs, for a project and a release without an active
-- threshold policy: the decision that such a policy adds to the transaction is not modelled.
pub mod Outcome
use Prim.Native.String.{String}
use perseval.Base.{
  ℕ, List, Option, none, some, Bool, true, false, if◌then◌else◌, ◌*◌, ◌^◌, ltb, min, ◌&&◌, not,
  same, any, find, update, keyed, get, put, text_dec, decimal, saturating_add, i64_max,
}
use perseval.Assessments.State.{
  Item, Job, Policy, Attempt, AssessmentRecord, AssessmentCommit, Evaluation, Verdict, Store,
  Externals, ClaimedItem, ItemStatus, JobStatus, Error, Result, ok, err, is_terminal, is_pending,
  is_running, is_cancellable,
}
use perseval.Assessments.Budget.{release_budget}
use perseval.Assessments.Jobs.{by_id, finish_item, refresh_job_counts}
use perseval.Assessments.Claim.{insert_assessment}

-- The verdicts that go with a terminal status.
abbrev pub status_matches : ItemStatus → Verdict → Bool
status_matches ItemStatus.succeeded Verdict.pass = true
status_matches ItemStatus.succeeded Verdict.fail = true
status_matches ItemStatus.abstained Verdict.abstain = true
status_matches ItemStatus.privacy_blocked Verdict.abstain = true
status_matches ItemStatus.provider_unavailable Verdict.abstain = true
status_matches ItemStatus.not_applicable Verdict.abstain = true
status_matches _ _ = false

abbrev pub needs_evaluation : ItemStatus → Bool
needs_evaluation ItemStatus.succeeded = true
needs_evaluation ItemStatus.abstained = true
needs_evaluation _ = false

abbrev pub same_target : Evaluation → ClaimedItem → Bool
same_target evaluation claim =
    same evaluation.evaluator_release_id claim.target.evaluator_release_id
    && (same evaluation.target_key claim.target.logical_trace_id
        && (same evaluation.target_revision (decimal 20 claim.target.revision)
            && (same evaluation.trace_context_binding_id claim.target.context_binding_id
                && same evaluation.projection_hash claim.target.projection_hash)))

-- `lease_owner.as_deref() == Some(owner)`
abbrev pub owned_by : String → Option String → Bool
owned_by owner none = false
owned_by owner (some other) = same other owner

-- `250_i64.saturating_mul(1_i64 << attempt_count.min(8))`
abbrev pub retry_delay : ℕ → ℕ
retry_delay attempt_count = 250 * 2 ^ min attempt_count 8

-- `COALESCE(p.maximum_attempts, 1)`
abbrev pub maximum_attempts : String → List (String × Policy) → ℕ
maximum_attempts project_id policies = elim (get text_dec project_id policies) [
  | none ↦ 1
  | some policy ↦ policy.maximum_attempts
]

abbrev pub set_attempt : String → (Attempt → Attempt) → List Attempt → List Attempt
set_attempt id f attempts = update (keyed (λ (a : Attempt). a.attempt_id) id) f attempts

-- A result from another model than the requested one is not cached.
abbrev pub caches : AssessmentRecord → Bool
caches row = elim row.returned_model [
  | none ↦ true
  | some returned ↦ elim row.requested_model [
    | none ↦ false
    | some requested ↦ same returned requested
  ]
]

-- The attempt of a cancelled job.
unfoldable pub commit_cancelled : ℕ → ClaimedItem → Store → Store
unfolding release_budget finish_item
commit_cancelled now claim s =
    finish_item claim.item_id claim.job_id ItemStatus.cancelled (some "cancelled") (record s {
      budgets = release_budget claim.project_id claim.reserved_cost_micros 0 now s.budgets;
      attempts =
          set_attempt claim.attempt_id (λ a. record a { status = ItemStatus.cancelled }) s.attempts;
    })

module _ {Catalog Failure : Type 0} (ext : Externals Catalog Failure) where
  unfoldable pub validate_evaluation : ClaimedItem → AssessmentCommit Catalog Failure → Option Error
  validate_evaluation claim commit = elim commit.evaluation [
    | none ↦ if needs_evaluation commit.status then some Error.missing_evaluation else none
    | some evaluation ↦ elim commit.evidence_catalog [
      | none ↦ some Error.missing_catalog
      | some catalog ↦
          if not (ext.evaluation_valid evaluation catalog)
          then some Error.invalid_evaluation
          else if not (same_target evaluation claim)
          then some Error.other_target
          else if not (status_matches commit.status evaluation.verdict)
          then some Error.status_conflict
          else none
    ]
  ]

  unfoldable pub validate_commit : ClaimedItem → AssessmentCommit Catalog Failure → Option Error
  unfolding validate_evaluation
  validate_commit claim commit = elim (validate_evaluation claim commit) [
    | some e ↦ some e
    | none ↦
        if (elim commit.provider_response [
          | none ↦ false
          | some envelope ↦ not (ext.envelope_valid envelope)
        ])
        then some Error.invalid_envelope
        else if (elim commit.provider_failure [
          | none ↦ false
          | some failure ↦ not (ext.failure_valid failure)
        ])
        then some Error.invalid_failure
        else none
  ]

  abbrev pub record_of : ClaimedItem → AssessmentCommit Catalog Failure → AssessmentRecord
  record_of claim commit = record {
    assessment_id = ext.record_identity claim.item_id claim.target commit.evaluation;
    item_id = claim.item_id;
    project_id = claim.project_id;
    target = claim.target;
    provider = elim commit.provider_response [ none ↦ none | some envelope ↦ envelope.provider ];
    requested_model = elim commit.provider_response [
      | none ↦ none
      | some envelope ↦ some envelope.requested_model
    ];
    returned_model = elim commit.provider_response [
      | none ↦ none
      | some envelope ↦ envelope.returned_model
    ];
    status = commit.status;
    evaluation = commit.evaluation;
    cost_micros = commit.charged_cost_micros;
  }

  -- The item goes back to wait for its next attempt.
  abbrev pub waiting : ℕ → ℕ → AssessmentCommit Catalog Failure → Item → Item
  waiting now attempt_count commit i = record i {
    status = ItemStatus.pending;
    lease_owner = none;
    lease_expires_at = none;
    next_attempt_at = saturating_add i64_max now (retry_delay attempt_count);
    terminal_reason = commit.error_code;
  }

  unfoldable pub retry_later :
      ℕ → ℕ → ClaimedItem → AssessmentCommit Catalog Failure → Store → Store
  retry_later now attempt_count claim commit s = record s {
    items = update (by_id claim.item_id) (waiting now attempt_count commit) s.items;
  }

  abbrev pub cached_with :
      ClaimedItem
      → AssessmentRecord
      → List (String × AssessmentRecord)
      → List (String × AssessmentRecord)
  cached_with claim row cache = elim row.evaluation [
    | none ↦ cache
    | some _ ↦ if caches row then put text_dec claim.cache_key row cache else cache
  ]

  unfoldable pub record_result :
      ClaimedItem → AssessmentCommit Catalog Failure → Store → Result (Option AssessmentRecord)
  unfolding insert_assessment finish_item
  record_result claim commit s =
      if not (
        any (λ r. same r.0 claim.project_id && same r.1 claim.target.evaluator_release_id)
          s.evaluator_releases)
      then err Error.missing_release
      else (let row = record_of claim commit in
          elim (insert_assessment row s.assessments) [
            | none ↦ err Error.duplicate_row
            | some assessments ↦ ok (some row) (
                finish_item claim.item_id claim.job_id commit.status commit.error_code
                  (record s { assessments = assessments; cache = cached_with claim row s.cache }))
          ])

  -- The attempt of a live job.
  unfoldable pub commit_live :
      ℕ
      → Item
      → ClaimedItem
      → AssessmentCommit Catalog Failure
      → Store
      → Result (Option AssessmentRecord)
  unfolding release_budget retry_later record_result
  commit_live now item claim commit s =
      let charged = record s {
        budgets =
            release_budget claim.project_id claim.reserved_cost_micros commit.charged_cost_micros
              now s.budgets;
        attempts =
            set_attempt claim.attempt_id
              (λ a. record a {
                status = commit.status;
                retryable = commit.retryable;
                charged_cost_micros = commit.charged_cost_micros;
              })
              s.attempts;
      } in
      if commit.retryable && ltb item.attempt_count (maximum_attempts item.project_id s.policies)
      then ok none (retry_later now item.attempt_count claim commit charged)
      else record_result claim commit charged

  -- From the item and its job on.
  unfoldable pub commit_found :
      ℕ
      → ClaimedItem
      → AssessmentCommit Catalog Failure
      → Item
      → Job
      → Store
      → Result (Option AssessmentRecord)
  unfolding commit_cancelled commit_live
  commit_found now claim commit item job s =
      if not (is_running item.status && owned_by claim.lease_owner item.lease_owner)
      then err Error.lost_lease
      else if job.cancel_requested
      then ok none (commit_cancelled now claim s)
      else commit_live now item claim commit s

  unfoldable pub commit_attempt :
      ℕ → ClaimedItem → AssessmentCommit Catalog Failure → Store → Result (Option AssessmentRecord)
  unfolding validate_commit commit_found
  commit_attempt now claim commit s =
      if not (is_terminal commit.status)
      then err Error.not_terminal
      else (elim (validate_commit claim commit) [
        | some e ↦ err e
        | none ↦
            elim (find (λ (i : Item). same i.item_id claim.item_id && same i.job_id claim.job_id)
              s.items) [
                | none ↦ err Error.no_rows
                | some item ↦ elim (find (keyed (λ (j : Job). j.job_id) claim.job_id) s.jobs) [
                  | none ↦ err Error.no_rows
                  | some job ↦ commit_found now claim commit item job s
                ]
              ]
      ])

abbrev pub pending_of : String → Item → Bool
pending_of job_id i = same i.job_id job_id && is_pending i.status

abbrev pub called_off : Item → Item
called_off i = record i { status = ItemStatus.cancelled; terminal_reason = some "cancelled" }

abbrev pub cancellable : String → Job → Bool
cancellable job_id j = same j.job_id job_id && is_cancellable j.status

abbrev pub called_job : Job → Job
called_job j = record j { cancel_requested = true; status = JobStatus.cancelled }

-- The tables after the statements of `cancel_assessment_job`.
unfoldable pub cancelled_tables : String → Store → Store
unfolding refresh_job_counts
cancelled_tables job_id s = refresh_job_counts job_id (record s {
  jobs = update (cancellable job_id) called_job s.jobs;
  items = update (pending_of job_id) called_off s.items;
})

unfoldable pub cancel_job : String → Store → Result Job
unfolding cancelled_tables
cancel_job job_id s =
    let t = cancelled_tables job_id s in
    elim (find (keyed (λ (j : Job). j.job_id) job_id) t.jobs) [
      | none ↦ err Error.job_not_found
      | some job ↦ ok job t
    ]
