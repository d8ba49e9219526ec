-- ===== src/Assessments/Claim.antt =====
-- `claim_next_assessment` and `materialize_cached_assessment` of
-- crates/perseval-store/src/workspace/assessments.rs.
pub mod Outcome
use Prim.Native.String.{String}
use perseval.Base.{
  ℕ, List, [], ◌∷◌, Option, none, some, Bool, true, false, if◌then◌else◌, ◌+◌, ltb, leb, min, ◌==◌,
  ◌&&◌, ◌||◌, not, same, any, update, get, text_dec, saturating_add, i64_max,
}
use perseval.Assessments.State.{
  Item, Job, Policy, Attempt, AssessmentRecord, Store, Externals, ClaimedItem, ItemStatus,
  JobStatus, Error, Result, ok, err, is_pending, is_running, job_is_pending,
}
use perseval.Assessments.Budget.{reserve_budget}
use perseval.Assessments.Jobs.{finish_item, finish_without_attempt}

-- `lease_expires_at_unix_ms <= now`, which no null meets.
abbrev pub expired : ℕ → Option ℕ → Bool
expired now none = false
expired now (some at) = leb at now

-- Pending and due, or running on a lease that has run out.
abbrev pub claimable : ℕ → Item → Bool
claimable now item =
    (is_pending item.status && leb item.next_attempt_at now)
    || (is_running item.status && expired now item.lease_expires_at)

-- The joined job, where no cancellation was asked for.
abbrev pub job_live : String → List Job → Bool
job_live job_id jobs = any (λ job. same job.job_id job_id && not job.cancel_requested) jobs

-- A project without a policy gets the default one.
abbrev pub policy_of : String → List (String × Policy) → Policy
policy_of project_id policies = elim (get text_dec project_id policies) [
  | some policy ↦ policy
  | none ↦ record {
    provider_enabled = false;
    daily_budget_micros = 0;
    per_attempt_budget_micros = 0;
    lease_duration_ms = 30000;
    maximum_attempts = 1;
  }
]

-- `INSERT INTO assessments`, whose `assessment_id` and `item_id` are unique; `none` where it fails.
unfoldable pub insert_assessment :
    AssessmentRecord → List AssessmentRecord → Option (List AssessmentRecord)
insert_assessment row rows =
    if any (λ r. same r.assessment_id row.assessment_id || same r.item_id row.item_id) rows
    then none
    else some (row ∷ rows)

-- `INSERT INTO assessment_attempts`, whose `attempt_id` and `(item_id, attempt_number)` are unique.
unfoldable pub insert_attempt : Attempt → List Attempt → Option (List Attempt)
insert_attempt row rows =
    if any
      (λ a.
        same a.attempt_id row.attempt_id
        || (same a.item_id row.item_id && (a.attempt_number == row.attempt_number)))
      rows
    then none
    else some (row ∷ rows)

-- The estimate of the item goes before that of the worker.
abbrev pub effective_cost : ℕ → ℕ → ℕ
effective_cost item_estimate estimate = if ltb 0 item_estimate then item_estimate else estimate

-- The tables, what was reserved, and the status that stops the attempt before it runs.
unfoldable pub preflight : ℕ → Item → Policy → ℕ → Store → Store × ℕ × Option ItemStatus
unfolding reserve_budget
preflight now item policy cost s =
    if (elim item.target.context_release_id [ none ↦ true | some _ ↦ false ]) || (cost == 0)
    then (s, 0, none)
    else if not policy.provider_enabled
    then (s, 0, some ItemStatus.provider_unavailable)
    else let reserve = min cost policy.per_attempt_budget_micros in
      if ltb reserve cost
      then (s, 0, some ItemStatus.budget_blocked)
      else let (budgets, reserved) = reserve_budget item.project_id policy reserve now s.budgets in
        if reserved
        then (record s { budgets = budgets }, reserve, none)
        else (record s { budgets = budgets }, 0, some ItemStatus.budget_blocked)

module _ {Catalog Failure : Type 0} (ext : Externals Catalog Failure) where
  -- `ORDER BY created_at_unix_ms, item_id`
  abbrev pub comes_before : Item → Item → Bool
  comes_before a b =
      ltb a.created_at b.created_at
      || ((a.created_at == b.created_at) && ext.text_before a.item_id b.item_id)

  -- The first item that can be claimed.
  unfoldable pub candidate : ℕ → List Job → List Item → Option Item
  candidate now jobs [] = none
  candidate now jobs (item ∷ items) =
      let rest = candidate now jobs items in
      if claimable now item && job_live item.job_id jobs
      then (elim rest [
        | none ↦ some item
        | some other ↦ if comes_before other item then some other else some item
      ])
      else rest

  unfoldable pub materialize_cached_assessment :
      AssessmentRecord → Item → Store → Result (Option ClaimedItem)
  unfolding insert_assessment finish_item
  materialize_cached_assessment cached item s =
      let row = record cached {
        assessment_id = ext.cached_identity item.item_id cached.assessment_id;
        item_id = item.item_id;
        project_id = item.project_id;
        target = item.target;
        cost_micros = 0;
      } in
      elim (insert_assessment row s.assessments) [
        | none ↦ err Error.duplicate_row
        | some assessments ↦ ok none (
            finish_item item.item_id item.job_id cached.status none
              (record s { assessments = assessments }))
      ]

  -- The row that the lease goes to, the attempt and the job, on the tables after the preflight.
  unfoldable pub lease_item :
      ℕ → String → Item → Policy → Store × ℕ × Option ItemStatus → Result (Option ClaimedItem)
  unfolding insert_attempt
  lease_item now lease_owner item policy (s, reserved, stopped) =
      let number = item.attempt_count + 1 in
      let id = ext.attempt_identity item.item_id number lease_owner in
      let expires = saturating_add i64_max now policy.lease_duration_ms in
      let chosen = λ (i : Item). same i.item_id item.item_id && claimable now i in
      if not (any chosen s.items)
      then err Error.concurrently_claimed
      else (elim (insert_attempt
          (record {
            attempt_id = id;
            item_id = item.item_id;
            attempt_number = number;
            lease_owner = lease_owner;
            status = ItemStatus.running;
            retryable = false;
            reserved_cost_micros = reserved;
            charged_cost_micros = 0;
          })
          s.attempts) [
            | none ↦ err Error.duplicate_row
            | some attempts ↦
                ok
                  (some (record {
                    item_id = item.item_id;
                    job_id = item.job_id;
                    project_id = item.project_id;
                    target = item.target;
                    cache_key = item.cache_key;
                    attempt_id = id;
                    attempt_number = number;
                    lease_owner = lease_owner;
                    lease_expires_at = expires;
                    reserved_cost_micros = reserved;
                    preflight_status = stopped;
                  }))
                  (record s {
                    items =
                        update chosen
                          (λ i. record i {
                            status = ItemStatus.running;
                            attempt_count = number;
                            lease_owner = some lease_owner;
                            lease_expires_at = some expires;
                          })
                          s.items;
                    attempts = attempts;
                    jobs =
                        update (λ (j : Job). same j.job_id item.job_id && job_is_pending j.status)
                          (λ j. record j { status = JobStatus.running }) s.jobs;
                  })
          ])

  -- What becomes of the candidate.
  unfoldable pub claim_item : ℕ → String → ℕ → Item → Store → Result (Option ClaimedItem)
  unfolding materialize_cached_assessment finish_without_attempt preflight lease_item
  claim_item now lease_owner estimate item s = elim (get text_dec item.cache_key s.cache) [
    | some cached ↦ materialize_cached_assessment cached item s
    | none ↦
        let policy = policy_of item.project_id s.policies in
        if leb policy.maximum_attempts item.attempt_count
        then ok none
            (finish_without_attempt item.item_id item.job_id ItemStatus.failed "retry_exhausted" s)
        else lease_item now lease_owner item policy
            (preflight now item policy (effective_cost item.estimated_cost_micros estimate) s)
  ]

  unfoldable pub claim_next : ℕ → String → ℕ → Store → Result (Option ClaimedItem)
  unfolding candidate claim_item
  claim_next now lease_owner estimate s =
      if ext.is_blank lease_owner
      then err Error.empty_lease_owner
      else (elim (candidate now s.jobs s.items) [
        | none ↦ ok none s
        | some item ↦ claim_item now lease_owner estimate item s
      ])
