-- ===== src/Assessments/Commit/Outcome.antt =====
-- What a successful `commit_attempt` can have done, one case for each way through it.

use perseval.Base.{
  ℕ, ◌≡◌, ◌<◌, Option, none, some, true, Bool-cases, Option-cases, ltb, ◌&&◌, and_left, and_right,
  same, same→eq, find, keyed, Member, find-Member, arith, inl, inr,
}
use perseval.Assessments.State.{
  Item, Job, Store, Externals, ClaimedItem, AssessmentCommit, AssessmentRecord, ok, is_terminal,
  is_running,
}
use perseval.Assessments.Jobs.{finish_item}
use perseval.Assessments.Budget.{release_budget}
use perseval.Assessments.Claim.{insert_assessment}
use perseval.Assessments.Commit.{
  owned_by, maximum_attempts, set_attempt, validate_commit, record_of, cached_with,
  commit_cancelled, retry_later, record_result, commit_live, commit_found, commit_attempt,
}

module _ {Catalog Failure : Type 0} (ext : Externals Catalog Failure) where
  -- The tables once the attempt is charged and closed.
  abbrev pub charged : ℕ → ClaimedItem → AssessmentCommit Catalog Failure → Store → Store
  charged now claim commit s = record s {
    budgets =
        release_budget claim.project_id claim.reserved_cost_micros commit.charged_cost_micros now
          s.budgets;
    attempts =
        set_attempt claim.attempt_id
          (λ a. record a {
            status = commit.status;
            retryable = commit.retryable;
            charged_cost_micros = commit.charged_cost_micros;
          })
          s.attempts;
  }

  pub data Effect (now : ℕ) (claim : ClaimedItem) (commit : AssessmentCommit Catalog Failure)
      (item : Item) (s : Store) (r : Option AssessmentRecord) (t : Store) : Type 0 where
    cancels : r ≡ none → t ≡ commit_cancelled now claim s → Effect now claim commit item s r t
    retries :
        commit.retryable ≡ true
        → item.attempt_count < maximum_attempts item.project_id s.policies
        → r ≡ none
        → t ≡ retry_later ext now item.attempt_count claim commit (charged now claim commit s)
        → Effect now claim commit item s r t
    records :
        (assessments : _)
        → r ≡ some (record_of ext claim commit)
        → t
          ≡ finish_item claim.item_id claim.job_id commit.status commit.error_code
              (record (charged now claim commit s) {
                assessments = assessments;
                cache = cached_with ext claim (record_of ext claim commit) s.cache;
              })
        → Effect now claim commit item s r t

  -- The item that the claim names is running under the claim's lease, and one of the effects.
  pub record Outcome (now : ℕ) (claim : ClaimedItem) (commit : AssessmentCommit Catalog Failure)
      (s : Store) (r : Option AssessmentRecord) (t : Store) : Type 0 where
    pub item : Item
    pub listed : Member item s.items
    pub item_id : item.item_id ≡ claim.item_id
    pub job_id : item.job_id ≡ claim.job_id
    pub running : is_running item.status ≡ true
    pub owned : owned_by claim.lease_owner item.lease_owner ≡ true
    pub terminal : is_terminal commit.status ≡ true
    pub effect : Effect now claim commit item s r t

  record_result-Effect :
      (now : ℕ) (claim : ClaimedItem) (commit : AssessmentCommit Catalog Failure) (item : Item)
      (s t : Store) (r : Option AssessmentRecord)
      → record_result ext claim commit (charged now claim commit s) ≡ ok r t
      → Effect now claim commit item s r t
  unfolding record_result
  record_result-Effect now claim commit item s t r h =
      elim (Option-cases (insert_assessment (record_of ext claim commit) s.assessments)) [
        | inl e ↦ ground arith
        | inr (assessments, e) ↦ records assessments (ground arith) (ground arith)
      ]

  commit_found-Effect :
      (now : ℕ) (claim : ClaimedItem) (commit : AssessmentCommit Catalog Failure) (item : Item)
      (job : Job) (s t : Store) (r : Option AssessmentRecord)
      → commit_found ext now claim commit item job s ≡ ok r t
      → (is_running item.status ≡ true)
        × (owned_by claim.lease_owner item.lease_owner ≡ true)
        × Effect now claim commit item s r t
  unfolding commit_found commit_live
  commit_found-Effect now claim commit item job s t r h =
      elim (Bool-cases (is_running item.status && owned_by claim.lease_owner item.lease_owner)) [
        | inr lost ↦ ground arith
        | inl holds ↦ (
          and_left _ _ holds,
          and_right _ _ holds,
          elim (Bool-cases job.cancel_requested) [
            | inl asked ↦ cancels (ground arith) (ground arith)
            | inr live ↦
                elim (Bool-cases (
                  commit.retryable
                  && ltb item.attempt_count (maximum_attempts item.project_id s.policies))) [
                    | inl again ↦
                        retries (and_left _ _ again) (ground arith) (ground arith) (ground arith)
                    | inr last ↦ record_result-Effect now claim commit item s t r (ground arith)
                  ]
          ],
        )
      ]

  pub commit_attempt-Outcome :
      (now : ℕ) (claim : ClaimedItem) (commit : AssessmentCommit Catalog Failure) (s t : Store)
      (r : Option AssessmentRecord)
      → commit_attempt ext now claim commit s ≡ ok r t
      → Outcome now claim commit s r t
  unfolding commit_attempt
  commit_attempt-Outcome now claim commit s t r h =
      let row = λ (i : Item). same i.item_id claim.item_id && same i.job_id claim.job_id in
      elim (Bool-cases (is_terminal commit.status)) [
        | inr open_ ↦ ground arith
        | inl closed ↦ elim (Option-cases (validate_commit ext claim commit)) [
          | inr (e, refused) ↦ ground arith
          | inl valid ↦ elim (Option-cases (find row s.items)) [
            | inl e ↦ ground arith
            | inr (item, e) ↦
                elim (Option-cases (find (keyed (λ (j : Job). j.job_id) claim.job_id) s.jobs)) [
                  | inl e' ↦ ground arith
                  | inr (job, e') ↦
                      let (m, q) = find-Member row s.items item e in
                      let (running, owned, effect) =
                        commit_found-Effect now claim commit item job s t r (ground arith) in
                      record {
                        item = item;
                        listed = m;
                        item_id = same→eq _ _ (and_left _ _ q);
                        job_id = same→eq _ _ (and_right _ _ q);
                        running = running;
                        owned = owned;
                        terminal = closed;
                        effect = effect;
                      }
                ]
          ]
        ]
      ]
