-- ===== src/Assessments/Tests.antt =====
-- The assessment transactions on a store with one job of one item, and the theorems there.
use Prim.Native.String.{String, ◌++◌ as append}
use text.Mathlib.TextEquality.{eq_iff}
use perseval.Base.{
  map, contains, get, count, total, update, get, any, ℕ, ◌≡◌, ◌≢◌, refl, [], ◌∷◌, ◌+◌, ◌≤◌, inl,
  none, some, true, false, same, decimal, find, Member, text_dec, arith,
}
use perseval.Assessments.State.{
  Item, Job, Target, Store, Externals, ClaimedItem, AssessmentCommit, Verdict, ItemStatus,
  JobStatus, ok, after,
}
use perseval.Assessments.Steps.Served.{claim_next-serves}
use perseval.Assessments.Claim.{claimable, claim_next, candidate}
use perseval.Assessments.Commit.{record_of, commit_attempt, cancel_job}
use perseval.Assessments.Budget.Spending.{Reserves, claim_next-Reserves}
use perseval.Assessments.Steps.{commit, here, found, step, Sound, Run}
use perseval.Assessments.Steps.Progress.{potential, Run-bounded}
use perseval.Assessments.Steps.Counts.{Counted}
use perseval.Assessments.Steps.Consistent.{Run-Counted}
use perseval.Assessments.Steps.Leases.{claim_next-keeps_lease}
use perseval.Assessments.Steps.Lost.{Without, commit_attempt-lost}
use perseval.Assessments.Steps.Cancelled.{cancel_job-claims_none}

abbrev ext : Externals ℕ ℕ
ext = record {
  is_blank = λ s. same s "";
  text_before = λ a b. false;
  attempt_identity = λ item number owner. append item (append (decimal 5 number) owner);
  record_identity = λ item target evaluation. append "record:" item;
  cached_identity = λ item record_id. append item record_id;
  evaluation_valid = λ evaluation catalog. true;
  envelope_valid = λ envelope. true;
  failure_valid = λ failure. true;
}

abbrev target : Target
target = record {
  logical_trace_id = "trace";
  revision = 1;
  evaluator_release_id = "release";
  context_binding_id = "binding";
  context_release_id = some "context";
  projection_hash = "hash";
}

abbrev item : Item
item = record {
  item_id = "item";
  job_id = "job";
  project_id = "project";
  target = target;
  estimated_cost_micros = 4;
  cache_key = "key";
  status = ItemStatus.pending;
  attempt_count = 0;
  lease_owner = none;
  lease_expires_at = none;
  next_attempt_at = 0;
  terminal_reason = none;
  created_at = 1;
}

abbrev job : Job
job = record {
  job_id = "job";
  status = JobStatus.pending;
  cancel_requested = false;
  item_count = 1;
  terminal_count = 0;
}

abbrev store : Store
store = record {
  items = item ∷ [];
  jobs = job ∷ [];
  policies =
      (
        "project",
        record {
          provider_enabled = true;
          daily_budget_micros = 10;
          per_attempt_budget_micros = 5;
          lease_duration_ms = 100;
          maximum_attempts = 2;
        },
      )
      ∷ [];
  budgets = [];
  attempts = [];
  assessments = [];
  cache = [];
  evaluator_releases = ("project", "release") ∷ [];
}

abbrev claim_of : ℕ → ℕ → String → ClaimedItem
claim_of now number owner = record {
  item_id = "item";
  job_id = "job";
  project_id = "project";
  target = target;
  cache_key = "key";
  attempt_id = append "item" (append (decimal 5 number) owner);
  attempt_number = number;
  lease_owner = owner;
  lease_expires_at = now + 100;
  reserved_cost_micros = 4;
  preflight_status = none;
}

-- The first worker's claim, the second one's after the lease ran out, and the commit in between.
abbrev leased_store : Store
unfolding claim_next
leased_store = after (claim_next ext 1000 "first" 0 store) store

abbrev taken_over : Store
unfolding claim_next
taken_over = after (claim_next ext 2000 "second" 0 leased_store) leased_store

abbrev answer : AssessmentCommit ℕ ℕ
answer = record {
  status = ItemStatus.succeeded;
  evaluation = some (record {
    evaluator_release_id = "release";
    target_key = "trace";
    target_revision = "1";
    trace_context_binding_id = "binding";
    projection_hash = "hash";
    verdict = Verdict.pass;
  });
  evidence_catalog = some 0;
  provider_response = none;
  provider_failure = none;
  charged_cost_micros = 3;
  retryable = false;
  error_code = none;
}

abbrev settled : Store
unfolding commit_attempt
settled = after (commit_attempt ext 1050 (claim_of 1000 1 "first") answer leased_store) leased_store

first_claim : claim_next ext 1000 "first" 0 store ≡ ok (some (claim_of 1000 1 "first")) leased_store
unfolding claim_next text_dec any get
first_claim = refl

second_claim :
    claim_next ext 2000 "second" 0 leased_store ≡ ok (some (claim_of 2000 2 "second")) taken_over
unfolding claim_next text_dec any get update decimal
second_claim = refl

first_candidate : candidate ext 1000 store.jobs store.items ≡ some item
unfolding candidate any text_dec
first_candidate = refl

commits_once :
    commit_attempt ext 1050 (claim_of 1000 1 "first") answer leased_store
    ≡ ok (some (record_of ext (claim_of 1000 1 "first") answer)) settled
unfolding commit_attempt text_dec decimal find leased_store any get update
commits_once = refl

settled_job : map (λ (j : Job). j.terminal_count) settled.jobs ≡ 1 ∷ []
unfolding commit_attempt text_dec decimal find leased_store any get update count
settled_job = refl

abbrev cancelled : Store
unfolding cancel_job
cancelled = after (cancel_job "job" store) store

abbrev cancelled_job : Job
cancelled_job = record job {
  status = JobStatus.cancelled;
  cancel_requested = true;
  terminal_count = 1;
}

cancels_job : cancel_job "job" store ≡ ok cancelled_job cancelled
unfolding cancel_job find update text_dec count
cancels_job = refl

-- A second job beside the first one.
abbrev two_jobs : Store
two_jobs = record store {
  items = item ∷ record item { item_id = "other"; job_id = "next" } ∷ [];
  jobs = job ∷ record job { job_id = "next" } ∷ [];
}

abbrev one_cancelled : Store
unfolding cancel_job
one_cancelled = after (cancel_job "job" two_jobs) two_jobs

abbrev other_claim : ClaimedItem
other_claim = record (claim_of 1000 1 "first") {
  item_id = "other";
  job_id = "next";
  attempt_id = append "other" (append (decimal 5 1) "first");
}

abbrev other_leased : Store
unfolding claim_next
other_leased = after (claim_next ext 1000 "first" 0 one_cancelled) one_cancelled

store-Sound : Sound store
unfolding contains get
store-Sound = record { item_keys = (refl, tt); cached_final = λ key row h. cc }

leased-Sound : Sound leased_store
unfolding contains get leased_store text_dec any update
leased-Sound = record { item_keys = (refl, tt); cached_final = λ key row h. cc }

store-Counted : Counted store
unfolding find count total
store-Counted = λ k j h. ground arith

abbrev claim_then_commit : Run ext 1 store settled
claim_then_commit =
    found 1000 "first" 0 (some (claim_of 1000 1 "first")) item first_candidate first_claim (
      step
        (commit 1050 (claim_of 1000 1 "first") answer
          (some (record_of ext (claim_of 1000 1 "first") answer)) commits_once)
        here)

Run-bounded_example : 1 + potential settled ≤ potential store
Run-bounded_example = Run-bounded ext 1 store settled store-Sound claim_then_commit

Run-Counted_example : Sound settled × Counted settled
Run-Counted_example = Run-Counted ext 1 store settled store-Sound store-Counted claim_then_commit

claim_next-keeps_lease_example :
    Member
      (record item {
        status = ItemStatus.running;
        attempt_count = 1;
        lease_owner = some "first";
        lease_expires_at = some 1100;
      })
      leased_store.items
unfolding claim_next candidate text_dec any get update
claim_next-keeps_lease_example =
    claim_next-keeps_lease ext 1050 0 1100 "second" leased_store leased_store none
      (record item {
        status = ItemStatus.running;
        attempt_count = 1;
        lease_owner = some "first";
        lease_expires_at = some 1100;
      })
      leased-Sound (inl refl) refl refl (omega arith) refl

-- The second worker commits in between.
abbrev second_settled : Store
unfolding commit_attempt
second_settled =
    after (commit_attempt ext 2040 (claim_of 2000 2 "second") answer taken_over) taken_over

commits_second :
    commit_attempt ext 2040 (claim_of 2000 2 "second") answer taken_over
    ≡ ok (some (record_of ext (claim_of 2000 2 "second") answer)) second_settled
unfolding commit_attempt text_dec decimal find leased_store any get update
commits_second = refl

commit_attempt-lost_example :
    commit_attempt ext 2050 (claim_of 1000 1 "first") answer second_settled ≢ ok none second_settled
commit_attempt-lost_example =
    commit_attempt-lost ext 2000 2050 0 "second" leased_store taken_over second_settled
      second_settled (claim_of 1000 1 "first") (claim_of 2000 2 "second") answer none leased-Sound
      second_claim refl (λ e. ground (arith, eq_iff "first" "second"))
      (Without.commit 2040 (claim_of 2000 2 "second") answer
        (some (record_of ext (claim_of 2000 2 "second") answer)) commits_second Without.here)

cancel_job-claims_none_example : other_claim.job_id ≢ "job"
unfolding cancel_job claim_next find contains text_dec update count any get
cancel_job-claims_none_example =
    cancel_job-claims_none ext 1000 0 0 "first" "job" two_jobs one_cancelled one_cancelled
      other_leased job cancelled_job other_claim (refl, (refl, tt)) refl refl refl here refl

claim_next-Reserves_example : Reserves "project" 0 10 4 store.budgets leased_store.budgets × (4 ≤ 5)
unfolding get text_dec
claim_next-Reserves_example =
    claim_next-Reserves ext 1000 0 "first" store leased_store (claim_of 1000 1 "first") tt
      first_claim

claim_next-serves_example :
    (chosen : Item) × (candidate ext 1000 store.jobs store.items ≡ some chosen)
    × (claimable 1000 chosen ≡ true)
    × (chosen.created_at ≤ 1)
    × (potential leased_store + 1 ≤ potential store)
unfolding any text_dec
claim_next-serves_example =
    claim_next-serves ext 1000 0 "first" store leased_store (some (claim_of 1000 1 "first")) item
      store-Sound (inl refl) refl refl first_claim
