-- ===== src/Assessments/Steps/Cancelled.antt =====
-- A job whose cancellation was asked for hands out no more work.
use Prim.Native.String.{String}
use perseval.Base.{
  ℕ, ◌≡◌, ◌≢◌, refl, List, [], ◌∷◌, Option, some, Bool, true, false, not, any, find, same, text_dec,
  update, contains, map, PrimaryKey, ◌&&◌, arith, ap,
}
use perseval.Assessments.State.{
  Item, Job, Store, Externals, ClaimedItem, AssessmentCommit, AssessmentRecord, JobStatus, ok,
  is_cancellable, job_is_pending,
}
use perseval.Assessments.Jobs.{finish_item, finish_without_attempt, refresh_job_counts}
use perseval.Assessments.Claim.{claim_next, job_live}
use perseval.Assessments.Claim.Outcome.{
  Outcome, idle, cached, exhausted, leases, candidate-found, claim_next-Outcome,
}
use perseval.Assessments.Commit.{
  cancel_job, cancelled_tables, cancellable, called_job, commit_cancelled, retry_later,
}
use perseval.Assessments.Commit.Outcome.{Effect, cancels, retries, records, commit_attempt-Outcome}
use perseval.Assessments.Steps.{
  claim, commit, cancel, Step, Run, here, found, step, cancel_job-tables,
}
use perseval.Assessments.Steps.Counts.{named}

abbrev is_live : String → Job → Bool
is_live k j = same j.job_id k && not j.cancel_requested

-- An update that asks for no less cancellation makes no job live.
live-update :
    (k : String) (p : Job → Bool) (f : Job → Job) (jobs : List Job)
    → ((j : Job) → is_live k j ≡ false → is_live k (f j) ≡ false)
    → job_live k jobs ≡ false
    → job_live k (update p f jobs) ≡ false
unfolding any update
live-update k p f [] keeps h = refl
live-update k p f (j ∷ jobs) keeps h = ground (arith, keeps j, live-update k p f jobs keeps)

absent-live :
    (k : String) (jobs : List Job)
    → contains text_dec k (map (λ (j : Job). j.job_id) jobs) ≡ false
    → job_live k jobs ≡ false
unfolding any contains
absent-live k [] h = refl
absent-live k (j ∷ jobs) h = ground (arith, absent-live k jobs)

-- The statement of the cancellation, on a job that it applies to.
called-live :
    (k : String) (jobs : List Job) (job : Job)
    → PrimaryKey (λ (j : Job). j.job_id) jobs
    → find (named k) jobs ≡ some job
    → is_cancellable job.status ≡ true
    → job_live k (update (cancellable k) called_job jobs) ≡ false
unfolding any update find contains
called-live k [] job d h c = cc
called-live k (j ∷ jobs) job d h c = elim (text_dec j.job_id k) [
  | yes p ↦ ground (
    arith,
    live-update k (cancellable k) called_job jobs (λ i q. ground arith)
        (absent-live k jobs (rw (← p) d.0)),
  )
  | no n ↦ ground (arith, called-live k jobs job d.1)
]

-- What `refresh_job_counts` sets of a job.
abbrev with_counts : ℕ → JobStatus → Job → Job
with_counts terminal status j = record j { terminal_count = terminal; status = status }

refresh-live :
    (k job_id : String) (s t : Store) (terminal : ℕ) (status : JobStatus)
    → t.jobs ≡ update (named job_id) (with_counts terminal status) s.jobs
    → job_live k s.jobs ≡ false
    → job_live k t.jobs ≡ false
refresh-live k job_id s t terminal status e h =
    rw e (live-update k (named job_id) (with_counts terminal status) s.jobs (λ j q. q) h)

module _ {Catalog Failure : Type 0} (ext : Externals Catalog Failure) where
  claim-live :
      (now estimate : ℕ) (owner : String) (s t : Store) (r : Option ClaimedItem) (k : String)
      → job_live k s.jobs ≡ false
      → Outcome ext now owner estimate s r t
      → job_live k t.jobs ≡ false
  unfolding finish_item finish_without_attempt refresh_job_counts
  claim-live now estimate owner s t r k h (idle e f g) = rw g h
  claim-live now estimate owner s t r k h (cached item row assessments e f g q) =
      refresh-live k item.job_id s t _ _ (ap (λ (x : Store). x.jobs) q) h
  claim-live now estimate owner s t r k h (exhausted item e f g) =
      refresh-live k item.job_id s t _ _ (ap (λ (x : Store). x.jobs) g) h
  claim-live now estimate owner s t r k h (leases item claimed e f left lease) = rw lease.jobs (
      live-update k (λ (j : Job). same j.job_id item.job_id && job_is_pending j.status)
        (λ j. record j { status = JobStatus.running }) s.jobs (λ j q. q) h)

  commit-live :
      (now : ℕ) (claimed : ClaimedItem) (result : AssessmentCommit Catalog Failure) (item : Item)
      (s t : Store) (r : Option AssessmentRecord) (k : String)
      → job_live k s.jobs ≡ false
      → Effect ext now claimed result item s r t
      → job_live k t.jobs ≡ false
  unfolding commit_cancelled retry_later finish_item refresh_job_counts
  commit-live now claimed result item s t r k h (cancels e f) =
      refresh-live k claimed.job_id s t _ _ (ap (λ (x : Store). x.jobs) f) h
  commit-live now claimed result item s t r k h (retries a b e f) = rw f h
  commit-live now claimed result item s t r k h (records assessments e f) =
      refresh-live k claimed.job_id s t _ _ (ap (λ (x : Store). x.jobs) f) h

  cancel-live :
      (job_id k : String) (s : Store)
      → job_live k s.jobs ≡ false
      → job_live k (cancelled_tables job_id s).jobs ≡ false
  unfolding cancelled_tables refresh_job_counts
  cancel-live job_id k s h =
      live-update k (named job_id) _ (update (cancellable job_id) called_job s.jobs) (λ j q. q)
        (live-update k (cancellable job_id) called_job s.jobs (λ j q. ground arith) h)

  Step-live :
      {s t : Store} (k : String)
      → job_live k s.jobs ≡ false
      → Step ext s t
      → job_live k t.jobs ≡ false
  Step-live {s} {t} k h (claim now owner estimate r e) =
      claim-live now estimate owner s t r k h (claim_next-Outcome ext now estimate owner s t r e)
  Step-live {s} {t} k h (commit now claimed result r e) =
      let o = commit_attempt-Outcome ext now claimed result s t r e in
      commit-live now claimed result o.item s t r k h o.effect
  Step-live {s} {t} k h (cancel job_id job e) =
      rw (cancel_job-tables job_id job s t e) (cancel-live job_id k s h)

  Run-live :
      (n : ℕ) (s t : Store) (k : String)
      → job_live k s.jobs ≡ false
      → Run ext n s t
      → job_live k t.jobs ≡ false
  Run-live n s t k h here = h
  Run-live n s t k h (found {n = m} {t = u} now owner estimate r item e q rest) =
      Run-live m u t k
        (claim-live now estimate owner s u r k h
          (claim_next-Outcome ext now estimate owner s u r q))
        rest
  Run-live n s t k h (step {t = u} first rest) = Run-live n u t k (Step-live k h first) rest

  claimed-live :
      (now estimate : ℕ) (owner : String) (s t : Store) (claimed : ClaimedItem)
      → Outcome ext now owner estimate s (some claimed) t
      → job_live claimed.job_id s.jobs ≡ true
  claimed-live now estimate owner s t claimed (idle e f g) = cc
  claimed-live now estimate owner s t claimed (cached item row assessments e f g h) = cc
  claimed-live now estimate owner s t claimed (exhausted item e f g) = cc
  claimed-live now estimate owner s t claimed (leases item other e f left lease) =
      let (m, c, live) = candidate-found ext now s.jobs s.items item e in
      let this : claimed.job_id ≡ item.job_id = ground (arith, lease.job_id) in rw this live

  -- After the cancellation of a pending, running or partial job, and any transactions after it, no claim
  -- gets an item of that job.
  pub cancel_job-claims_none :
      (now estimate n : ℕ) (owner k : String) (s t u w : Store) (job answer : Job)
      (claimed : ClaimedItem)
      → PrimaryKey (λ (j : Job). j.job_id) s.jobs
      → find (named k) s.jobs ≡ some job
      → is_cancellable job.status ≡ true
      → cancel_job k s ≡ ok answer t
      → Run ext n t u
      → claim_next ext now owner estimate u ≡ ok (some claimed) w
      → claimed.job_id ≢ k
  unfolding cancelled_tables refresh_job_counts
  cancel_job-claims_none now estimate n owner k s t u w job answer claimed d listed c h run q =
      λ same_job.
        let dead : job_live k t.jobs ≡ false = rw (cancel_job-tables k answer s t h) (
          live-update k (named k) _ (update (cancellable k) called_job s.jobs) (λ j q. q)
            (called-live k s.jobs job d listed c)) in
        let later = Run-live n t u k dead run in
        let live =
          claimed-live now estimate owner u w claimed
            (claim_next-Outcome ext now estimate owner u w (some claimed) q) in
        ground (arith, same_job, later, live)
