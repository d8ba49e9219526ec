-- ===== src/Assessments/Steps/Progress.antt =====
-- The work of the assessment workers comes to an end: how many claims can still find an item.
use Prim.Native.String.{String}
use perseval.Base.{
  ℕ, suc, ◌≡◌, refl, ◌+◌, ◌-◌, ◌≤◌, List, Option, none, some, Bool, true, false, if◌then◌else◌,
  update, total, total-update_key, total-update_le, update-key_and, Member, ◌&&◌, ◌||◌, arith, leb,
  ◌∙◌,
}
use perseval.Assessments.State.{
  Item, Store, Policy, Externals, ClaimedItem, AssessmentCommit, AssessmentRecord, ItemStatus,
  is_open, is_terminal, is_running, is_pending,
}
use perseval.Assessments.Jobs.{
  by_id, finished, stopped, finish_item, finish_without_attempt, refresh_job_counts,
}
use perseval.Assessments.Claim.{claimable, policy_of, candidate, expired}
use perseval.Assessments.Claim.Outcome.{
  Outcome, idle, cached, exhausted, leases, candidate-found, claim_next-Outcome, leased,
}
use perseval.Assessments.Commit.{
  commit_cancelled, retry_later, waiting, cancelled_tables, pending_of, called_off,
}
use perseval.Assessments.Commit.Outcome as Committed
use perseval.Assessments.Commit.Outcome.{Effect, cancels, retries, records}
use perseval.Assessments.Steps.{
  here, found, step, Sound, Step, Run, Option-cases, claim, found, claim-Keeps, commit, inr, inl,
  step, Step-Keeps, cancel, cancel_job-tables,
}
use perseval.Assessments.Commit.Outcome.{commit_attempt-Outcome}

-- How often an open item can still be found: once for each attempt left, and once to end it.
abbrev pub visits_left : List (String × Policy) → Item → ℕ
visits_left policies i =
    if is_open i.status
    then suc ((policy_of i.project_id policies).maximum_attempts - i.attempt_count)
    else 0

abbrev pub potential : Store → ℕ
potential s = total (visits_left s.policies) s.items

open_of :
    (status : ItemStatus) (a b : Bool)
    → ((is_pending status && a) || (is_running status && b)) ≡ true
    → is_open status ≡ true
open_of ItemStatus.pending a b h = refl
open_of ItemStatus.running a b h = refl
open_of _ a b h = cc

pub claimable-open : (now : ℕ) (i : Item) → claimable now i ≡ true → is_open i.status ≡ true
claimable-open now i h =
    open_of i.status (leb i.next_attempt_at now) (expired now i.lease_expires_at) h

pub running-open : (i : Item) → is_running i.status ≡ true → is_open i.status ≡ true
running-open i h = open_of i.status false true (ground arith)

module _ {Catalog Failure : Type 0} (ext : Externals Catalog Failure) where
  -- An item that ends takes its visits with it.
  ended-potential :
      (item : Item) (f : Item → Item) (s t : Store)
      → Sound s
      → Member item s.items
      → is_open item.status ≡ true
      → is_terminal (f item).status ≡ true
      → t.policies ≡ s.policies
      → t.items ≡ update (by_id item.item_id) f s.items
      → potential t + 1 ≤ potential s
  ended-potential item f s t v m was now_ policies items =
      rw (policies, items)
        (ground (
          arith,
          total-update_key (λ (i : Item). i.item_id) (visits_left s.policies) f s.items item
              v.item_keys m,
        ))

  pub claim-potential :
      (now estimate : ℕ) (owner : String) (s t : Store) (r : Option ClaimedItem) (item : Item)
      → Sound s
      → candidate ext now s.jobs s.items ≡ some item
      → Outcome ext now owner estimate s r t
      → potential t + 1 ≤ potential s
  unfolding finish_item finish_without_attempt refresh_job_counts
  claim-potential now estimate owner s t r item v chosen (idle e f g) = cc
  claim-potential now estimate owner s t r item v chosen (cached i row assessments e c f g) =
      let (m, open_, _) = candidate-found ext now s.jobs s.items i e in
      ended-potential i (finished row.status none) s t v m (claimable-open now i open_)
        (v.cached_final i.cache_key row c) (rw g) (rw g)
  claim-potential now estimate owner s t r item v chosen (exhausted i e f g) =
      let (m, open_, _) = candidate-found ext now s.jobs s.items i e in
      ended-potential i (stopped ItemStatus.failed "retry_exhausted") s t v m
        (claimable-open now i open_) refl (rw g) (rw g)
  claim-potential now estimate owner s t r item v chosen (leases i claimed e f left lease) =
      let (m, open_, _) = candidate-found ext now s.jobs s.items i e in
      let to = leased (i.attempt_count + 1) owner claimed.lease_expires_at in
      let edit : t.items ≡ update (by_id i.item_id) to s.items =
        lease.items
        ∙ update-key_and (λ (j : Item). j.item_id) (claimable now) to s.items i v.item_keys m
            open_ in
      rw (lease.policies, edit)
        (ground (
          arith,
          claimable-open now i open_,
          total-update_key (λ (j : Item). j.item_id) (visits_left s.policies) to s.items i
              v.item_keys m,
        ))

  idle_le :
      (now estimate : ℕ) (owner : String) (s t : Store) (r : Option ClaimedItem)
      → candidate ext now s.jobs s.items ≡ none
      → Outcome ext now owner estimate s r t
      → potential t ≤ potential s
  idle_le now estimate owner s t r h (idle e f g) = rw g (omega arith)
  idle_le now estimate owner s t r h (cached i row assessments e c f g) = cc
  idle_le now estimate owner s t r h (exhausted i e f g) = cc
  idle_le now estimate owner s t r h (leases i claimed e f left lease) = cc

  claim_le :
      (now estimate : ℕ) (owner : String) (s t : Store) (r : Option ClaimedItem)
      → Sound s
      → Outcome ext now owner estimate s r t
      → potential t ≤ potential s
  claim_le now estimate owner s t r v o = elim (Option-cases (candidate ext now s.jobs s.items)) [
    | inr (item, e) ↦ omega (arith, claim-potential now estimate owner s t r item v e o)
    | inl e ↦ idle_le now estimate owner s t r e o
  ]

  -- An item that waits for a retry keeps its visits.
  Effect-le :
      (now : ℕ) (claimed : ClaimedItem) (result : AssessmentCommit Catalog Failure) (item : Item)
      (s t : Store) (r : Option AssessmentRecord)
      → Sound s
      → Member item s.items
      → item.item_id ≡ claimed.item_id
      → is_running item.status ≡ true
      → is_terminal result.status ≡ true
      → Effect ext now claimed result item s r t
      → potential t ≤ potential s
  unfolding commit_cancelled retry_later finish_item refresh_job_counts
  Effect-le now claimed result item s t r v m same_id running final (cancels e f) = rw f (
      total-update_le (visits_left s.policies) (by_id claimed.item_id)
        (finished ItemStatus.cancelled (some "cancelled")) s.items (λ i h. ground arith))
  Effect-le now claimed result item s t r v m same_id running final (retries a b e f) =
      rw (f, ← same_id)
        (ground (
          arith,
          running-open item running,
          total-update_key (λ (i : Item). i.item_id) (visits_left s.policies)
              (waiting ext now item.attempt_count result) s.items item v.item_keys m,
        ))
  Effect-le now claimed result item s t r v m same_id running final (records assessments e f) =
      rw f (
        total-update_le (visits_left s.policies) (by_id claimed.item_id)
          (finished result.status result.error_code) s.items (λ i h. ground arith))

  commit_le :
      (now : ℕ) (claimed : ClaimedItem) (result : AssessmentCommit Catalog Failure) (s t : Store)
      (r : Option AssessmentRecord)
      → Sound s
      → Committed.Outcome ext now claimed result s r t
      → potential t ≤ potential s
  unfolding commit_cancelled retry_later finish_item refresh_job_counts
  commit_le now claimed result s t r v o =
      Effect-le now claimed result o.item s t r v o.listed o.item_id o.running o.terminal o.effect

  cancel_le : (job_id : String) (s : Store) → potential (cancelled_tables job_id s) ≤ potential s
  unfolding cancelled_tables refresh_job_counts
  cancel_le job_id s =
      total-update_le (visits_left s.policies) (pending_of job_id) called_off s.items
        (λ i h. ground arith)

  Step-le : {s t : Store} → Sound s → Step ext s t → potential t ≤ potential s
  Step-le {s} {t} v (claim now owner estimate r h) =
      claim_le now estimate owner s t r v (claim_next-Outcome ext now estimate owner s t r h)
  Step-le {s} {t} v (commit now claimed result r h) =
      commit_le now claimed result s t r v (commit_attempt-Outcome ext now claimed result s t r h)
  Step-le {s} {t} v (cancel job_id job h) =
      rw (cancel_job-tables job_id job s t h) (cancel_le job_id s)

  -- However claims, commits and cancellations follow on one another, the claims that find an item are
  -- no more than the attempts which the policies leave to the open items, and one for each such item.
  pub Run-bounded : (n : ℕ) (s t : Store) → Sound s → Run ext n s t → n + potential t ≤ potential s
  Run-bounded n s t v here = omega arith
  Run-bounded n s t v (found {n = m} {t = u} now owner estimate r item e h rest) =
      let o = claim_next-Outcome ext now estimate owner s u r h in
      omega (
        arith,
        claim-potential now estimate owner s u r item v e o,
        Run-bounded m u t (claim-Keeps ext now estimate owner s u r v o).sound rest,
      )
  Run-bounded n s t v (step {t = u} first rest) =
      omega (arith, Step-le v first, Run-bounded n u t (Step-Keeps ext v first).sound rest)
