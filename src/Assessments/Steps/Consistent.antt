-- ===== src/Assessments/Steps/Consistent.antt =====
-- Every transaction keeps the invariant of the assessment tables.
use Prim.Native.String.{String}
use perseval.Base.{
  ap, update-key_and, ℕ, ◌≡◌, refl, sym, ◌+◌, Option, none, some, true, same, Member, ◌&&◌,
  and_right, arith,
}
use perseval.Assessments.State.{
  Item, Job, Store, Externals, ClaimedItem, AssessmentCommit, AssessmentRecord, ItemStatus,
  JobStatus, is_open, is_running, job_is_pending,
}
use perseval.Assessments.Jobs.{by_id, finished, stopped, finish_item, finish_without_attempt}
use perseval.Assessments.Claim.Outcome.{
  Outcome, prepared, Lease, idle, cached, exhausted, leases, candidate-found, claim_next-Outcome,
  leased, leasable,
}
use perseval.Assessments.Commit.{commit_cancelled, retry_later, waiting}
use perseval.Assessments.Commit.Outcome.{Effect, cancels, retries, records, commit_attempt-Outcome}
use perseval.Assessments.Steps.{
  claim, commit, cancel, Sound, Step, Run, here, found, step, cancel_job-tables, Step-Keeps,
  claim-Keeps,
}
use perseval.Assessments.Steps.Progress.{running-open, claimable-open}
use perseval.Assessments.Steps.Counts.{
  open-Counted, cancel-Counted, Counted, find-updated, ended-Counted,
}

module _ {Catalog Failure : Type 0} (ext : Externals Catalog Failure) where
  -- A lease and its job's new status.
  Lease-Counted :
      (now : ℕ) (owner : String) (item : Item) (s t : Store) (u : Store) (reserved : ℕ)
      (claimed : ClaimedItem)
      → u.items ≡ s.items
      → u.jobs ≡ s.jobs
      → Lease ext now owner item u reserved claimed t
      → Counted s
      → Counted t
  Lease-Counted now owner item s t u reserved claimed items jobs lease c =
      open-Counted (leasable now item)
        (leased (item.attempt_count + 1) owner claimed.lease_expires_at) s t
        (λ i q. (refl, refl, claimable-open now i (and_right _ _ q))) (rw (← items) lease.items)
        (λ k job h.
          let (old, e, is_k, becomes) =
            find-updated (λ (j : Job). same j.job_id item.job_id && job_is_pending j.status)
              (λ j. record j { status = JobStatus.running }) u.jobs k job (λ j. refl)
              (rw (← lease.jobs) h) in
          (old, rw (← jobs) e, ground arith, λ done. ground arith))
        c

  claim-Counted :
      (now estimate : ℕ) (owner : String) (s t : Store) (r : Option ClaimedItem)
      → Sound s
      → Counted s
      → Outcome ext now owner estimate s r t
      → Counted t
  unfolding finish_item finish_without_attempt
  claim-Counted now estimate owner s t r v c (idle e f g) = rw g c
  claim-Counted now estimate owner s t r v c (cached item row assessments e f g h) =
      let (m, _, _) = candidate-found ext now s.jobs s.items item e in
      ended-Counted item (finished row.status none) s t v m refl (rw h) (rw h) c
  claim-Counted now estimate owner s t r v c (exhausted item e f g) =
      let (m, _, _) = candidate-found ext now s.jobs s.items item e in
      ended-Counted item (stopped ItemStatus.failed "retry_exhausted") s t v m refl (rw g) (rw g) c
  claim-Counted now estimate owner s t r v c (leases item claimed e f left lease) =
      Lease-Counted now owner item s t
        (record s { budgets = (prepared ext now estimate item s).0.budgets })
        (prepared ext now estimate item s).1 claimed refl refl lease c

  commit-Counted :
      (now : ℕ) (claimed : ClaimedItem) (result : AssessmentCommit Catalog Failure) (item : Item)
      (s t : Store) (r : Option AssessmentRecord)
      → Sound s
      → Counted s
      → Member item s.items
      → item.item_id ≡ claimed.item_id
      → item.job_id ≡ claimed.job_id
      → is_running item.status ≡ true
      → Effect ext now claimed result item s r t
      → Counted t
  unfolding commit_cancelled retry_later finish_item
  commit-Counted now claimed result item s t r v c m is_item is_job running (cancels e f) =
      ended-Counted item (finished ItemStatus.cancelled (some "cancelled")) s t v m refl
        (rw (f, is_item)) (rw (f, is_item, is_job)) c
  commit-Counted now claimed result item s t r v c m is_item is_job running (retries a b e f) =
      let to = waiting ext now item.attempt_count result in
      let opens : is_open item.status ≡ true = running-open item running in
      open-Counted (λ i. by_id item.item_id i && is_open i.status) to s t
        (λ i q. (refl, refl, and_right _ _ q))
        (rw (f, ← is_item)
          (sym (
            update-key_and (λ (i : Item). i.item_id) (λ i. is_open i.status) to s.items item
              v.item_keys m opens)))
        (λ k job h. (job, rw (← ap (λ (x : Store). x.jobs) f) h, refl, λ done. done)) c
  commit-Counted now claimed result item s t r v c m is_item is_job running
        (records assessments e f) =
      ended-Counted item (finished result.status result.error_code) s t v m refl (rw (f, is_item))
        (rw (f, is_item, is_job)) c

  pub Step-Counted : {s t : Store} → Sound s → Counted s → Step ext s t → Counted t
  Step-Counted {s} {t} v c (claim now owner estimate r h) =
      claim-Counted now estimate owner s t r v c (claim_next-Outcome ext now estimate owner s t r h)
  Step-Counted {s} {t} v c (commit now claimed result r h) =
      let o = commit_attempt-Outcome ext now claimed result s t r h in
      commit-Counted now claimed result o.item s t r v c o.listed o.item_id o.job_id o.running
        o.effect
  Step-Counted {s} {t} v c (cancel job_id job h) =
      rw (cancel_job-tables job_id job s t h) (cancel-Counted job_id s c)

  -- Claims, commits and cancellations in any order keep the keys of the items, the finality of what is
  -- cached, the count of terminal items that each job carries, and that no completed job has an
  -- open item.
  pub Run-Counted :
      (n : ℕ) (s t : Store) → Sound s → Counted s → Run ext n s t → Sound t × Counted t
  Run-Counted n s t v c here = (v, c)
  Run-Counted n s t v c (found {n = m} {t = u} now owner estimate r item e h rest) =
      let o = claim_next-Outcome ext now estimate owner s u r h in
      Run-Counted m u t (claim-Keeps ext now estimate owner s u r v o).sound
        (claim-Counted now estimate owner s u r v c o) rest
  Run-Counted n s t v c (step {t = u} first rest) =
      Run-Counted n u t (Step-Keeps ext v first).sound (Step-Counted v c first) rest
