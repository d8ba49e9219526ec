-- ===== src/Assessments/Steps.antt =====
-- The transactions of crates/perseval-store/src/workspace/assessments.rs in any order, by any
-- workers: the steps of the tables, and the facts that every step keeps.
pub mod Progress
pub mod Counts
pub mod Consistent
pub mod Leases
pub mod Lost
pub mod Cancelled
pub mod Served
use Prim.Native.String.{String}
use perseval.Base.{
  find, ℕ, zero, suc, ◌≡◌, ◌≢◌, refl, List, Option, none, some, Bool, true, keyed, update, get,
  get-put, put, text_dec, PrimaryKey, map-update, Bool-cases, arith, Option-cases, ◌+◌, inl, inr,
}
use perseval.Assessments.State.{
  Item, Job, Store, AssessmentRecord, AssessmentCommit, Externals, ClaimedItem, Result, ok,
  is_terminal, ItemStatus,
}
use perseval.Assessments.Jobs.{
  by_id, finished, stopped, finish_item, finish_without_attempt, refresh_job_counts,
}
use perseval.Assessments.Claim.{candidate, claim_next}
use perseval.Assessments.Claim.Outcome.{
  leased, leasable, Outcome, idle, cached, exhausted, leases, claim_next-Outcome,
}
use perseval.Assessments.Commit.{
  waiting, pending_of, called_off, cancelled_tables, commit_attempt, cancel_job, commit_cancelled,
  retry_later, cached_with, record_of, caches,
}
use perseval.Assessments.Commit.Outcome.{commit_attempt-Outcome, Effect, cancels, retries, records}

pub cancel_job-tables :
    (job_id : String) (job : Job) (s t : Store)
    → cancel_job job_id s ≡ ok job t
    → t ≡ cancelled_tables job_id s
unfolding cancel_job
cancel_job-tables job_id job s t h =
    elim (Option-cases
      (find (keyed (λ (j : Job). j.job_id) job_id) (cancelled_tables job_id s).jobs)) [
        | inl e ↦ ground arith
        | inr (listed, e) ↦ ground arith
      ]

-- The primary key of the items, and that only final results are cached.
pub record Sound (s : Store) : Type 0 where
  pub item_keys : PrimaryKey (λ (i : Item). i.item_id) s.items
  pub cached_final :
      (key : String) (row : AssessmentRecord)
      → get text_dec key s.cache ≡ some row
      → is_terminal row.status ≡ true

module _ {Catalog Failure : Type 0} (ext : Externals Catalog Failure) where
  -- One transaction that succeeds.
  pub data Step (s t : Store) : Type 0 where
    claim :
        (now : ℕ) (owner : String) (estimate : ℕ) (r : Option ClaimedItem)
        → claim_next ext now owner estimate s ≡ ok r t
        → Step s t
    commit :
        (now : ℕ) (claimed : ClaimedItem) (result : AssessmentCommit Catalog Failure)
        (r : Option AssessmentRecord)
        → commit_attempt ext now claimed result s ≡ ok r t
        → Step s t
    cancel : (job_id : String) (job : Job) → cancel_job job_id s ≡ ok job t → Step s t

  -- Transactions one after the other, `n` of them claims that find an item.
  pub data Run : ℕ → Store → Store → Type 0 where
    here : {s : Store} → Run 0 s s
    found :
        {n : ℕ} {s t u : Store} (now : ℕ) (owner : String) (estimate : ℕ) (r : Option ClaimedItem)
        (item : Item)
        → candidate ext now s.jobs s.items ≡ some item
        → claim_next ext now owner estimate s ≡ ok r t
        → Run n t u
        → Run (suc n) s u
    step : {n : ℕ} {s t u : Store} → Step s t → Run n t u → Run n s u

  -- What every step keeps of the tables.
  pub record Keeps (s t : Store) : Type 0 where
    pub policies : t.policies ≡ s.policies
    pub sound : Sound t

  edited-Sound :
      (p : Item → Bool) (f : Item → Item) (s t : Store)
      → ((i : Item) → (f i).item_id ≡ i.item_id)
      → t.items ≡ update p f s.items
      → t.cache ≡ s.cache
      → Sound s
      → Sound t
  edited-Sound p f s t same_id items cache v = record {
    item_keys = rw (items, map-update (λ (i : Item). i.item_id) p f s.items same_id) v.item_keys;
    cached_final = rw cache v.cached_final;
  }

  pub claim-Keeps :
      (now estimate : ℕ) (owner : String) (s t : Store) (r : Option ClaimedItem)
      → Sound s
      → Outcome ext now owner estimate s r t
      → Keeps s t
  unfolding finish_item finish_without_attempt refresh_job_counts
  claim-Keeps now estimate owner s t r v (idle e f g) = record {
    policies = ground arith;
    sound = rw g v;
  }
  claim-Keeps now estimate owner s t r v (cached item row assessments e f g h) = record {
    policies = rw h;
    sound =
        edited-Sound (by_id item.item_id) (finished row.status none) s t (λ i. refl) (rw h) (rw h)
          v;
  }
  claim-Keeps now estimate owner s t r v (exhausted item e f g) = record {
    policies = rw g;
    sound =
        edited-Sound (by_id item.item_id) (stopped ItemStatus.failed "retry_exhausted") s t
          (λ i. refl) (rw g) (rw g) v;
  }
  claim-Keeps now estimate owner s t r v (leases item claimed e f left lease) = record {
    policies = lease.policies;
    sound =
        edited-Sound (leasable now item)
          (leased (item.attempt_count + 1) owner claimed.lease_expires_at) s t (λ i. refl)
          lease.items lease.cache v;
  }

  -- The cache gets the record of the commit or stays.
  cached_with-final :
      (claimed : ClaimedItem) (row : AssessmentRecord) (s : Store)
      → Sound s
      → is_terminal row.status ≡ true
      → (key : String) (other : AssessmentRecord)
      → get text_dec key (cached_with ext claimed row s.cache) ≡ some other
      → is_terminal other.status ≡ true
  cached_with-final claimed row s v final key other h = elim (Option-cases row.evaluation) [
    | inl e ↦ v.cached_final key other (ground arith)
    | inr (evaluation, e) ↦ elim (Bool-cases (caches row)) [
      | inr not_cached ↦ v.cached_final key other (ground arith)
      | inl goes_in ↦ elim (text_dec claimed.cache_key key) [
        | yes same_key ↦
            let this : row ≡ other =
              ground (arith, get-put text_dec claimed.cache_key key row s.cache) in
            rw (← this) final
        | no other_key ↦
            v.cached_final key other
              (ground (arith, get-put text_dec claimed.cache_key key row s.cache))
      ]
    ]
  ]

  pub commit-Keeps :
      (now : ℕ) (claimed : ClaimedItem) (result : AssessmentCommit Catalog Failure) (item : Item)
      (s t : Store) (r : Option AssessmentRecord)
      → Sound s
      → is_terminal result.status ≡ true
      → Effect ext now claimed result item s r t
      → Keeps s t
  unfolding commit_cancelled retry_later finish_item refresh_job_counts
  commit-Keeps now claimed result item s t r v final (cancels e f) = record {
    policies = rw f;
    sound =
        edited-Sound (by_id claimed.item_id) (finished ItemStatus.cancelled (some "cancelled")) s t
          (λ i. refl) (rw f) (rw f) v;
  }
  commit-Keeps now claimed result item s t r v final (retries a b e f) = record {
    policies = rw f;
    sound =
        edited-Sound (by_id claimed.item_id) (waiting ext now item.attempt_count result) s t
          (λ i. refl) (rw f) (rw f) v;
  }
  commit-Keeps now claimed result item s t r v final (records assessments e f) = record {
    policies = rw f;
    sound = record {
      item_keys =
          rw
            (
              f,
              map-update (λ (i : Item). i.item_id) (by_id claimed.item_id)
                  (finished result.status result.error_code) s.items (λ i. refl),
            )
            v.item_keys;
      cached_final = rw f (cached_with-final claimed (record_of ext claimed result) s v final);
    };
  }

  cancel-Keeps :
      (job_id : String) (job : Job) (s t : Store)
      → Sound s
      → cancel_job job_id s ≡ ok job t
      → Keeps s t
  unfolding cancelled_tables refresh_job_counts
  cancel-Keeps job_id job s t v h =
      let eq = cancel_job-tables job_id job s t h in
      record {
        policies = rw eq;
        sound = edited-Sound (pending_of job_id) called_off s t (λ i. refl) (rw eq) (rw eq) v;
      }

  pub Step-Keeps : {s t : Store} → Sound s → Step s t → Keeps s t
  Step-Keeps {s} {t} v (claim now owner estimate r h) =
      claim-Keeps now estimate owner s t r v (claim_next-Outcome ext now estimate owner s t r h)
  Step-Keeps {s} {t} v (commit now claimed result r h) =
      let o = commit_attempt-Outcome ext now claimed result s t r h in
      commit-Keeps now claimed result o.item s t r v o.terminal o.effect
  Step-Keeps {s} {t} v (cancel job_id job h) = cancel-Keeps job_id job s t v h
