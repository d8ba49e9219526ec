-- ===== src/Assessments/Steps/Lost.antt =====
-- A claim of assessments.rs that another worker has taken over: what it may still commit.
use Prim.Native.String.{String}
use perseval.Base.{
  ℕ, ◌≡◌, ◌≢◌, refl, List, [], ◌∷◌, Option, none, some, Bool, true, false, any, any-Member,
  any-none, same, update, Member-unique, Bool-cases, ◌&&◌, arith, same→eq, eq→same, sym, ◌∙◌, inl,
  inr, ◌+◌, ap,
}
use perseval.Assessments.State.{
  Item, Job, Store, Externals, ClaimedItem, AssessmentCommit, AssessmentRecord, ItemStatus, ok,
  is_running,
}
use perseval.Assessments.Jobs.{
  by_id, finished, stopped, finish_item, finish_without_attempt, refresh_job_counts,
}
use perseval.Assessments.Claim.{claim_next}
use perseval.Assessments.Claim.Outcome.{
  Outcome, idle, cached, exhausted, leases, claim_next-Outcome, leased, leasable,
}
use perseval.Assessments.Commit.{
  commit_attempt, cancel_job, cancelled_tables, pending_of, called_off, commit_cancelled,
  retry_later, waiting, owned_by,
}
use perseval.Assessments.Commit.Outcome.{Effect, cancels, retries, records, commit_attempt-Outcome}
use perseval.Assessments.Steps.{Sound, cancel_job-tables, claim-Keeps}
use perseval.Assessments.Steps.Leases.{leased-Member}

-- The item runs under a lease of this owner.
abbrev pub held_by : String → String → Item → Bool
held_by owner id i = same i.item_id id && (is_running i.status && owned_by owner i.lease_owner)

-- An update that leases nothing to the owner.
held-update :
    (owner id : String) (p : Item → Bool) (f : Item → Item) (items : List Item)
    → ((i : Item) → held_by owner id i ≡ false → held_by owner id (f i) ≡ false)
    → any (held_by owner id) items ≡ false
    → any (held_by owner id) (update p f items) ≡ false
unfolding any update
held-update owner id p f [] keeps h = refl
held-update owner id p f (i ∷ items) keeps h =
    ground (arith, keeps i, held-update owner id p f items keeps)

finished-held :
    (owner id : String) (status : ItemStatus) (reason : Option String) (i : Item)
    → held_by owner id (finished status reason i) ≡ false
finished-held owner id status reason i = ground arith

owned→eq :
    (name owner : String) (o : Option String)
    → o ≡ some owner
    → owned_by name o ≡ true
    → owner ≡ name
owned→eq name owner none h k = cc
owned→eq name owner (some other) h k =
    let this : other ≡ name = same→eq other name k in ground arith

module _ {Catalog Failure : Type 0} (ext : Externals Catalog Failure) where
  -- Transactions one after the other, in which this worker claims nothing.
  pub data Without (name : String) : Store → Store → Type 0 where
    here : {s : Store} → Without name s s
    claim :
        {s t u : Store} (now : ℕ) (owner : String) (estimate : ℕ) (r : Option ClaimedItem)
        → owner ≢ name
        → claim_next ext now owner estimate s ≡ ok r t
        → Without name t u
        → Without name s u
    commit :
        {s t u : Store} (now : ℕ) (claimed : ClaimedItem)
        (result : AssessmentCommit Catalog Failure) (r : Option AssessmentRecord)
        → commit_attempt ext now claimed result s ≡ ok r t
        → Without name t u
        → Without name s u
    cancel :
        {s t u : Store} (job_id : String) (job : Job)
        → cancel_job job_id s ≡ ok job t
        → Without name t u
        → Without name s u

  claim-held :
      (now estimate : ℕ) (owner name id : String) (s t : Store) (r : Option ClaimedItem)
      → owner ≢ name
      → any (held_by name id) s.items ≡ false
      → Outcome ext now owner estimate s r t
      → any (held_by name id) t.items ≡ false
  unfolding finish_item finish_without_attempt refresh_job_counts
  claim-held now estimate owner name id s t r n h (idle e f g) = rw g h
  claim-held now estimate owner name id s t r n h (cached item row assessments e f g q) = rw q (
      held-update name id (by_id item.item_id) (finished row.status none) s.items
        (λ i k. finished-held name id row.status none i) h)
  claim-held now estimate owner name id s t r n h (exhausted item e f g) = rw g (
      held-update name id (by_id item.item_id) (stopped ItemStatus.failed "retry_exhausted") s.items
        (λ i k. ground arith) h)
  claim-held now estimate owner name id s t r n h (leases item claimed e f left lease) =
      rw lease.items (
        held-update name id (leasable now item)
          (leased (item.attempt_count + 1) owner claimed.lease_expires_at) s.items
          (λ i k. elim (Bool-cases (same owner name)) [
            | inl e' ↦ absurd (n (same→eq owner name e'))
            | inr e' ↦ ground arith
          ])
          h)

  commit-held :
      (now : ℕ) (claimed : ClaimedItem) (result : AssessmentCommit Catalog Failure) (item : Item)
      (s t : Store) (r : Option AssessmentRecord) (name id : String)
      → any (held_by name id) s.items ≡ false
      → Effect ext now claimed result item s r t
      → any (held_by name id) t.items ≡ false
  unfolding commit_cancelled retry_later finish_item refresh_job_counts
  commit-held now claimed result item s t r name id h (cancels e f) = rw f (
      held-update name id (by_id claimed.item_id) (finished ItemStatus.cancelled (some "cancelled"))
        s.items (λ i k. finished-held name id ItemStatus.cancelled (some "cancelled") i) h)
  commit-held now claimed result item s t r name id h (retries a b e f) = rw f (
      held-update name id (by_id claimed.item_id) (waiting ext now item.attempt_count result)
        s.items (λ i k. ground arith) h)
  commit-held now claimed result item s t r name id h (records assessments e f) = rw f (
      held-update name id (by_id claimed.item_id) (finished result.status result.error_code) s.items
        (λ i k. finished-held name id result.status result.error_code i) h)

  Without-held :
      (name id : String) (s t : Store)
      → any (held_by name id) s.items ≡ false
      → Without name s t
      → any (held_by name id) t.items ≡ false
  unfolding cancelled_tables refresh_job_counts
  Without-held name id s t h here = h
  Without-held name id s t h (claim {t = u} now owner estimate r n e rest) =
      Without-held name id u t
        (claim-held now estimate owner name id s u r n h
          (claim_next-Outcome ext now estimate owner s u r e))
        rest
  Without-held name id s t h (commit {t = u} now claimed result r e rest) =
      let o = commit_attempt-Outcome ext now claimed result s u r e in
      Without-held name id u t (commit-held now claimed result o.item s u r name id h o.effect) rest
  Without-held name id s t h (cancel {t = u} job_id job e rest) =
      Without-held name id u t
        (rw (cancel_job-tables job_id job s u e)
          (held-update name id (pending_of job_id) called_off s.items (λ i k. ground arith) h))
        rest

  -- The claim of an item by another worker ends the lease of the one before.
  taken-held :
      (now estimate : ℕ) (owner name : String) (s t : Store) (new : ClaimedItem)
      → Sound t
      → name ≢ owner
      → Outcome ext now owner estimate s (some new) t
      → any (held_by name new.item_id) t.items ≡ false
  taken-held now estimate owner name s t new v other first =
      let (row, m, is_new, owns) = leased-Member ext now estimate owner s t new first in
      any-none (held_by name new.item_id) t.items (λ i n.
        elim (Bool-cases (held_by name new.item_id i)) [
          | inr e ↦ e
          | inl e ↦ absurd (
              let this : same i.item_id new.item_id ≡ true = ground arith in
              let owned : owned_by name i.lease_owner ≡ true = ground arith in
              let one =
                Member-unique (λ (i : Item). i.item_id) t.items i row v.item_keys n m
                  (same→eq _ _ this ∙ sym is_new) in
              other (
                sym (
                  owned→eq name owner i.lease_owner (ap (λ (i : Item). i.lease_owner) one ∙ owns)
                    owned)))
        ])

  -- Once another worker has claimed an item, no commit of an earlier claim of it succeeds for as long as
  -- the worker of that claim claims nothing, whatever the workers claim, commit and cancel
  -- otherwise.
  pub commit_attempt-lost :
      (now later estimate : ℕ) (owner : String) (s t u w : Store) (old new : ClaimedItem)
      (result : AssessmentCommit Catalog Failure) (r : Option AssessmentRecord)
      → Sound s
      → claim_next ext now owner estimate s ≡ ok (some new) t
      → old.item_id ≡ new.item_id
      → old.lease_owner ≢ owner
      → Without old.lease_owner t u
      → commit_attempt ext later old result u ≢ ok r w
  commit_attempt-lost now later estimate owner s t u w old new result r v h same_item other run =
      λ k.
        let first = claim_next-Outcome ext now estimate owner s t (some new) h in
        let sound = (claim-Keeps ext now estimate owner s t (some new) v first).sound in
        let free =
          Without-held old.lease_owner new.item_id t u
            (taken-held now estimate owner old.lease_owner s t new sound other first) run in
        let o = commit_attempt-Outcome ext later old result u w r k in
        let held : held_by old.lease_owner new.item_id o.item ≡ true =
          ground (arith, eq→same _ _ (o.item_id ∙ same_item), o.running, o.owned) in
        let found = any-Member (held_by old.lease_owner new.item_id) u.items o.item o.listed held in
        ground arith
