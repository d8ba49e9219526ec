-- ===== src/Assessments/Steps/Leases.antt =====
-- Leases of crates/perseval-store/src/workspace/assessments.rs: who may take an item over.
use Prim.Native.String.{String}
use perseval.Base.{
  ℕ, ◌≡◌, refl, ◌+◌, ◌<◌, Option, none, some, true, false, update, Member, Member-update,
  Member-update_other, Member-unique, Bool-cases, arith, same→eq,
}
use perseval.Assessments.State.{Item, Store, Externals, ClaimedItem, ItemStatus, ok}
use perseval.Assessments.Jobs.{
  by_id, finished, stopped, finish_item, finish_without_attempt, refresh_job_counts,
}
use perseval.Assessments.Claim.{claimable, claim_next}
use perseval.Assessments.Claim.Outcome.{
  Outcome, idle, cached, exhausted, leases, candidate-found, claim_next-Outcome, leased, leasable,
}
use perseval.Assessments.Steps.{Sound, inr, inl}

module _ {Catalog Failure : Type 0} (ext : Externals Catalog Failure) where
  -- The end of the candidate leaves an item that cannot be claimed.
  ended-other :
      (now : ℕ) (item row : Item) (f : Item → Item) (s : Store)
      → Sound s
      → Member item s.items
      → claimable now item ≡ true
      → Member row s.items
      → claimable now row ≡ false
      → Member row (update (by_id item.item_id) f s.items)
  ended-other now item row f s v m c n h =
      Member-update_other (λ (i : Item). i.item_id) (by_id item.item_id) f s.items row n
        (elim (Bool-cases (by_id item.item_id row)) [
          | inr other ↦ other
          | inl this ↦ absurd (
              let e =
                Member-unique (λ (i : Item). i.item_id) s.items row item v.item_keys n m
                  (same→eq _ _ this) in
              ground arith)
        ])

  Outcome-other :
      (now estimate : ℕ) (owner : String) (s t : Store) (r : Option ClaimedItem) (row : Item)
      → Sound s
      → Member row s.items
      → claimable now row ≡ false
      → Outcome ext now owner estimate s r t
      → Member row t.items
  unfolding finish_item finish_without_attempt refresh_job_counts
  Outcome-other now estimate owner s t r row v n h (idle e f g) = rw g n
  Outcome-other now estimate owner s t r row v n h (cached item result assessments e f g q) =
      let (m, c, _) = candidate-found ext now s.jobs s.items item e in
      rw q (ended-other now item row (finished result.status none) s v m c n h)
  Outcome-other now estimate owner s t r row v n h (exhausted item e f g) =
      let (m, c, _) = candidate-found ext now s.jobs s.items item e in
      rw g (ended-other now item row (stopped ItemStatus.failed "retry_exhausted") s v m c n h)
  Outcome-other now estimate owner s t r row v n h (leases item claimed e f left lease) =
      rw lease.items (
        Member-update_other (λ (i : Item). i.item_id) (leasable now item)
          (leased (item.attempt_count + 1) owner claimed.lease_expires_at) s.items row n
          (ground arith))

  -- A claim leaves every item alone whose lease has not run out, whoever claims.
  pub claim_next-keeps_lease :
      (now estimate ends : ℕ) (owner : String) (s t : Store) (r : Option ClaimedItem) (row : Item)
      → Sound s
      → Member row s.items
      → row.status ≡ ItemStatus.running
      → row.lease_expires_at ≡ some ends
      → now < ends
      → claim_next ext now owner estimate s ≡ ok r t
      → Member row t.items
  claim_next-keeps_lease now estimate ends owner s t r row v m running lease later h =
      Outcome-other now estimate owner s t r row v m (rw (running, lease) (ground arith))
        (claim_next-Outcome ext now estimate owner s t r h)

  -- The claimed item stands in the table under the new lease.
  pub leased-Member :
      (now estimate : ℕ) (owner : String) (s t : Store) (claimed : ClaimedItem)
      → Outcome ext now owner estimate s (some claimed) t
      → (row : Item) × Member row t.items
        × (row.item_id ≡ claimed.item_id)
        × (row.lease_owner ≡ some owner)
  leased-Member now estimate owner s t claimed (idle e f g) = cc
  leased-Member now estimate owner s t claimed (cached item row assessments e f g h) = cc
  leased-Member now estimate owner s t claimed (exhausted item e f g) = cc
  leased-Member now estimate owner s t claimed (leases item other e f left lease) =
      let (m, c, _) = candidate-found ext now s.jobs s.items item e in
      let to = leased (item.attempt_count + 1) owner other.lease_expires_at in
      (
        to item,
        rw lease.items (
            Member-update (λ (i : Item). i.item_id) (leasable now item) to s.items item m
              (ground arith)),
        ground (arith, lease.item_id),
        refl,
      )
