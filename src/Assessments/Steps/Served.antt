-- ===== src/Assessments/Steps/Served.antt =====
-- No work is left lying: what a claim finds while an item can be claimed.
use Prim.Native.String.{String}
use perseval.Base.{
  ℕ, ◌≡◌, ◌+◌, ◌≤◌, List, [], ◌∷◌, Option, some, true, false, ◌&&◌, Member, arith, inl, inr,
  Bool-cases, Option-cases,
}
use perseval.Assessments.State.{Item, Job, Store, Externals, ClaimedItem, ok}
use perseval.Assessments.Claim.{claimable, candidate, claim_next, job_live, comes_before}
use perseval.Assessments.Claim.Outcome.{claim_next-Outcome, candidate-found}
use perseval.Assessments.Steps.{Sound}
use perseval.Assessments.Steps.Progress.{potential, claim-potential}

module _ {Catalog Failure : Type 0} (ext : Externals Catalog Failure) where
  -- The one that goes before the other is as old at least.
  chosen_oldest :
      (a b : Item)
      → (comes_before ext a b ≡ true → a.created_at ≤ b.created_at)
        × (comes_before ext a b ≡ false → b.created_at ≤ a.created_at)
  chosen_oldest a b = (λ h. ground arith, λ h. ground arith)

  candidate_oldest :
      (now : ℕ) (jobs : List Job) (items : List Item) (item : Item)
      → Member item items
      → claimable now item ≡ true
      → job_live item.job_id jobs ≡ true
      → (chosen : Item) × (candidate ext now jobs items ≡ some chosen)
        × (chosen.created_at ≤ item.created_at)
  unfolding candidate
  candidate_oldest now jobs [] item m c l = absurd m
  candidate_oldest now jobs (x ∷ items) item (inl e) c l =
      let open_ : claimable now x ≡ true = rw e c in
      let live : job_live x.job_id jobs ≡ true = rw e l in
      elim (Option-cases (candidate ext now jobs items)) [
        | inl q ↦ (x, ground arith, rw e (omega arith))
        | inr (other, q) ↦ elim (Bool-cases (comes_before ext other x)) [
          | inl p ↦ (other, ground arith, rw (← e) ((chosen_oldest other x).0 p))
          | inr p ↦ (x, ground arith, rw e (omega arith))
        ]
      ]
  candidate_oldest now jobs (x ∷ items) item (inr m) c l =
      let (other, q, older) = candidate_oldest now jobs items item m c l in
      elim (Bool-cases (claimable now x && job_live x.job_id jobs)) [
        | inr unmet ↦ (other, ground arith, older)
        | inl meets ↦ elim (Bool-cases (comes_before ext other x)) [
          | inl p ↦ (other, ground arith, older)
          | inr p ↦ let than = (chosen_oldest other x).1 p in (x, ground arith, omega arith)
        ]
      ]

  -- While an item of a job that is not being cancelled can be claimed, a claim that succeeds is not
  -- idle: it goes to an item that can be claimed and is as old at least, and leaves less work.
  pub claim_next-serves :
      (now estimate : ℕ) (owner : String) (s t : Store) (r : Option ClaimedItem) (item : Item)
      → Sound s
      → Member item s.items
      → claimable now item ≡ true
      → job_live item.job_id s.jobs ≡ true
      → claim_next ext now owner estimate s ≡ ok r t
      → (chosen : Item) × (candidate ext now s.jobs s.items ≡ some chosen)
        × (claimable now chosen ≡ true)
        × (chosen.created_at ≤ item.created_at)
        × (potential t + 1 ≤ potential s)
  claim_next-serves now estimate owner s t r item v m c l h =
      let (chosen, e, older) = candidate_oldest now s.jobs s.items item m c l in
      let (_, open_, _) = candidate-found ext now s.jobs s.items chosen e in
      (
        chosen,
        e,
        open_,
        older,
        claim-potential ext now estimate owner s t r chosen v e
            (claim_next-Outcome ext now estimate owner s t r h),
      )
