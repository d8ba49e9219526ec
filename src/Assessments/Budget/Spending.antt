-- ===== src/Assessments/Budget/Spending.antt =====
-- What a claim reserves of the daily budget, and what its commit charges.
use Prim.Native.String.{String}
use perseval.Base.{
  some, none, inl, inr, if◌then◌else◌, Bool-cases, ℕ, ◌≡◌, refl, ◌∙◌, ◌+◌, ◌≤◌, ◌⊎◌, min, List,
  Option, any, arith, ap,
}
use perseval.Assessments.State.{
  Job, Item, Store, DailyBudget, Policy, Externals, ClaimedItem, AssessmentCommit, ok,
}
use perseval.Assessments.Budget.{utc_day, ensure_day, with_room, reserve_row, reserve_budget}
use perseval.Assessments.Budget.Laws.{
  OneRow, reserved_at, charged_at, ensure_day-OneRow, ensure_day-reserved, update-OneRow,
  room-found, update_none,
}
use perseval.Assessments.Claim.{policy_of, effective_cost, preflight, claim_next}
use perseval.Assessments.Claim.Outcome.{
  Outcome, idle, cached, exhausted, leases, prepared, claim_next-Outcome,
}

module _ (project_id : String) (day : ℕ) where
  -- A reservation of so much, within the limit where it is not zero.
  abbrev pub Reserves : ℕ → ℕ → List DailyBudget → List DailyBudget → Type 0
  Reserves limit amount rows rows' =
      (reserved_at project_id day rows' ≡ reserved_at project_id day rows + amount)
      × (charged_at project_id day rows' ≡ charged_at project_id day rows)
      × ((amount ≡ 0)
          ⊎ (reserved_at project_id day rows' + charged_at project_id day rows' ≤ limit))
      × OneRow project_id day rows'

-- A refused reservation leaves the amounts, a granted one stays within the limit.
pub reserve_budget-Reserves :
    (project_id : String) (policy : Policy) (reserve now : ℕ) (rows : List DailyBudget)
    → OneRow project_id (utc_day now) rows
    → let (rows', granted) = reserve_budget project_id policy reserve now rows in
      Reserves project_id
        (utc_day now)
        policy.daily_budget_micros
        (if granted then reserve else 0)
        rows
        rows'
unfolding reserve_budget
reserve_budget-Reserves project_id policy reserve now rows one =
    let day = utc_day now in
    let all = ensure_day project_id day rows in
    let one' = ensure_day-OneRow project_id day rows one in
    let (r, c) = ensure_day-reserved project_id day rows in
    let p = with_room project_id day policy reserve in
    elim (Bool-cases (any p all)) [
      | inr full ↦ ground (arith, r, c, one', update_none p (reserve_row reserve) all full)
      | inl room ↦
          let (b, e, fit, e') = room-found project_id day policy reserve all one' room in
          ground (
            arith,
            r,
            c,
            e,
            fit,
            e',
            update-OneRow project_id day p (reserve_row reserve) all (λ b'. refl) one',
          )
    ]

preflight-Reserves :
    (now cost : ℕ) (item : Item) (policy : Policy) (s : Store)
    → OneRow item.project_id (utc_day now) s.budgets
    → let (t, reserved, stopped) = preflight now item policy cost s in
      Reserves item.project_id (utc_day now) policy.daily_budget_micros reserved s.budgets t.budgets
      × (reserved ≤ policy.per_attempt_budget_micros)
unfolding preflight
preflight-Reserves now cost item policy s one =
    let reserve = min cost policy.per_attempt_budget_micros in
    let all = reserve_budget-Reserves item.project_id policy reserve now s.budgets one in
    elim (Bool-cases (reserve_budget item.project_id policy reserve now s.budgets).1) [
      | inl granted ↦ ground arith
      | inr refused ↦ ground arith
    ]

module _ {Catalog Failure : Type 0} (ext : Externals Catalog Failure) where
  outcome-Reserves :
      (now estimate : ℕ) (owner : String) (s t : Store) (claimed : ClaimedItem)
      → OneRow claimed.project_id (utc_day now) s.budgets
      → Outcome ext now owner estimate s (some claimed) t
      → let policy = policy_of claimed.project_id s.policies in
        Reserves claimed.project_id
          (utc_day now)
          policy.daily_budget_micros
          claimed.reserved_cost_micros
          s.budgets
          t.budgets
        × (claimed.reserved_cost_micros ≤ policy.per_attempt_budget_micros)
  outcome-Reserves now estimate owner s t claimed one (idle e f g) = cc
  outcome-Reserves now estimate owner s t claimed one (cached item row assessments e f g h) = cc
  outcome-Reserves now estimate owner s t claimed one (exhausted item e f g) = cc
  outcome-Reserves now estimate owner s t claimed one (leases item other e f left lease) =
      let this : claimed ≡ other = cc in
      let of : claimed.project_id ≡ item.project_id =
        ap (λ (c : ClaimedItem). c.project_id) this ∙ lease.project_id in
      let amount : claimed.reserved_cost_micros ≡ (prepared ext now estimate item s).1 =
        ap (λ (c : ClaimedItem). c.reserved_cost_micros) this ∙ lease.reserves in
      rw (of, amount, lease.budgets)
        (preflight-Reserves now (effective_cost item.estimated_cost_micros estimate) item
          (policy_of item.project_id s.policies) s (rw (← of) one))

  -- Where a project has one budget row for the day at most, a claim reserves what it says, which is no
  -- more than an attempt may cost; a reservation leaves what is reserved and charged within the
  -- daily budget; and nothing is charged yet.
  pub claim_next-Reserves :
      (now estimate : ℕ) (owner : String) (s t : Store) (claimed : ClaimedItem)
      → OneRow claimed.project_id (utc_day now) s.budgets
      → claim_next ext now owner estimate s ≡ ok (some claimed) t
      → let policy = policy_of claimed.project_id s.policies in
        Reserves claimed.project_id
          (utc_day now)
          policy.daily_budget_micros
          claimed.reserved_cost_micros
          s.budgets
          t.budgets
        × (claimed.reserved_cost_micros ≤ policy.per_attempt_budget_micros)
  claim_next-Reserves now estimate owner s t claimed one h =
      outcome-Reserves now estimate owner s t claimed one
        (claim_next-Outcome ext now estimate owner s t (some claimed) h)

  -- What a commit of a claim of this job charges.
  abbrev pub charge_of : AssessmentCommit Catalog Failure → Option Job → ℕ
  charge_of result none = 0
  charge_of result (some job) = if job.cancel_requested then 0 else result.charged_cost_micros
