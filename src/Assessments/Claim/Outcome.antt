-- ===== src/Assessments/Claim/Outcome.antt =====
-- What a successful `claim_next` can have done, one case for each way through it.
use Prim.Native.String.{String}
use perseval.Base.{
  and_left, and_right, ℕ, ◌≡◌, refl, ◌<◌, ◌+◌, inl, inr, List, [], ◌∷◌, Option, none, some, true,
  false, Bool-cases, Option-cases, leb, ◌&&◌, same, update, get, text_dec, Member, saturating_add,
  i64_max, arith,
}
use perseval.Assessments.State.{
  Item, Job, Policy, Store, Externals, ClaimedItem, AssessmentRecord, ItemStatus, JobStatus, ok,
  job_is_pending,
}
use perseval.Assessments.Jobs.{finish_item, finish_without_attempt}
use perseval.Assessments.Claim.{
  claimable, job_live, policy_of, effective_cost, preflight, candidate, comes_before,
  materialize_cached_assessment, lease_item, claim_item, claim_next, insert_assessment,
  insert_attempt, Bool,
}

-- The columns that a lease sets.
abbrev pub leased : ℕ → String → ℕ → Item → Item
leased number owner expires i = record i {
  status = ItemStatus.running;
  attempt_count = number;
  lease_owner = some owner;
  lease_expires_at = some expires;
}

abbrev pub leasable : ℕ → Item → Item → Bool
leasable now item i = same i.item_id item.item_id && claimable now i

module _ {Catalog Failure : Type 0} (ext : Externals Catalog Failure) where
  -- The candidate is a row of the table that can be claimed, of a job that is not being cancelled.
  pub candidate-found :
      (now : ℕ) (jobs : List Job) (items : List Item) (item : Item)
      → candidate ext now jobs items ≡ some item
      → Member item items × (claimable now item ≡ true) × (job_live item.job_id jobs ≡ true)
  unfolding candidate
  candidate-found now jobs [] item h = cc
  candidate-found now jobs (x ∷ items) item h =
      let later = candidate-found now jobs items item in
      let this : x ≡ item
          → (claimable now x && job_live x.job_id jobs) ≡ true
          → Member item (x ∷ items)
            × (claimable now item ≡ true)
            × (job_live item.job_id jobs ≡ true) =
        λ e q. (inl e, rw (← e) (and_left _ _ q), rw (← e) (and_right _ _ q)) in
      elim (Bool-cases (claimable now x && job_live x.job_id jobs)) [
        | inr other ↦ let (m, c, l) = later (ground arith) in (inr m, c, l)
        | inl meets ↦ elim (Option-cases (candidate ext now jobs items)) [
          | inl e ↦ this (ground arith) meets
          | inr (other, e) ↦ elim (Bool-cases (comes_before ext other x)) [
            | inl earlier ↦ let (m, c, l) = later (ground arith) in (inr m, c, l)
            | inr after ↦ this (ground arith) meets
          ]
        ]
      ]

  -- The lease on the tables after the preflight: the new tables, and the claim.
  pub record Lease (now : ℕ) (owner : String) (item : Item) (u : Store) (reserved : ℕ)
      (claim : ClaimedItem) (t : Store) : Type 0 where
    pub items :
        t.items
        ≡ update
            (leasable now item)
            (leased (item.attempt_count + 1) owner claim.lease_expires_at)
            u.items
    pub jobs :
        t.jobs
        ≡ update
            (λ (j : Job). same j.job_id item.job_id && job_is_pending j.status)
            (λ j. record j { status = JobStatus.running })
            u.jobs
    pub policies : t.policies ≡ u.policies
    pub cache : t.cache ≡ u.cache
    pub budgets : t.budgets ≡ u.budgets
    pub reserves : claim.reserved_cost_micros ≡ reserved
    pub item_id : claim.item_id ≡ item.item_id
    pub job_id : claim.job_id ≡ item.job_id
    pub project_id : claim.project_id ≡ item.project_id
    pub lease_owner : claim.lease_owner ≡ owner
    pub number : claim.attempt_number ≡ item.attempt_count + 1

  -- What the preflight of the item does.
  abbrev pub prepared : ℕ → ℕ → Item → Store → Store × ℕ × Option ItemStatus
  prepared now estimate item s =
      preflight now item (policy_of item.project_id s.policies)
        (effective_cost item.estimated_cost_micros estimate) s

  pub data Outcome (now : ℕ) (owner : String) (estimate : ℕ) (s : Store) (r : Option ClaimedItem)
      (t : Store) : Type 0 where
    idle :
        candidate ext now s.jobs s.items ≡ none
        → r ≡ none
        → t ≡ s
        → Outcome now owner estimate s r t
    cached :
        (item : Item) (row : AssessmentRecord) (assessments : List AssessmentRecord)
        → candidate ext now s.jobs s.items ≡ some item
        → get text_dec item.cache_key s.cache ≡ some row
        → r ≡ none
        → t
          ≡ finish_item item.item_id item.job_id row.status none
              (record s { assessments = assessments })
        → Outcome now owner estimate s r t
    exhausted :
        (item : Item)
        → candidate ext now s.jobs s.items ≡ some item
        → r ≡ none
        → t ≡ finish_without_attempt item.item_id item.job_id ItemStatus.failed "retry_exhausted" s
        → Outcome now owner estimate s r t
    leases :
        (item : Item) (claim : ClaimedItem)
        → candidate ext now s.jobs s.items ≡ some item
        → r ≡ some claim
        → item.attempt_count < (policy_of item.project_id s.policies).maximum_attempts
        → Lease now owner item
            (record s { budgets = (prepared now estimate item s).0.budgets })
            (prepared now estimate item s).1
            claim
            t
        → Outcome now owner estimate s r t

  -- The preflight changes the budgets only.
  preflight-keeps :
      (now : ℕ) (item : Item) (policy : Policy) (cost : ℕ) (s : Store)
      → (preflight now item policy cost s).0
        ≡ record s { budgets = (preflight now item policy cost s).0.budgets }
  unfolding preflight
  preflight-keeps now item policy cost s = ground arith

  lease_item-Lease :
      (now reserved : ℕ) (owner : String) (item : Item) (policy : Policy) (u t : Store)
      (stopped : Option ItemStatus) (r : Option ClaimedItem)
      → lease_item ext now owner item policy (u, reserved, stopped) ≡ ok r t
      → (claim : ClaimedItem) × (r ≡ some claim) × Lease now owner item u reserved claim t
  unfolding lease_item
  lease_item-Lease now reserved owner item policy u t stopped r h =
      elim (Option-cases (
        insert_attempt
          (record {
            attempt_id = ext.attempt_identity item.item_id (item.attempt_count + 1) owner;
            item_id = item.item_id;
            attempt_number = item.attempt_count + 1;
            lease_owner = owner;
            status = ItemStatus.running;
            retryable = false;
            reserved_cost_micros = reserved;
            charged_cost_micros = 0;
          })
          u.attempts)) [
            | inl e ↦ ground arith
            | inr (attempts, e) ↦ (
              record {
                item_id = item.item_id;
                job_id = item.job_id;
                project_id = item.project_id;
                target = item.target;
                cache_key = item.cache_key;
                attempt_id = ext.attempt_identity item.item_id (item.attempt_count + 1) owner;
                attempt_number = item.attempt_count + 1;
                lease_owner = owner;
                lease_expires_at = saturating_add i64_max now policy.lease_duration_ms;
                reserved_cost_micros = reserved;
                preflight_status = stopped;
              },
              ground arith,
              record {
                items = ground arith;
                jobs = ground arith;
                policies = ground arith;
                cache = ground arith;
                budgets = ground arith;
                reserves = refl;
                item_id = refl;
                job_id = refl;
                project_id = refl;
                lease_owner = refl;
                number = refl;
              },
            )
          ]

  materialize-Outcome :
      (row : AssessmentRecord) (item : Item) (s t : Store) (r : Option ClaimedItem)
      → materialize_cached_assessment ext row item s ≡ ok r t
      → (assessments : List AssessmentRecord) × (r ≡ none)
        × (t
            ≡ finish_item item.item_id item.job_id row.status none
                (record s { assessments = assessments }))
  unfolding materialize_cached_assessment
  materialize-Outcome row item s t r h =
      let fresh = record row {
        assessment_id = ext.cached_identity item.item_id row.assessment_id;
        item_id = item.item_id;
        project_id = item.project_id;
        target = item.target;
        cost_micros = 0;
      } in
      elim (Option-cases (insert_assessment fresh s.assessments)) [
        | inl e ↦ ground arith
        | inr (assessments, e) ↦ (assessments, ground arith, ground arith)
      ]

  claim_item-Outcome :
      (now estimate : ℕ) (owner : String) (item : Item) (s t : Store) (r : Option ClaimedItem)
      → candidate ext now s.jobs s.items ≡ some item
      → claim_item ext now owner estimate item s ≡ ok r t
      → Outcome now owner estimate s r t
  unfolding claim_item
  claim_item-Outcome now estimate owner item s t r found h =
      elim (Option-cases (get text_dec item.cache_key s.cache)) [
        | inr (row, e) ↦
            let (assessments, none_, eq) = materialize-Outcome row item s t r (ground arith) in
            cached item row assessments found e none_ eq
        | inl e ↦
            elim (Bool-cases
              (leb (policy_of item.project_id s.policies).maximum_attempts item.attempt_count)) [
                | inl spent ↦ exhausted item found (ground arith) (ground arith)
                | inr left ↦
                    let u = prepared now estimate item s in
                    let (claim, q, lease) =
                      lease_item-Lease now u.1 owner item (policy_of item.project_id s.policies) u.0
                        t u.2 r (ground arith) in
                    leases item claim found q (ground arith) (
                      rw
                        (← preflight-keeps now item (policy_of item.project_id s.policies)
                          (effective_cost item.estimated_cost_micros estimate) s)
                        lease)
              ]
      ]

  pub claim_next-Outcome :
      (now estimate : ℕ) (owner : String) (s t : Store) (r : Option ClaimedItem)
      → claim_next ext now owner estimate s ≡ ok r t
      → Outcome now owner estimate s r t
  unfolding claim_next
  claim_next-Outcome now estimate owner s t r h = elim (Bool-cases (ext.is_blank owner)) [
    | inl blank ↦ ground arith
    | inr named ↦ elim (Option-cases (candidate ext now s.jobs s.items)) [
      | inl e ↦ idle e (ground arith) (ground arith)
      | inr (item, e) ↦ claim_item-Outcome now estimate owner item s t r e (ground arith)
    ]
  ]
