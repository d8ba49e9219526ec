-- ===== src/Assessments/Steps/Counts.antt =====
-- The counts that `refresh_job_counts` writes stay right through every transaction.
use Prim.Native.String.{String}
use perseval.Base.{
  same, and_left, ℕ, ◌≡◌, ◌≢◌, refl, sym, ◌∙◌, ◌+◌, ◌≤◌, List, [], ◌∷◌, some, Bool, true,
  if◌then◌else◌, find, find-Member, find-update, same→eq, text_dec, update, total, count, bit,
  total-update_key, total-update_same, Member, PrimaryKey, keyed, Option-cases, arith,
}
use perseval.Assessments.State.{
  Item, Job, Store, ItemStatus, JobStatus, is_open, is_terminal, is_failure, is_cancelled,
}
use perseval.Assessments.Jobs.{of_job, with_status, job_status, by_id, refresh_job_counts}
use perseval.Assessments.Commit.{cancelled_tables, pending_of, called_off, cancellable, called_job}
use perseval.Assessments.Steps.{Sound, inl, inr}

abbrev pub named : String → Job → Bool
named job_id = keyed (λ (j : Job). j.job_id) job_id

abbrev pub terminal_items : String → Store → ℕ
terminal_items job_id s = count (with_status is_terminal job_id) s.items

abbrev pub open_items : String → Store → ℕ
open_items job_id s = count (with_status is_open job_id) s.items

-- The job's count is that of its terminal items, and a job that is completed has no open item.
abbrev pub Right : Store → String → Job → Type 0
Right s job_id job =
    (job.terminal_count ≡ terminal_items job_id s)
    × (job.status ≡ JobStatus.completed → open_items job_id s ≡ 0)

abbrev pub Counted : Store → Type 0
Counted s =
    (job_id : String) (job : Job) → find (named job_id) s.jobs ≡ some job → Right s job_id job

all-split :
    (job_id : String) (items : List Item)
    → count (of_job job_id) items
      ≡ count (with_status is_terminal job_id) items + count (with_status is_open job_id) items
unfolding count total
all-split job_id [] = refl
all-split job_id (i ∷ items) = ground (arith, all-split job_id items)

job_status-completed :
    (all terminal failures cancellations : ℕ)
    → job_status all terminal failures cancellations ≡ JobStatus.completed
    → all ≤ terminal
unfolding job_status
job_status-completed all terminal failures cancellations h = ground arith

-- What a transaction does to the other jobs of the table.
abbrev Others : String → Store → Store → Type 0
Others job_id s u =
    (k : String)
    → job_id ≢ k
    → (find (named k) u.jobs ≡ find (named k) s.jobs)
      × (terminal_items k u ≡ terminal_items k s)
      × (open_items k u ≡ open_items k s)

refreshed : String → Store → Job → Job
refreshed job_id u j = record j {
  terminal_count = terminal_items job_id u;
  status =
      job_status (count (of_job job_id) u.items) (terminal_items job_id u)
        (count (with_status is_failure job_id) u.items)
        (count (with_status is_cancelled job_id) u.items);
}

refreshed-Right : (job_id : String) (u : Store) (j : Job) → Right u job_id (refreshed job_id u j)
unfolding refreshed
refreshed-Right job_id u j =
    (refl, λ h. ground (arith, all-split job_id u.items, job_status-completed _ _ _ _ h))

-- A row found after an update is one of before, changed where the update chooses it.
pub find-updated :
    (p : Job → Bool) (f : Job → Job) (rows : List Job) (k : String) (job : Job)
    → ((j : Job) → (f j).job_id ≡ j.job_id)
    → find (named k) (update p f rows) ≡ some job
    → (old : Job) × (find (named k) rows ≡ some old)
      × (old.job_id ≡ k)
      × (job ≡ (if p old then f old else old))
find-updated p f rows k job keeps h = elim (Option-cases (find (named k) rows)) [
  | inl e ↦ absurd (ground (arith, find-update (λ (j : Job). j.job_id) p k f rows keeps))
  | inr (old, e) ↦ (
    old,
    e,
    same→eq _ _ (find-Member (named k) rows old e).1,
    ground (arith, find-update (λ (j : Job). j.job_id) p k f rows keeps),
  )
]

refresh-Counted :
    (job_id : String) (s u : Store)
    → Counted s
    → Others job_id s u
    → Counted (refresh_job_counts job_id u)
unfolding refresh_job_counts refreshed
refresh-Counted job_id s u c others k job h =
    let (old, e, is_k, becomes) =
      find-updated (named job_id) (refreshed job_id u) u.jobs k job (λ j. refl) h in
    elim (text_dec job_id k) [
      | yes p ↦
          let this : job ≡ refreshed job_id u old = ground arith in
          rw (this, ← p) (refreshed-Right job_id u old)
      | no n ↦
          let this : job ≡ old = ground arith in
          let (found_, terminal, opens) = others k n in
          let (t, o) = c k job (rw this (sym found_ ∙ e)) in (t ∙ sym terminal, λ h'. opens ∙ o h')
    ]

-- An item changes the counts of its own job only.
edit-others :
    (test : ItemStatus → Bool) (item : Item) (f : Item → Item) (items : List Item) (k : String)
    → PrimaryKey (λ (i : Item). i.item_id) items
    → Member item items
    → (f item).job_id ≡ item.job_id
    → item.job_id ≢ k
    → count (with_status test k) (update (by_id item.item_id) f items)
      ≡ count (with_status test k) items
unfolding count
edit-others test item f items k d m same_job n = ground (
  arith,
  total-update_key (λ (i : Item). i.item_id) (λ i. bit (with_status test k i)) f items item d m,
)

-- An item that is open before and after changes no count.
edit-open :
    (test : ItemStatus → Bool) (p : Item → Bool) (f : Item → Item) (items : List Item) (k : String)
    → ((i : Item) → p i ≡ true → ((f i).job_id ≡ i.job_id) × (test (f i).status ≡ test i.status))
    → count (with_status test k) (update p f items) ≡ count (with_status test k) items
unfolding count
edit-open test p f items k h =
    total-update_same (λ i. bit (with_status test k i)) p f items (λ i e. ground (arith, h i e))

-- The end of an item, and the counts of its job.
pub ended-Counted :
    (item : Item) (f : Item → Item) (s t : Store)
    → Sound s
    → Member item s.items
    → (f item).job_id ≡ item.job_id
    → t.items ≡ update (by_id item.item_id) f s.items
    → t.jobs
      ≡ (refresh_job_counts item.job_id
          (record s { items = update (by_id item.item_id) f s.items })).jobs
    → Counted s
    → Counted t
unfolding refresh_job_counts
ended-Counted item f s t v m same_job items jobs c k job h =
    let u = record s { items = update (by_id item.item_id) f s.items } in
    let all = refresh-Counted item.job_id s u c (λ j n. (
      refl,
      edit-others is_terminal item f s.items j v.item_keys m same_job n,
      edit-others is_open item f s.items j v.item_keys m same_job n,
    )) in
    rw items (all k job (rw (← jobs) h))

-- An update of open items that stay open, while the jobs keep their counts and none is completed.
pub open-Counted :
    (p : Item → Bool) (f : Item → Item) (s t : Store)
    → ((i : Item)
        → p i ≡ true
        → ((f i).job_id ≡ i.job_id) × (is_open (f i).status ≡ true) × (is_open i.status ≡ true))
    → t.items ≡ update p f s.items
    → ((k : String) (job : Job)
        → find (named k) t.jobs ≡ some job
        → (old : Job) × (find (named k) s.jobs ≡ some old)
          × (job.terminal_count ≡ old.terminal_count)
          × (job.status ≡ JobStatus.completed → old.status ≡ JobStatus.completed))
    → Counted s
    → Counted t
open-Counted p f s t stays items jobs c k job h =
    let (old, e, same_count, was) = jobs k job h in
    let (terminal, opens) = c k old e in
    (
      same_count
          ∙ terminal
          ∙ sym (rw items (edit-open is_terminal p f s.items k (λ i q. ground (arith, stays i q)))),
      λ done.
          rw items (edit-open is_open p f s.items k (λ i q. ground (arith, stays i q)))
          ∙ opens (was done),
    )

-- Rows of another job stay where only those of one job change.
find-other :
    (p : Job → Bool) (f : Job → Job) (rows : List Job) (job_id k : String)
    → ((j : Job) → (f j).job_id ≡ j.job_id)
    → ((j : Job) → p j ≡ true → same j.job_id job_id ≡ true)
    → job_id ≢ k
    → find (named k) (update p f rows) ≡ find (named k) rows
find-other p f rows job_id k keeps only n = elim (Option-cases (find (named k) rows)) [
  | inl e ↦ ground (arith, find-update (λ (j : Job). j.job_id) p k f rows keeps)
  | inr (old, e) ↦ ground (
    arith,
    find-update (λ (j : Job). j.job_id) p k f rows keeps,
    find-Member (named k) rows old e,
    only old,
  )
]

called_off-others :
    (test : ItemStatus → Bool) (items : List Item) (job_id k : String)
    → job_id ≢ k
    → count (with_status test k) (update (pending_of job_id) called_off items)
      ≡ count (with_status test k) items
unfolding count
called_off-others test items job_id k n =
    total-update_same (λ i. bit (with_status test k i)) (pending_of job_id) called_off items
      (λ i e. ground arith)

pub cancel-Counted : (job_id : String) (s : Store) → Counted s → Counted (cancelled_tables job_id s)
unfolding cancelled_tables
cancel-Counted job_id s c =
    refresh-Counted job_id s
      (record s {
        jobs = update (cancellable job_id) called_job s.jobs;
        items = update (pending_of job_id) called_off s.items;
      })
      c
      (λ k n. (
        find-other (cancellable job_id) called_job s.jobs job_id k (λ j. refl)
            (λ j q. and_left _ _ q) n,
        called_off-others is_terminal s.items job_id k n,
        called_off-others is_open s.items job_id k n,
      ))
