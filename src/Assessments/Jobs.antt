-- ===== src/Assessments/Jobs.antt =====
-- How an item ends, and the counts of its job: `refresh_job_counts`, `finish_item` and
-- `finish_without_attempt` of crates/perseval-store/src/workspace/assessments.rs.
use Prim.Native.String.{String}
use perseval.Base.{
  ℕ, Option, none, some, Bool, if◌then◌else◌, ltb, ◌==◌, ◌&&◌, same, update, count, keyed,
}
use perseval.Assessments.State.{
  Item, Job, Store, ItemStatus, JobStatus, is_terminal, is_failure, is_cancelled,
}

abbrev pub of_job : String → Item → Bool
of_job job_id item = same item.job_id job_id

-- The items of a job whose status meets a test.
abbrev pub with_status : (ItemStatus → Bool) → String → Item → Bool
with_status test job_id item = same item.job_id job_id && test item.status

-- The status for the numbers of items: all, terminal, failed and cancelled ones.
unfoldable pub job_status : ℕ → ℕ → ℕ → ℕ → JobStatus
job_status all terminal failures cancellations =
    if ltb terminal all
    then (if terminal == 0 then JobStatus.running else JobStatus.partial)
    else if cancellations == all
    then JobStatus.cancelled
    else if ltb 0 failures
    then JobStatus.partial
    else JobStatus.completed

unfoldable pub refresh_job_counts : String → Store → Store
unfolding job_status
refresh_job_counts job_id s =
    let terminal = count (with_status is_terminal job_id) s.items in
    let status =
      job_status (count (of_job job_id) s.items) terminal
        (count (with_status is_failure job_id) s.items)
        (count (with_status is_cancelled job_id) s.items) in
    record s {
      jobs =
          update (keyed (λ (j : Job). j.job_id) job_id)
            (λ j. record j { terminal_count = terminal; status = status }) s.jobs;
    }

-- The columns that the end of an item sets, with or without an attempt.
abbrev pub finished : ItemStatus → Option String → Item → Item
finished status terminal_reason i = record i {
  status = status;
  lease_owner = none;
  lease_expires_at = none;
  terminal_reason = terminal_reason;
}

abbrev pub stopped : ItemStatus → String → Item → Item
stopped status reason i = record i { status = status; terminal_reason = some reason }

abbrev pub by_id : String → Item → Bool
by_id item_id = keyed (λ (i : Item). i.item_id) item_id

unfoldable pub finish_item : String → String → ItemStatus → Option String → Store → Store
unfolding refresh_job_counts
finish_item item_id job_id status terminal_reason s =
    refresh_job_counts job_id
      (record s { items = update (by_id item_id) (finished status terminal_reason) s.items })

unfoldable pub finish_without_attempt : String → String → ItemStatus → String → Store → Store
unfolding refresh_job_counts
finish_without_attempt item_id job_id status reason s =
    refresh_job_counts job_id
      (record s { items = update (by_id item_id) (stopped status reason) s.items })
