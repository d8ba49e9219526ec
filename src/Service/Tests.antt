-- ===== src/Service/Tests.antt =====
-- The service on concrete calls, channels and workers.

use perseval.Base.{
  text_dec, ℕ, List, [], ◌∷◌, ◌++◌, true, false, refl, arith, length, ◌≡◌, ◌≤◌, ◌+◌, retain,
}
use Prim.Native.String.{String}
use perseval.Base.{none, some, u64_max, Bool, if◌then◌else◌, leb, ◌⊎◌, inl, Member}
use perseval.Service.Retry.{
  ProjectionRetryState, ProjectionHealth, record_failure, retry_pending_projections,
  nothing_pending, publishes,
}
use perseval.Service.Retry.Backoff.{fail_all, fail_all-backoff}
use perseval.Service.Admission.{trying, answered, reserve_round}
use perseval.Service.Admission.Bounded.{
  reserving, all_held, Run, Run-accounts, start, then_step, begins, rounds,
}
use perseval.Service.Deltas.{SendResult, sent, full, refused, publish_all, Documented}
use perseval.Service.Deltas.Delivery.{publish_all-delivers}
use perseval.Service.Supervision.{
  SupervisedWorker, WorkerSupervisor, background, writer, Thread, add, unexpected_exits,
}
use perseval.Service.Supervision.Reports.{unexpected_exits_once}

-- One call of 30 bytes gets them, of a capacity of 100.
one_call : Run 100 30 (reserving 30 (answered true) ∷ [])
unfolding reserve_round
one_call =
    then_step 0 30 (reserving 30 (trying 0) ∷ []) (reserving 30 (answered true) ∷ [])
      (then_step 0 0 [] (reserving 30 (trying 0) ∷ []) start (begins 0 30 []))
      (rounds 0 30 false (trying 0) [])

run-accounts_example : (30 ≡ all_held (reserving 30 (answered true) ∷ [])) × (30 ≤ 100)
run-accounts_example = Run-accounts 100 30 (reserving 30 (answered true) ∷ []) one_call

-- A channel of the documented kind: its places, what it holds, whether it is closed.
pub record Queue : Type 0 where
  pub places : ℕ
  pub items : List ℕ
  pub is_shut : Bool

abbrev try_send : ℕ → Queue → Queue × SendResult
try_send delta q =
    if q.is_shut
    then (q, refused)
    else if leb q.places (length q.items)
    then (q, full)
    else (record q { items = q.items ++ delta ∷ [] }, sent)

abbrev close : Queue → Queue
close q = record q { is_shut = true }

queue-Documented : Documented try_send close
queue-Documented = record {
  held = λ q. q.items;
  capacity = λ q. q.places;
  is_closed = λ q. q.is_shut;
  sends = λ delta q o room. (ground arith, ground arith, ground arith, ground arith);
  fills = λ delta q o no_room. ground arith;
  refuses = λ delta q shut. ground arith;
  closes = λ q. (refl, refl, refl);
}

abbrev two_places : Queue
two_places = record { places = 2; items = []; is_shut = false }

overflow_test :
    publish_all try_send close (1 ∷ 2 ∷ 3 ∷ 4 ∷ []) two_places
    ≡ (record { places = 2; items = 1 ∷ 2 ∷ []; is_shut = true }, false)
unfolding publish_all
overflow_test = refl

publish_all-delivers_example :
    let (next, kept) = publish_all try_send close (1 ∷ 2 ∷ 3 ∷ []) two_places in
    let channel = queue-Documented in
    (length (channel.held next) ≤ 2)
    × (missed : List ℕ) × (channel.held next ++ missed ≡ 1 ∷ 2 ∷ 3 ∷ [])
    × (((kept ≡ true) × (missed ≡ []) × (channel.is_closed next ≡ false))
        ⊎ ((kept ≡ false) × (channel.is_closed next ≡ true) × (length (channel.held next) ≡ 2)))
unfolding queue-Documented
publish_all-delivers_example =
    publish_all-delivers try_send close queue-Documented (1 ∷ 2 ∷ 3 ∷ []) two_places refl
      (omega arith)

abbrev panicked : Thread
panicked = record { thread_name = some "perseval-analysis-7"; finished = true; panics = true }

abbrev running : Thread
running = record { thread_name = some "writer"; finished = false; panics = false }

abbrev supervisor : WorkerSupervisor
supervisor =
    add "writer" writer running
      (add "analysis" background panicked (record { workers = []; failures = [] }))

-- `panic_diagnostics_include_the_concrete_thread_name`
panic_test : (unexpected_exits supervisor).1 ≡ "analysis (perseval-analysis-7) panicked" ∷ []
unfolding unexpected_exits add retain text_dec
panic_test = refl

abbrev watched : SupervisedWorker
watched = record { name = "analysis (perseval-analysis-7)"; group = background; handle = panicked }

unexpected_exits_once_example :
    let (next, reports) = unexpected_exits supervisor in
    (((◌≡◌ {A = Bool} true true) × Member "analysis (perseval-analysis-7) panicked" reports)
      ⊎ ((◌≡◌ {A = Bool} true false) × Member watched next.workers))
    × (retain (λ x. x.handle.finished) next.workers ≡ [])
    × ((new : List String) × (reports ≡ supervisor.failures ++ new))
    × (unexpected_exits next ≡ (next, reports))
    × (length next.workers + length reports
        ≡ length supervisor.workers + length supervisor.failures)
unfolding add text_dec
unexpected_exits_once_example = unexpected_exits_once supervisor watched (inl refl)

abbrev healthy : ProjectionHealth ℕ
healthy = record {
  projection_degraded = false;
  projection_retry_count = 0;
  projection_last_error = none;
}

abbrev retry : ProjectionRetryState
retry = record { next_attempt = 0; backoff = 100; initial_backoff = 100; maximum_backoff = 1000 }

fail_all-backoff_example :
    let s =
      record_failure u64_max u64_max 1000 7
        (fail_all u64_max u64_max ((0, 7) ∷ (200, 7) ∷ []) (healthy, retry)) in
    let calm = retry_pending_projections u64_max u64_max 1400 1401 nothing_pending s in
    (s.1.next_attempt ≡ 1400)
    × (s.0.projection_degraded ≡ true)
    × (s.0.projection_last_error ≡ some 7)
    × (retry_pending_projections u64_max u64_max 1399 1399 publishes s ≡ s)
    × (calm.1.backoff ≡ 100)
    × (calm.0.projection_degraded ≡ false)
    × (calm.0.projection_last_error ≡ none)
unfolding fail_all record_failure retry_pending_projections
fail_all-backoff_example =
    fail_all-backoff u64_max u64_max ((0, 7) ∷ (200, 7) ∷ []) 7 1000 1399 1401 publishes healthy
      retry (omega arith) (omega arith) (omega arith) (omega arith)
