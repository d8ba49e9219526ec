-- ===== src/Service/Supervision.antt =====
-- `WorkerSupervisor` of crates/perseval-service/src/supervision.rs. A worker's thread is what its
-- handle tells: whether it has finished, and whether a join finds that it panicked.
pub mod Reports
use Prim.Native.String.{String, ◌++◌ as append}
use perseval.Base.{
  Option, none, some, List, [], ◌∷◌, ◌++◌, Bool, true, false, if◌then◌else◌, not, retain, text_dec,
  ite, map,
}

pub data WorkerGroup : Type 0 where
  background writer : WorkerGroup

-- The handle: whether it has finished at this moment, and how it ends.
pub record Thread : Type 0 where
  pub thread_name : Option String
  pub finished : Bool
  pub panics : Bool

pub record SupervisedWorker : Type 0 where
  pub name : String
  pub group : WorkerGroup
  pub handle : Thread

pub record WorkerSupervisor : Type 0 where
  pub workers : List SupervisedWorker
  pub failures : List String

unfoldable pub same_group : WorkerGroup → WorkerGroup → Bool
same_group background background = true
same_group writer writer = true
same_group _ _ = false

-- `format!("{name} ({thread_name})")`, where the thread has another name.
unfoldable pub worker_name : String → Thread → String
worker_name name handle = elim handle.thread_name [
  | none ↦ name
  | some thread_name ↦
      ite (text_dec thread_name name) name (append name (append " (" (append thread_name ")")))
]

unfoldable pub add : String → WorkerGroup → Thread → WorkerSupervisor → WorkerSupervisor
unfolding worker_name
add name group handle s = record s {
  workers =
      s.workers ++ record { name = worker_name name handle; group = group; handle = handle } ∷ [];
}

-- The joins of a group: each panic is a failure.
unfoldable pub join_all : List SupervisedWorker → List String
join_all [] = []
join_all (worker ∷ workers) =
    let rest = join_all workers in
    if worker.handle.panics then append worker.name " panicked" ∷ rest else rest

unfoldable pub join_group : WorkerGroup → WorkerSupervisor → WorkerSupervisor
unfolding same_group join_all
join_group group s = record {
  workers = retain (λ worker. not (same_group worker.group group)) s.workers;
  failures = s.failures ++ join_all (retain (λ worker. same_group worker.group group) s.workers);
}

-- How a finished worker is reported.
unfoldable pub exit_report : SupervisedWorker → String
exit_report worker = append worker.name (if worker.handle.panics then " panicked" else " exited")

unfoldable pub unexpected_exits : WorkerSupervisor → WorkerSupervisor × List String
unfolding exit_report
unexpected_exits s =
    let failures =
      s.failures ++ map exit_report (retain (λ worker. worker.handle.finished) s.workers) in
    (
      record {
        workers = retain (λ worker. not worker.handle.finished) s.workers;
        failures = failures;
      },
      failures,
    )
