-- ===== src/Reviews/Steps/Repeats.antt =====
-- A case that is a task once (crates/perseval-store/src/workspace/reviews.rs): what later calls of
-- `enqueue_review_task` meet.
use Prim.Native.String.{String}
use perseval.Base.{
  ℕ, ◌≡◌, ◌≢◌, refl, ◌∙◌, List, some, true, false, find, any, any-append, any-update, arith,
}
use perseval.Reviews.State.{
  Store, Queue, Task, AnnotationCase, SelectionReason, Externals, ok, task_named, queue_named,
}
use perseval.Reviews.Enqueue.{calibrates, case_named, enqueue_review_task}
use perseval.Reviews.Enqueue.Once.{enqueue-inverts, enqueue_case-inverts, enqueued-calibrates}
use perseval.Reviews.Steps.{Event, run}
use perseval.Reviews.Steps.Effects.{Effect, Tasks, run-keeps}

-- The queues and the cases as they were, and a task that calibrates.
record Enqueued (queues : List Queue) (cases : List AnnotationCase) (case_id release_id : String)
    (s : Store) : Type 0 where
  queues_are : s.queues ≡ queues
  cases_are : s.cases ≡ cases
  there : any (calibrates queues case_id release_id) s.tasks ≡ true

Tasks-calibrates :
    (queues : List Queue) (case_id release_id : String) (s t : Store)
    → Tasks s t
    → any (calibrates queues case_id release_id) s.tasks ≡ true
    → any (calibrates queues case_id release_id) t.tasks ≡ true
Tasks-calibrates queues case_id release_id s t (Tasks.unchanged e) h = rw e h
Tasks-calibrates queues case_id release_id s t (Tasks.status_set task_id status e) h =
    rw
      (
        e,
        any-update (calibrates queues case_id release_id) (task_named task_id)
            (λ (u : Task). record u { status = status }) s.tasks (λ u. refl),
      )
      h
Tasks-calibrates queues case_id release_id s t (Tasks.added task e) h =
    rw e (any-append (calibrates queues case_id release_id) s.tasks task h)

Effect-Enqueued :
    (queues : List Queue) (cases : List AnnotationCase) (case_id release_id : String) (s t : Store)
    → Effect s t
    → Enqueued queues cases case_id release_id s
    → Enqueued queues cases case_id release_id t
Effect-Enqueued queues cases case_id release_id s t e v = record {
  queues_are = e.queues ∙ v.queues_are;
  cases_are = e.cases ∙ v.cases_are;
  there = Tasks-calibrates queues case_id release_id s t e.tasks v.there;
}

module _ (ext : Externals) where
  -- Once a case is a task of a queue, no queue that is there then and is for the same evaluator release
  -- takes it again, whatever assessment or reason is given and whatever is enqueued, assigned,
  -- submitted and adjudicated in between.
  pub enqueue_review_task-once :
      (queue_id other_id case_id assessment_id other_assessment : String)
      (reason other_reason : SelectionReason) (now later : ℕ) (events : List Event) (s t u : Store)
      (task second : Task) (queue other : Queue)
      → find (queue_named queue_id) s.queues ≡ some queue
      → find (queue_named other_id) s.queues ≡ some other
      → other.evaluator_release_id ≡ queue.evaluator_release_id
      → enqueue_review_task ext queue_id case_id assessment_id reason now s ≡ ok task t
      → enqueue_review_task ext other_id case_id other_assessment other_reason later
          (run ext events t)
        ≢ ok second u
  enqueue_review_task-once queue_id other_id case_id assessment_id other_assessment reason
        other_reason now later events s t u task second queue other listed listed' same_release h
        k =
      let (q, row, _, f, accepted) =
        enqueue-inverts ext queue_id case_id assessment_id reason now s t task h in
      let (_, _, queues, cases, _, _, _) =
        enqueue_case-inverts ext q row assessment_id reason now s t task accepted in
      let now_ : Enqueued s.queues s.cases row.case_id other.evaluator_release_id t = record {
        queues_are = queues;
        cases_are = cases;
        there =
            enqueued-calibrates ext queue_id case_id assessment_id reason now s t task queue other
              row listed f same_release h;
      } in
      let then_ =
        run-keeps ext (Enqueued s.queues s.cases row.case_id other.evaluator_release_id)
          (Effect-Enqueued s.queues s.cases row.case_id other.evaluator_release_id) events t now_ in
      let (q', row', e', f', accepted') =
        enqueue-inverts ext other_id case_id other_assessment other_reason later (run ext events t)
          u second k in
      let (free, _, _, _, _, _, _) =
        enqueue_case-inverts ext q' row' other_assessment other_reason later (run ext events t) u
          second accepted' in
      let q_is : find (queue_named other_id) s.queues ≡ some q' = rw (← then_.queues_are) e' in
      let row_is : find (case_named case_id) s.cases ≡ some row' = rw (← then_.cases_are) f' in
      let other_is : other ≡ q' = cc in
      let case_is : row ≡ row' = cc in
      let free_ : any (calibrates s.queues row.case_id other.evaluator_release_id)
            (run ext events t).tasks
          ≡ false =
        rw (← then_.queues_are, case_is, other_is) free in
      let there = then_.there in ground arith
