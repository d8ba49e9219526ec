-- ===== src/Reviews/Steps.antt =====
-- The review transactions in any order, as the callers of
-- crates/perseval-store/src/workspace/reviews.rs make them.
pub mod Effects
pub mod Repeats
pub mod Answers
use Prim.Native.String.{String}
use perseval.Base.{
  ℕ, ◌≡◌, refl, List, ◌∷◌, [], Option, some, count, bit, update, total-update_same, Bool,
}
use perseval.Reviews.Enqueue.{enqueue_review_task}
use perseval.Reviews.Enqueue.Once.{enqueue-inverts, enqueue_case-inverts}
use perseval.Reviews.State.{
  Task, SelectionReason, Annotation, Adjudication, Store, Assignment, Authority, Externals, Result,
  ok, err, after, assigned, of_task, TaskStatus,
}
use perseval.Reviews.Assign.{assign_review_task}
use perseval.Reviews.Assign.Bounded.{
  IsValid-append, IsValid, IsValid-status, assign_review_task-IsValid,
}
use perseval.Reviews.Submit.{Answer, submit_annotation_revision}
use perseval.Reviews.Submit.Heads.{submit-inverts, submit_loaded-inverts, append_revision-inverts}
use perseval.Reviews.Adjudicate.{adjudicate_review_task}
use perseval.Reviews.Adjudicate.Decides.{
  append_adjudication-inverts, adjudicate-inverts, adjudicate_loaded-inverts,
}

-- A call, with its arguments and the clock.
pub data Event : Type 0 where
  enqueue : String → String → String → SelectionReason → ℕ → Event
  assign : String → String → Authority → Event
  submit : String → String → Option String → Answer → Authority → ℕ → Event
  adjudicate : String → List String → Option String → Answer → String → Authority → ℕ → Event

-- What every accepted call keeps, every call keeps.
pub after-keeps :
    {A : Type 0} (P : Store → Type 0) (r : Result A) (s : Store)
    → ((a : A) (t : Store) → r ≡ ok a t → P t)
    → P s
    → P (after r s)
after-keeps P (ok a t) s h p = h a t refl
after-keeps P (err e) s h p = p

-- A submission keeps who is assigned.
submitted-count :
    (p q : Assignment → Bool) (revision_id : String) (rows : List Assignment)
    → ((a : Assignment) → p (record a { submitted = some revision_id }) ≡ p a)
    → count p (update q (λ a. record a { submitted = some revision_id }) rows) ≡ count p rows
unfolding count
submitted-count p q revision_id rows h =
    total-update_same (λ a. bit (p a)) q (λ a. record a { submitted = some revision_id }) rows
      (λ a e. rw (h a) refl)

module _ (ext : Externals) where
  unfoldable pub step : Event → Store → Store
  unfolding enqueue_review_task assign_review_task submit_annotation_revision adjudicate_review_task
  step (enqueue queue_id case_id assessment_id reason now) s =
      after (enqueue_review_task ext queue_id case_id assessment_id reason now s) s
  step (assign task_id reviewer_id authority) s =
      after (assign_review_task ext task_id reviewer_id authority s) s
  step (submit task_id reviewer_id head answer authority now) s =
      after (submit_annotation_revision ext task_id reviewer_id head answer authority now s) s
  step (adjudicate task_id ids head answer by authority now) s =
      after (adjudicate_review_task ext task_id ids head answer by authority now s) s

  unfoldable pub run : List Event → Store → Store
  unfolding step
  run [] s = s
  run (event ∷ events) s = run events (step event s)

  submit-IsValid :
      (task_id reviewer_id : String) (head : Option String) (answer : Answer)
      (authority : Authority) (now : ℕ) (s : Store) (row : Annotation) (t : Store)
      → submit_annotation_revision ext task_id reviewer_id head answer authority now s ≡ ok row t
      → IsValid s
      → IsValid t
  submit-IsValid task_id reviewer_id head answer authority now s row t h v =
      let (task, (queue, (e, f, loaded))) =
        submit-inverts ext task_id reviewer_id head answer authority now s t row h in
      let (_, wrote) =
        submit_loaded-inverts ext task queue reviewer_id head answer now s t row loaded in
      let (_, _, (status, tasks), _, assignments) =
        append_revision-inverts ext task row _ s t wrote in
      IsValid-status s t task.task_id status tasks
        (λ id. rw assignments (submitted-count (of_task id) _ _ s.assignments (λ a. refl)))
        (λ id by. rw assignments (submitted-count (assigned id by) _ _ s.assignments (λ a. refl))) v

  adjudicate-IsValid :
      (task_id : String) (ids : List String) (head : Option String) (answer : Answer) (by : String)
      (authority : Authority) (now : ℕ) (s : Store) (row : Adjudication) (t : Store)
      → adjudicate_review_task ext task_id ids head answer by authority now s ≡ ok row t
      → IsValid s
      → IsValid t
  adjudicate-IsValid task_id ids head answer by authority now s row t h v =
      let (task, _, loaded) =
        adjudicate-inverts ext task_id ids head answer by authority now s t row h in
      let (_, _, _, wrote) =
        adjudicate_loaded-inverts ext task ids head answer by now s t row loaded in
      let (_, _, tasks, assignments, _) = append_adjudication-inverts ext task row _ s t wrote in
      IsValid-status s t task.task_id TaskStatus.completed tasks (λ id. rw assignments refl)
        (λ id by. rw assignments refl) v

  enqueue-IsValid :
      (queue_id case_id assessment_id : String) (reason : SelectionReason) (now : ℕ) (s : Store)
      (task : Task) (t : Store)
      → enqueue_review_task ext queue_id case_id assessment_id reason now s ≡ ok task t
      → IsValid s
      → IsValid t
  enqueue-IsValid queue_id case_id assessment_id reason now s task t h v =
      let (queue, row, _, _, accepted) =
        enqueue-inverts ext queue_id case_id assessment_id reason now s t task h in
      let (_, tasks, _, _, _, _, assignments) =
        enqueue_case-inverts ext queue row assessment_id reason now s t task accepted in
      IsValid-append s t task tasks assignments v

  step-IsValid : (event : Event) (s : Store) → IsValid s → IsValid (step event s)
  unfolding step
  step-IsValid (enqueue queue_id case_id assessment_id reason now) s v =
      after-keeps IsValid (enqueue_review_task ext queue_id case_id assessment_id reason now s) s
        (λ a t h. enqueue-IsValid queue_id case_id assessment_id reason now s a t h v) v
  step-IsValid (assign task_id reviewer_id authority) s v =
      after-keeps IsValid (assign_review_task ext task_id reviewer_id authority s) s
        (λ a t h. assign_review_task-IsValid ext task_id reviewer_id authority s t a h v) v
  step-IsValid (submit task_id reviewer_id head answer authority now) s v =
      after-keeps IsValid
        (submit_annotation_revision ext task_id reviewer_id head answer authority now s) s
        (λ a t h. submit-IsValid task_id reviewer_id head answer authority now s a t h v) v
  step-IsValid (adjudicate task_id ids head answer by authority now) s v =
      after-keeps IsValid (adjudicate_review_task ext task_id ids head answer by authority now s) s
        (λ a t h. adjudicate-IsValid task_id ids head answer by authority now s a t h v) v

  -- Whatever is called in whatever order, accepted or refused: a task never has more reviewers than it
  -- wants, none of them twice, and what is no task has none, if that held at first.
  pub run-IsValid : (events : List Event) (s : Store) → IsValid s → IsValid (run events s)
  unfolding run
  run-IsValid [] s v = v
  run-IsValid (event ∷ events) s v = run-IsValid events (step event s) (step-IsValid event s v)
