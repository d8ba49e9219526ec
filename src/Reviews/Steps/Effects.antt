-- ===== src/Reviews/Steps/Effects.antt =====
-- What one accepted call changes of the tables of
-- crates/perseval-store/src/workspace/reviews.rs that other calls read.
use Prim.Native.String.{String}
use perseval.Base.{
  ℕ, ◌≡◌, refl, List, [], ◌∷◌, ◌++◌, Option, some, find, get, text_dec, Option-cases, inl, inr,
  arith,
}
use perseval.Reviews.State.{
  Store, Queue, Task, Annotation, AnnotationCase, Assignment, Adjudication, SelectionReason,
  Authority, Externals, TaskStatus, ok, assigned, task_named, persist_status,
}
use perseval.Reviews.Enqueue.{enqueue_case, enqueue_review_task, insert_task, group_of}
use perseval.Reviews.Enqueue.Once.{enqueue-inverts, enqueue_case-inverts}
use perseval.Reviews.Assign.{assign_loaded, assign_review_task}
use perseval.Reviews.Submit.{Answer, insert_revision, append_revision, submit_annotation_revision}
use perseval.Reviews.Submit.Heads.{submit-inverts, submit_loaded-inverts, append_revision-inverts}
use perseval.Reviews.Adjudicate.{
  insert_adjudication, insert_inputs, append_adjudication, adjudicate_review_task,
}
use perseval.Reviews.Adjudicate.Decides.{
  append_adjudication-inverts, adjudicate-inverts, adjudicate_loaded-inverts,
}
use perseval.Reviews.Steps.{Event, enqueue, assign, submit, adjudicate, step, run, after-keeps}

-- The tasks stay, one of them gets a status, or a new one comes last.
pub data Tasks (s t : Store) : Type 0 where
  unchanged : t.tasks ≡ s.tasks → Tasks s t
  status_set :
      (task_id : String) (status : TaskStatus)
      → t.tasks ≡ persist_status task_id status s.tasks
      → Tasks s t
  added : (task : Task) → t.tasks ≡ s.tasks ++ task ∷ [] → Tasks s t

-- The revisions stay, or a new one is inserted.
pub data Revisions (s t : Store) : Type 0 where
  unchanged : t.revisions ≡ s.revisions → Revisions s t
  inserted : (row : Annotation) → insert_revision row s.revisions ≡ some t.revisions → Revisions s t

pub record Effect (s t : Store) : Type 0 where
  pub queues : t.queues ≡ s.queues
  pub cases : t.cases ≡ s.cases
  pub tasks : Tasks s t
  pub revisions : Revisions s t

assign_loaded-Effect :
    (reviewer_id : String) (task : Task) (s t : Store) (row : Assignment)
    → assign_loaded reviewer_id task s ≡ ok row t
    → Effect s t
unfolding assign_loaded
assign_loaded-Effect reviewer_id task s t row h =
    elim (Option-cases (find (assigned task.task_id reviewer_id) s.assignments)) [
      | inr (a, e) ↦
          let same_ : t ≡ s = ground arith in
          record {
            queues = rw same_ refl;
            cases = rw same_ refl;
            tasks = Tasks.unchanged (rw same_ refl);
            revisions = Revisions.unchanged (rw same_ refl);
          }
      | inl e ↦ record {
        queues = ground arith;
        cases = ground arith;
        tasks = Tasks.status_set task.task_id TaskStatus.in_review (ground arith);
        revisions = Revisions.unchanged (ground arith);
      }
    ]

module _ (ext : Externals) where
  enqueue_case-others :
      (queue : Queue) (row : AnnotationCase) (assessment_id : String) (reason : SelectionReason)
      (now : ℕ) (s t : Store) (task : Task)
      → enqueue_case ext queue row assessment_id reason now s ≡ ok task t
      → t.revisions ≡ s.revisions
  unfolding enqueue_case insert_task
  enqueue_case-others queue row assessment_id reason now s t task h =
      elim (Option-cases (find (group_of queue row) s.split_groups)) [
        | inl e ↦ absurd (ground arith)
        | inr (group, e) ↦
            elim (Option-cases
              (get text_dec queue.annotation_schema_release_id s.required_reviewers)) [
                | inl f ↦ absurd (ground arith)
                | inr (required, f) ↦ ground arith
              ]
      ]

  append_revision-others :
      (task : Task) (row given : Annotation) (s t : Store)
      → append_revision ext task given s ≡ ok row t
      → t.cases ≡ s.cases
  unfolding append_revision
  append_revision-others task row given s t h =
      elim (Option-cases (insert_revision given s.revisions)) [
        | inl e ↦ absurd (ground arith)
        | inr (revisions, e) ↦ ground arith
      ]

  append_adjudication-others :
      (task : Task) (row given : Adjudication) (s t : Store)
      → append_adjudication ext task given s ≡ ok row t
      → (t.queues ≡ s.queues) × (t.cases ≡ s.cases)
  unfolding append_adjudication
  append_adjudication-others task row given s t h =
      elim (Option-cases (insert_adjudication given s.adjudications)) [
        | inl e ↦ absurd (ground arith)
        | inr (rows, e) ↦
            elim (Option-cases (
              insert_inputs given.revision_id given.annotation_revision_ids
                s.adjudication_inputs)) [
                  | inl f ↦ absurd (ground arith)
                  | inr (inputs, f) ↦ (ground arith, ground arith)
                ]
      ]

  enqueue-Effect :
      (queue_id case_id assessment_id : String) (reason : SelectionReason) (now : ℕ) (s t : Store)
      (task : Task)
      → enqueue_review_task ext queue_id case_id assessment_id reason now s ≡ ok task t
      → Effect s t
  enqueue-Effect queue_id case_id assessment_id reason now s t task h =
      let (queue, row, _, _, accepted) =
        enqueue-inverts ext queue_id case_id assessment_id reason now s t task h in
      let (_, tasks, queues, cases, _, _, _) =
        enqueue_case-inverts ext queue row assessment_id reason now s t task accepted in
      record {
        queues = queues;
        cases = cases;
        tasks = Tasks.added task tasks;
        revisions =
            Revisions.unchanged
              (enqueue_case-others queue row assessment_id reason now s t task accepted);
      }

  assign-Effect :
      (task_id reviewer_id : String) (authority : Authority) (s t : Store) (row : Assignment)
      → assign_review_task ext task_id reviewer_id authority s ≡ ok row t
      → Effect s t
  unfolding assign_review_task
  assign-Effect task_id reviewer_id authority s t row h =
      elim (Option-cases (find (task_named task_id) s.tasks)) [
        | inl e ↦ absurd (ground arith)
        | inr (task, e) ↦ assign_loaded-Effect reviewer_id task s t row (ground arith)
      ]

  submit-Effect :
      (task_id reviewer_id : String) (head : Option String) (answer : Answer)
      (authority : Authority) (now : ℕ) (s t : Store) (row : Annotation)
      → submit_annotation_revision ext task_id reviewer_id head answer authority now s ≡ ok row t
      → Effect s t
  submit-Effect task_id reviewer_id head answer authority now s t row h =
      let (task, (queue, (e, f, loaded))) =
        submit-inverts ext task_id reviewer_id head answer authority now s t row h in
      let (_, wrote) =
        submit_loaded-inverts ext task queue reviewer_id head answer now s t row loaded in
      let (_, into, (status, tasks), queues, _) =
        append_revision-inverts ext task row _ s t wrote in
      record {
        queues = queues;
        cases = append_revision-others task row _ s t wrote;
        tasks = Tasks.status_set task.task_id status tasks;
        revisions = Revisions.inserted _ into;
      }

  adjudicate-Effect :
      (task_id : String) (ids : List String) (head : Option String) (answer : Answer) (by : String)
      (authority : Authority) (now : ℕ) (s t : Store) (row : Adjudication)
      → adjudicate_review_task ext task_id ids head answer by authority now s ≡ ok row t
      → Effect s t
  adjudicate-Effect task_id ids head answer by authority now s t row h =
      let (task, _, loaded) =
        adjudicate-inverts ext task_id ids head answer by authority now s t row h in
      let (_, _, _, wrote) =
        adjudicate_loaded-inverts ext task ids head answer by now s t row loaded in
      let (_, _, tasks, _, revisions) = append_adjudication-inverts ext task row _ s t wrote in
      let (queues, cases) = append_adjudication-others task row _ s t wrote in
      record {
        queues = queues;
        cases = cases;
        tasks = Tasks.status_set task.task_id TaskStatus.completed tasks;
        revisions = Revisions.unchanged revisions;
      }

  -- What every such change keeps, any calls keep.
  pub run-keeps :
      (P : Store → Type 0)
      → ((s t : Store) → Effect s t → P s → P t)
      → (events : List Event) (s : Store) → P s
      → P (run ext events s)
  unfolding run step
  run-keeps P keeps [] s p = p
  run-keeps P keeps (enqueue queue_id case_id assessment_id reason now ∷ events) s p =
      run-keeps P keeps events _ (
        after-keeps P (enqueue_review_task ext queue_id case_id assessment_id reason now s) s
          (λ a t h. keeps s t (enqueue-Effect queue_id case_id assessment_id reason now s t a h) p)
          p)
  run-keeps P keeps (assign task_id reviewer_id authority ∷ events) s p =
      run-keeps P keeps events _ (
        after-keeps P (assign_review_task ext task_id reviewer_id authority s) s
          (λ a t h. keeps s t (assign-Effect task_id reviewer_id authority s t a h) p) p)
  run-keeps P keeps (submit task_id reviewer_id head answer authority now ∷ events) s p =
      run-keeps P keeps events _ (
        after-keeps P
          (submit_annotation_revision ext task_id reviewer_id head answer authority now s) s
          (λ a t h.
            keeps s t (submit-Effect task_id reviewer_id head answer authority now s t a h) p)
          p)
  run-keeps P keeps (adjudicate task_id ids head answer by authority now ∷ events) s p =
      run-keeps P keeps events _ (
        after-keeps P (adjudicate_review_task ext task_id ids head answer by authority now s) s
          (λ a t h.
            keeps s t (adjudicate-Effect task_id ids head answer by authority now s t a h) p)
          p)
