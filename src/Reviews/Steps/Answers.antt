-- ===== src/Reviews/Steps/Answers.antt =====
-- A head that a revision superseded (crates/perseval-store/src/workspace/reviews.rs): what later
-- calls of `submit_annotation_revision` meet.
use Prim.Native.String.{String}
use perseval.Base.{
  ℕ, ◌≡◌, ◌≢◌, ◌⊎◌, refl, ◌∙◌, List, ◌∷◌, Option, none, some, true, find, latest, latest-Member,
  leb, same, Member, Bool-cases, Option-cases, inl, inr, arith, same_self, find-update,
}
use perseval.Reviews.State.{
  Store, Queue, Task, Annotation, Authority, Externals, ok, task_named, queue_named,
}
use perseval.Reviews.Assign.Bounded.{find-append}
use perseval.Reviews.Submit.{
  Answer, head_of, next_number, latest_revision, insert_revision, annotation_of,
  submit_annotation_revision,
}
use perseval.Reviews.Submit.Heads.{
  insert_revision-cons, insert_revision-moves, insert_revision_fresh, submit-inverts,
  submit_loaded-inverts, append_revision-inverts,
}
use perseval.Reviews.Steps.{Event, run}
use perseval.Reviews.Steps.Effects.{Effect, Tasks, Revisions, run-keeps}

-- The task is listed under its case and its queue.
record Listed (task_id case_id queue_id : String) (tasks : List Task) : Type 0 where
  task : Task
  found : find (task_named task_id) tasks ≡ some task
  of_case : task.case_id ≡ case_id
  of_queue : task.queue_id ≡ queue_id

Tasks-Listed :
    (task_id case_id queue_id : String) (s t : Store)
    → Tasks s t
    → Listed task_id case_id queue_id s.tasks
    → Listed task_id case_id queue_id t.tasks
Tasks-Listed task_id case_id queue_id s t (Tasks.unchanged e) v = rw e v
Tasks-Listed task_id case_id queue_id s t (Tasks.status_set other status e) v =
    let f : Task → Task = λ u. record u { status = status } in
    let found_is =
      find-update (λ (u : Task). u.task_id) (task_named other) task_id f s.tasks (λ row. refl) in
    let there = v.found in
    elim (Bool-cases (task_named other v.task)) [
      | inl p ↦ record {
        task = f v.task;
        found = rw e (ground arith);
        of_case = v.of_case;
        of_queue = v.of_queue;
      }
      | inr p ↦ record {
        task = v.task;
        found = rw e (ground arith);
        of_case = v.of_case;
        of_queue = v.of_queue;
      }
    ]
Tasks-Listed task_id case_id queue_id s t (Tasks.added new e) v =
    let split = find-append (task_named task_id) s.tasks new in
    let there = v.found in
    record {
      task = v.task;
      found = rw e (ground arith);
      of_case = v.of_case;
      of_queue = v.of_queue;
    }

-- The head is behind: the last revision is another one, and the head's id is taken.
record Passed (id : String) (head : Option String) (rows : List Annotation) : Type 0 where
  moved : head_of (latest_revision id rows) ≢ head
  taken : (head ≡ none) ⊎ ((a : Annotation) × Member a rows × (head ≡ some a.revision_id))

latest-insert :
    (id : String) (row : Annotation) (rows : List Annotation)
    → (latest_revision id (row ∷ rows) ≡ some row)
      ⊎ (latest_revision id (row ∷ rows) ≡ latest_revision id rows)
unfolding latest
latest-insert id row rows = elim (Bool-cases (same row.annotation_id id)) [
  | inr e ↦ inr (ground arith)
  | inl e ↦ elim (Option-cases (latest_revision id rows)) [
    | inl q ↦ inl (ground arith)
    | inr (other, q) ↦ elim (Bool-cases (leb other.annotation_revision row.annotation_revision)) [
      | inl r ↦ inl (ground arith)
      | inr r ↦ inr (ground arith)
    ]
  ]
]

insert-Passed :
    (id : String) (head : Option String) (row : Annotation) (rows grown : List Annotation)
    → insert_revision row rows ≡ some grown
    → Passed id head rows
    → Passed id head grown
insert-Passed id head row rows grown h v =
    let cons : grown ≡ row ∷ rows = insert_revision-cons row rows grown h in
    record {
      moved = rw cons (elim (latest-insert id row rows) [
        | inr same_ ↦ rw same_ v.moved
        | inl new ↦ rw new (λ e. elim v.taken [
          | inl none_ ↦ cc
          | inr (a, m, is) ↦ insert_revision_fresh row a rows grown h m cc
        ])
      ]);
      taken =
          rw cons (elim v.taken [ inl none_ ↦ inl none_ | inr (a, m, is) ↦ inr (a, inr m, is) ]);
    }

Revisions-Passed :
    (id : String) (head : Option String) (s t : Store)
    → Revisions s t
    → Passed id head s.revisions
    → Passed id head t.revisions
Revisions-Passed id head s t (Revisions.unchanged e) v = rw e v
Revisions-Passed id head s t (Revisions.inserted row e) v =
    insert-Passed id head row s.revisions t.revisions e v

-- An insertion with the next number leaves the head behind.
insert-passes :
    (id : String) (row : Annotation) (rows grown : List Annotation)
    → same row.annotation_id id ≡ true
    → row.annotation_revision ≡ next_number (latest_revision id rows)
    → insert_revision row rows ≡ some grown
    → Passed id (head_of (latest_revision id rows)) grown
insert-passes id row rows grown e n h =
    let cons : grown ≡ row ∷ rows = insert_revision-cons row rows grown h in
    record {
      moved = insert_revision-moves id row rows grown e n h;
      taken = rw cons (elim (Option-cases (latest_revision id rows)) [
        | inl q ↦ inl (rw q refl)
        | inr (a, q) ↦
            let m =
              latest-Member (λ (r : Annotation). r.annotation_revision)
                (λ r. same r.annotation_id id) rows a q in
            inr (a, inr m, rw q refl)
      ]);
    }

record Answered (queues : List Queue) (task_id case_id queue_id id : String) (head : Option String)
    (s : Store) : Type 0 where
  queues_are : s.queues ≡ queues
  listed : Listed task_id case_id queue_id s.tasks
  passed : Passed id head s.revisions

Effect-Answered :
    (queues : List Queue) (task_id case_id queue_id id : String) (head : Option String)
    (s t : Store)
    → Effect s t
    → Answered queues task_id case_id queue_id id head s
    → Answered queues task_id case_id queue_id id head t
Effect-Answered queues task_id case_id queue_id id head s t e v = record {
  queues_are = e.queues ∙ v.queues_are;
  listed = Tasks-Listed task_id case_id queue_id s t e.tasks v.listed;
  passed = Revisions-Passed id head s t e.revisions v.passed;
}

module _ (ext : Externals) where
  -- The annotation that a submission for the task is a revision of.
  abbrev annotation_id_of : Task → Queue → String → String
  annotation_id_of task queue reviewer_id =
      ext.annotation_identity task.case_id queue.annotation_schema_release_id reviewer_id

  submit-Answered :
      (task_id reviewer_id : String) (head : Option String) (answer : Answer)
      (authority : Authority) (now : ℕ) (s t : Store) (row : Annotation)
      → submit_annotation_revision ext task_id reviewer_id head answer authority now s ≡ ok row t
      → (task : Task) × ((queue : Queue) × ((find (queue_named task.queue_id) s.queues ≡ some queue)
            × Answered s.queues task_id task.case_id task.queue_id
                (annotation_id_of task queue reviewer_id)
                head
                t))
  submit-Answered task_id reviewer_id head answer authority now s t row h =
      let (task, (queue, (e, f, loaded))) =
        submit-inverts ext task_id reviewer_id head answer authority now s t row h in
      let (same_head_, wrote) =
        submit_loaded-inverts ext task queue reviewer_id head answer now s t row loaded in
      let id = annotation_id_of task queue reviewer_id in
      let given =
        annotation_of ext task queue reviewer_id answer head now (latest_revision id s.revisions) in
      let (_, into, (status, tasks), queues, _) =
        append_revision-inverts ext task row given s t wrote in
      let set : Tasks s t = Tasks.status_set task.task_id status tasks in
      let behind = insert-passes id given s.revisions t.revisions (same_self id) refl into in
      (
        task,
        (
          queue,
          (
            f,
            record {
              queues_are = queues;
              listed =
                  Tasks-Listed task_id task.case_id task.queue_id s t set
                    (record { task = task; found = e; of_case = refl; of_queue = refl });
              passed = rw (← same_head_) behind;
            },
          ),
        ),
      )

  -- Of two submissions of a reviewer for a task that name the same head one at most is accepted: after
  -- the first one, and whatever is enqueued, assigned, submitted and adjudicated in between, the store
  -- refuses the second one, whatever it answers.
  pub submit_annotation_revision-once :
      (task_id reviewer_id : String) (head : Option String) (answer other : Answer)
      (authority authority_then : Authority) (now later : ℕ) (events : List Event) (s t u : Store)
      (row second : Annotation)
      → submit_annotation_revision ext task_id reviewer_id head answer authority now s ≡ ok row t
      → submit_annotation_revision ext task_id reviewer_id head other authority_then later
          (run ext events t)
        ≢ ok second u
  submit_annotation_revision-once task_id reviewer_id head answer other authority authority_then now
        later events s t u row second h k =
      let (task, (queue, (f, first))) =
        submit-Answered task_id reviewer_id head answer authority now s t row h in
      let id = annotation_id_of task queue reviewer_id in
      let then_ =
        run-keeps ext (Answered s.queues task_id task.case_id task.queue_id id head)
          (Effect-Answered s.queues task_id task.case_id task.queue_id id head) events t first in
      let (task', (queue', (e', f', loaded))) =
        submit-inverts ext task_id reviewer_id head other authority_then later (run ext events t) u
          second k in
      let (same_head_, _) =
        submit_loaded-inverts ext task' queue' reviewer_id head other later (run ext events t) u
          second loaded in
      let there = then_.listed.found in
      let task_is : then_.listed.task ≡ task' = cc in
      let of_case = then_.listed.of_case in
      let of_queue = then_.listed.of_queue in
      let same_case : task'.case_id ≡ task.case_id = cc in
      let same_queue : task'.queue_id ≡ task.queue_id = cc in
      let f'' : find (queue_named task.queue_id) s.queues ≡ some queue' =
        rw (← same_queue, ← then_.queues_are) f' in
      let queue_is : queue ≡ queue' = cc in
      let id_is : annotation_id_of task' queue' reviewer_id ≡ id = cc in
      let same_head_' : head_of (latest_revision id (run ext events t).revisions) ≡ head =
        rw (← id_is) same_head_ in
      then_.passed.moved same_head_'
