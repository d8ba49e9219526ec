-- ===== src/Reviews/Submit/Heads.antt =====
-- The revisions of an annotation are one chain: each supersedes the last one.
use Prim.Native.String.{String}
use perseval.Base.{
  ℕ, ◌≡◌, ◌≢◌, refl, ap, List, ◌∷◌, [], Option, none, some, true, same, same→eq, latest-Member,
  find, find-update, find, include, text_dec, Option-cases, update, same_self, any, Member, inl,
  inr, arith, latest,
}
use perseval.Reviews.Truth.{resolve_task_status}
use perseval.Reviews.Submit.{
  Answer, same_head, head_of, next_number, latest_revision, insert_revision, annotation_of,
  append_revision, submit_loaded, submit_annotation_revision,
}
use perseval.Reviews.State.{
  assigned, persist_status, TaskStatus, Store, Queue, Task, Annotation, Externals, ok, TaskStatus,
  persist_status, Authority, task_named, queue_named,
}

same_head→eq : (a b : Option String) → same_head a b ≡ true → a ≡ b
same_head→eq none none h = refl
same_head→eq none (some b) h = cc
same_head→eq (some a) none h = cc
same_head→eq (some a) (some b) h = ap some (same→eq a b h)

pub insert_revision-cons :
    (row : Annotation) (rows result : List Annotation)
    → insert_revision row rows ≡ some result
    → result ≡ row ∷ rows
unfolding insert_revision
insert_revision-cons row rows result h = ground arith

-- An id is used once.
pub insert_revision_fresh :
    (row a : Annotation) (rows result : List Annotation)
    → insert_revision row rows ≡ some result
    → Member a rows
    → a.revision_id ≢ row.revision_id
unfolding insert_revision any
insert_revision_fresh row a [] result h m e = absurd m
insert_revision_fresh row a (x ∷ rows) result h (inl p) e =
    ground (arith, same_self row.revision_id)
insert_revision_fresh row a (x ∷ rows) result h (inr m) e =
    insert_revision_fresh row a rows (row ∷ rows) (ground arith) m e

latest-cons :
    (id : String) (row : Annotation) (rows : List Annotation)
    → same row.annotation_id id ≡ true
    → row.annotation_revision ≡ next_number (latest_revision id rows)
    → latest_revision id (row ∷ rows) ≡ some row
unfolding latest
latest-cons id row rows h e = ground arith

-- An insertion with the next number moves the head.
pub insert_revision-moves :
    (id : String) (row : Annotation) (rows grown : List Annotation)
    → same row.annotation_id id ≡ true
    → row.annotation_revision ≡ next_number (latest_revision id rows)
    → insert_revision row rows ≡ some grown
    → head_of (latest_revision id grown) ≢ head_of (latest_revision id rows)
insert_revision-moves id row rows grown h e i same_ =
    let cons : grown ≡ row ∷ rows = insert_revision-cons row rows grown i in
    let moved : latest_revision id grown ≡ some row = rw cons (latest-cons id row rows h e) in
    elim (Option-cases (latest_revision id rows)) [
      | inl q ↦ cc
      | inr (a, q) ↦
          insert_revision_fresh row a rows grown i
            (latest-Member (λ r. r.annotation_revision) (λ r. same r.annotation_id id) rows a q) cc
    ]

-- A task keeps its case and its queue.
pub persist_status-same :
    (task_id other : String) (status : TaskStatus) (tasks : List Task) (task found : Task)
    → find (task_named task_id) tasks ≡ some task
    → find (task_named task_id) (persist_status other status tasks) ≡ some found
    → (found.case_id ≡ task.case_id) × (found.queue_id ≡ task.queue_id)
persist_status-same task_id other status tasks task found h e =
    let f : Task → Task = λ t. record t { status = status } in
    let found_is =
      find-update (λ (t : Task). t.task_id) (task_named other) task_id f tasks (λ row. refl) in
    (ground arith, ground arith)

module _ (ext : Externals) where
  pub append_revision-inverts :
      (task : Task) (row given : Annotation) (s t : Store)
      → append_revision ext task given s ≡ ok row t
      → (row ≡ given)
        × (insert_revision given s.revisions ≡ some t.revisions)
        × ((status : TaskStatus) × (t.tasks ≡ persist_status task.task_id status s.tasks))
        × (t.queues ≡ s.queues)
        × (t.assignments
            ≡ update
                (assigned task.task_id given.reviewer_id)
                (λ a. record a { submitted = some given.revision_id })
                s.assignments)
  unfolding append_revision
  append_revision-inverts task row given s t h =
      elim (Option-cases (insert_revision given s.revisions)) [
        | inl e ↦ absurd (ground arith)
        | inr (revisions, e) ↦
            let written : Store = record s {
              annotations = include text_dec given.annotation_id s.annotations;
              revisions = revisions;
              assignments =
                  update (assigned task.task_id given.reviewer_id)
                    (λ a. record a { submitted = some given.revision_id }) s.assignments;
            } in
            let status = resolve_task_status ext written task in
            let same_ : (ok given
                  (record written { tasks = persist_status task.task_id status s.tasks }))
                ≡ ok row t =
              ground arith in
            (cc, cc, (status, cc), cc, cc)
      ]

  pub submit_loaded-inverts :
      (task : Task) (queue : Queue) (reviewer_id : String) (head : Option String) (answer : Answer)
      (now : ℕ) (s t : Store) (row : Annotation)
      → submit_loaded ext task queue reviewer_id head answer now s ≡ ok row t
      → let last =
          latest_revision
            (ext.annotation_identity task.case_id queue.annotation_schema_release_id reviewer_id)
            s.revisions in
        (head_of last ≡ head)
        × (append_revision ext task
              (annotation_of ext task queue reviewer_id answer head now last)
              s
            ≡ ok row t)
  unfolding submit_loaded
  submit_loaded-inverts task queue reviewer_id head answer now s t row h = (
    same_head→eq
        (head_of (
          latest_revision
            (ext.annotation_identity task.case_id queue.annotation_schema_release_id reviewer_id)
            s.revisions))
        head (ground arith),
    ground arith,
  )

  pub submit-inverts :
      (task_id reviewer_id : String) (head : Option String) (answer : Answer)
      (authority : Authority) (now : ℕ) (s t : Store) (row : Annotation)
      → submit_annotation_revision ext task_id reviewer_id head answer authority now s ≡ ok row t
      → (task : Task) × ((queue : Queue) × ((find (task_named task_id) s.tasks ≡ some task)
            × (find (queue_named task.queue_id) s.queues ≡ some queue)
            × (submit_loaded ext task queue reviewer_id head answer now s ≡ ok row t)))
  unfolding submit_annotation_revision
  submit-inverts task_id reviewer_id head answer authority now s t row h =
      elim (Option-cases (find (task_named task_id) s.tasks)) [
        | inl e ↦ absurd (ground arith)
        | inr (task, e) ↦ elim (Option-cases (find (queue_named task.queue_id) s.queues)) [
          | inl f ↦ absurd (ground arith)
          | inr (queue, f) ↦ (task, (queue, (e, f, ground arith)))
        ]
      ]

  -- An accepted submission supersedes the revision that the reviewer named and has the next number;
  -- right after it, it is the last revision of the annotation, and the others are as they were.
  pub submit_annotation_revision-extends :
      (task_id reviewer_id : String) (head : Option String) (answer : Answer)
      (authority : Authority) (now : ℕ) (s t : Store) (row : Annotation)
      → submit_annotation_revision ext task_id reviewer_id head answer authority now s ≡ ok row t
      → (head_of (latest_revision row.annotation_id s.revisions) ≡ head)
        × (row.supersedes_revision_id ≡ head)
        × (row.annotation_revision ≡ next_number (latest_revision row.annotation_id s.revisions))
        × (t.revisions ≡ row ∷ s.revisions)
        × (latest_revision row.annotation_id t.revisions ≡ some row)
  submit_annotation_revision-extends task_id reviewer_id head answer authority now s t row h =
      let (task, (queue, (e, f, loaded))) =
        submit-inverts task_id reviewer_id head answer authority now s t row h in
      let id =
        ext.annotation_identity task.case_id queue.annotation_schema_release_id reviewer_id in
      let last = latest_revision id s.revisions in
      let given = annotation_of ext task queue reviewer_id answer head now last in
      let (same_, wrote) =
        submit_loaded-inverts task queue reviewer_id head answer now s t row loaded in
      let (row_is, inserted, _, _, _) = append_revision-inverts task row given s t wrote in
      let grown = insert_revision-cons given s.revisions t.revisions inserted in
      (
        rw row_is same_,
        rw row_is same_,
        rw row_is refl,
        rw row_is grown,
        rw (row_is, grown) (latest-cons id given s.revisions (same_self id) refl),
      )
