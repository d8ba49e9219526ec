-- ===== src/Reviews/Adjudicate/Decides.antt =====
-- What an adjudication settles.
use Prim.Native.String.{String}
use perseval.Base.{
  ℕ, ◌≡◌, List, ◌∷◌, Option, some, true, false, find, Option-cases, arith, inl, inr, any,
}
use perseval.Reviews.State.{
  Store, Task, Adjudication, Authority, Externals, ok, assigned, task_named, persist_status,
  TaskStatus,
}
use perseval.Reviews.Truth.{current_annotations, revision_ids, same_set, latest_adjudication}
use perseval.Reviews.Submit.{Answer}
use perseval.Reviews.Adjudicate.{
  insert_adjudication, insert_inputs, adjudication_of, append_adjudication, adjudicate_loaded,
  adjudicate_review_task,
}

insert_adjudication-cons :
    (row : Adjudication) (rows result : List Adjudication)
    → insert_adjudication row rows ≡ some result
    → result ≡ row ∷ rows
unfolding insert_adjudication
insert_adjudication-cons row rows result h = ground arith

module _ (ext : Externals) where
  pub append_adjudication-inverts :
      (task : Task) (row given : Adjudication) (s t : Store)
      → append_adjudication ext task given s ≡ ok row t
      → (row ≡ given)
        × (t.adjudications ≡ given ∷ s.adjudications)
        × (t.tasks ≡ persist_status task.task_id TaskStatus.completed s.tasks)
        × (t.assignments ≡ s.assignments)
        × (t.revisions ≡ s.revisions)
  unfolding append_adjudication
  append_adjudication-inverts task row given s t h =
      elim (Option-cases (insert_adjudication given s.adjudications)) [
        | inl e ↦ absurd (ground arith)
        | inr (rows, e) ↦
            let cons = insert_adjudication-cons given s.adjudications rows e in
            elim (Option-cases (
              insert_inputs given.revision_id given.annotation_revision_ids
                s.adjudication_inputs)) [
                  | inl f ↦ absurd (ground arith)
                  | inr (inputs, f) ↦
                      let same_ : ok given (record s {
                        adjudications = rows;
                        adjudication_inputs = inputs;
                        tasks = persist_status task.task_id TaskStatus.completed s.tasks;
                      })
                          ≡ ok row t =
                        ground arith in
                      (cc, cc, cc, cc, cc)
                ]
      ]

  -- The guards, and what is written when they hold.
  pub adjudicate_loaded-inverts :
      (task : Task) (ids : List String) (head : Option String) (answer : Answer) (by : String)
      (now : ℕ) (s t : Store) (row : Adjudication)
      → adjudicate_loaded ext task ids head answer by now s ≡ ok row t
      → (task.status ≡ TaskStatus.awaiting_adjudication)
        × (any (assigned task.task_id by) s.assignments ≡ false)
        × (same_set ids (revision_ids (current_annotations task.task_id s.revisions s.assignments))
            ≡ true)
        × (append_adjudication ext task
              (adjudication_of ext task ids head answer by now
                (latest_adjudication (ext.adjudication_identity task.case_id) s.adjudications))
              s
            ≡ ok row t)
  unfolding adjudicate_loaded
  adjudicate_loaded-inverts task ids head answer by now s t row h =
      (ground arith, ground arith, ground arith, ground arith)

  pub adjudicate-inverts :
      (task_id : String) (ids : List String) (head : Option String) (answer : Answer) (by : String)
      (authority : Authority) (now : ℕ) (s t : Store) (row : Adjudication)
      → adjudicate_review_task ext task_id ids head answer by authority now s ≡ ok row t
      → (task : Task) × (find (task_named task_id) s.tasks ≡ some task)
        × (adjudicate_loaded ext task ids head answer by now s ≡ ok row t)
  unfolding adjudicate_review_task
  adjudicate-inverts task_id ids head answer by authority now s t row h =
      elim (Option-cases (find (task_named task_id) s.tasks)) [
        | inl e ↦ absurd (ground arith)
        | inr (task, e) ↦ (task, e, ground arith)
      ]
