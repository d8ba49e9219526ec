-- ===== src/Reviews/Truth.antt =====
-- `current_annotations`, `resolved_truth` and `resolve_task_status` of
-- crates/perseval-store/src/workspace/reviews.rs: what the reviewers of a task agree on.
pub mod Resolves
use Prim.Native.String.{String}
use perseval.Base.{
  ℕ, List, [], ◌∷◌, Option, none, some, Bool, true, false, if◌then◌else◌, ltb, ◌&&◌, same, map,
  length, find, contains, text_dec, latest, keyed,
}
use perseval.Reviews.State.{
  Store, Task, Assignment, Annotation, Adjudication, Label, TaskStatus, Externals, same_label,
  of_task,
}

abbrev pub revision_named : String → Annotation → Bool
revision_named revision_id a = keyed (λ (r : Annotation). r.revision_id) revision_id a

-- What a row of the join adds.
abbrev pub with_submission : Option String → List Annotation → List Annotation → List Annotation
with_submission none revisions rest = rest
with_submission (some id) revisions rest = elim (find (revision_named id) revisions) [
  | none ↦ rest
  | some a ↦ a ∷ rest
]

-- The revisions that the reviewers of the task have submitted last.
unfoldable pub current_annotations : String → List Annotation → List Assignment → List Annotation
current_annotations task_id revisions [] = []
current_annotations task_id revisions (a ∷ assignments) =
    let rest = current_annotations task_id revisions assignments in
    if of_task task_id a then with_submission a.submitted revisions rest else rest

abbrev pub revision_ids : List Annotation → List String
revision_ids = map (λ a. a.revision_id)

unfoldable pub all_labelled : Label → List Annotation → Bool
all_labelled label [] = true
all_labelled label (a ∷ annotations) = same_label a.label label && all_labelled label annotations

-- `annotations.iter().all(|annotation| annotation.label == annotations[0].label)`
abbrev pub agree : List Annotation → Bool
agree [] = true
agree (a ∷ annotations) = all_labelled a.label (a ∷ annotations)

unfoldable pub all_in : List String → List String → Bool
all_in [] ys = true
all_in (x ∷ xs) ys = contains text_dec x ys && all_in xs ys

-- `as_set(left) == as_set(right)`
abbrev pub same_set : List String → List String → Bool
same_set xs ys = all_in xs ys && all_in ys xs

pub record ResolvedTruth : Type 0 where
  pub label : Label
  pub annotation_revision_ids : List String
  pub adjudication_revision_id : Option String

-- The first of no annotations is asked for only where a task wants no reviewer.
pub data Truth : Type 0 where
  panics unresolved : Truth
  resolved : ResolvedTruth → Truth

abbrev pub latest_adjudication : String → List Adjudication → Option Adjudication
latest_adjudication id rows =
    latest (λ a. a.adjudication_revision) (λ a. same a.adjudication_id id) rows

abbrev pub unanimous : List Annotation → Truth
unanimous [] = panics
unanimous (a ∷ annotations) = resolved (record {
  label = a.label;
  annotation_revision_ids = revision_ids (a ∷ annotations);
  adjudication_revision_id = none;
})

-- Where the labels differ, the last adjudication counts, if it is about these revisions.
abbrev pub adjudicated : List Annotation → Option Adjudication → Truth
adjudicated annotations none = unresolved
adjudicated annotations (some a) =
    if same_set a.annotation_revision_ids (revision_ids annotations)
    then resolved (record {
      label = a.label;
      annotation_revision_ids = revision_ids annotations;
      adjudication_revision_id = some a.revision_id;
    })
    else unresolved

module _ (ext : Externals) where
  unfoldable pub resolved_truth : Store → Task → Truth
  unfolding current_annotations
  resolved_truth s task =
      let annotations = current_annotations task.task_id s.revisions s.assignments in
      if ltb (length annotations) task.required_reviewers
      then unresolved
      else if agree annotations
      then unanimous annotations
      else adjudicated annotations
          (latest_adjudication (ext.adjudication_identity task.case_id) s.adjudications)

  unfoldable pub resolve_task_status : Store → Task → TaskStatus
  unfolding current_annotations resolved_truth
  resolve_task_status s task =
      let annotations = current_annotations task.task_id s.revisions s.assignments in
      if ltb (length annotations) task.required_reviewers
      then TaskStatus.in_review
      else if agree annotations
      then TaskStatus.completed
      else (elim (resolved_truth s task) [
        | resolved truth ↦ TaskStatus.completed
        | _ ↦ TaskStatus.awaiting_adjudication
      ])
