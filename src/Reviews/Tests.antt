-- ===== src/Reviews/Tests.antt =====
-- A task of two reviewers who differ, and the theorems there.
use Prim.Native.String.{String, ◌++◌ as append}
use perseval.Base.{
  Member, inl, any, ◌<◌, ◌↔◌, length, total, count, latest, ◌≡◌, ◌≢◌, refl, List, ◌∷◌, [], none,
  some, false, find, any, count, contains, update, same, decimal, text_dec, length, arith, ◌<◌,
  true, get,
}
use perseval.Assessments.State.{ItemStatus}
use perseval.Reviews.State.{
  SelectionReason, queue_named, Queue, Split, Annotation, Adjudication, Store, Task, Authority,
  Externals, Mode, Label, ok, after, TaskStatus,
}
use perseval.Reviews.Truth.{
  resolve_task_status, resolved_truth, resolved, ResolvedTruth, current_annotations, revision_ids,
}
use perseval.Reviews.Truth.Resolves.{resolve_task_status-resolved_truth}
use perseval.Reviews.Assign.Bounded.{IsValid}
use perseval.Reviews.Submit.{
  head_of, latest_revision, next_number, Answer, submit_annotation_revision, annotation_of,
}
use perseval.Reviews.Submit.Heads.{submit_annotation_revision-extends}
use perseval.Reviews.Adjudicate.{adjudicate_review_task, adjudication_of}
use perseval.Reviews.Blind.{reveals, assessment_blind_embargo}
use perseval.Reviews.Blind.Hidden.{assessment_blind_embargo-none, assessment_blind_embargo-some}
use perseval.Reviews.Enqueue.{enqueue_review_task}
use perseval.Reviews.Steps.{Event, assign, submit, run, run-IsValid}
use perseval.Reviews.Steps.Repeats.{enqueue_review_task-once}
use perseval.Reviews.Steps.Answers.{submit_annotation_revision-once}

abbrev ext : Externals
ext = record {
  text_before = λ a b. false;
  trim = λ s. s;
  is_blank = λ s. same s "";
  task_identity = λ queue_id case_id assessment_id reason. append queue_id case_id;
  annotation_identity = λ case_id schema reviewer. append case_id reviewer;
  annotation_revision_identity =
      λ id number head task_id label explanation keys now. append id (decimal 5 number);
  adjudication_identity = λ case_id. case_id;
  adjudication_revision_identity =
      λ id number head ids label explanation keys by now. append id (decimal 5 number);
}

abbrev task : Task
task = record {
  task_id = "task";
  queue_id = "queue";
  case_id = "case";
  project_id = "project";
  assessment_id = "assessment";
  leakage_group_id = "group";
  split = Split.test;
  selection_reason = SelectionReason.manual;
  required_reviewers = 2;
  status = TaskStatus.pending;
  created_at = 1;
}

abbrev queue : Queue
queue = record {
  queue_id = "queue";
  project_id = "project";
  evaluator_release_id = "evaluator";
  split_release_id = "split";
  random_audit_basis_points = 0;
  active = true;
  mode = Mode.visible_triage;
  annotation_schema_release_id = "schema";
}

abbrev store : Store
store = record {
  queues = queue ∷ [];
  tasks = task ∷ [];
  assignments = [];
  annotations = [];
  revisions = [];
  adjudications = [];
  adjudication_inputs = [];
  evidence = ("case", "key") ∷ [];
  calibration_releases =
      (record {
        calibration_release_id = "calibration";
        project_id = "project";
        evaluator_release_id = "evaluator";
        annotation_schema_release_id = "schema";
        split_release_id = "split";
      })
      ∷ [];
  cases =
      (record {
        case_id = "case";
        project_id = "project";
        annotation_schema_release_id = "schema";
        logical_trace_id = "trace";
        revision = 1;
        context_binding_id = "binding";
        safe_projection_hash = "hash";
        leakage_group_id = "group";
      })
      ∷ [];
  required_reviewers = ("schema", 2) ∷ [];
  assessments =
      (record {
        assessment_id = "assessment";
        item_id = "item";
        project_id = "project";
        target = record {
          logical_trace_id = "trace";
          revision = 1;
          evaluator_release_id = "evaluator";
          context_binding_id = "binding";
          context_release_id = none;
          projection_hash = "hash";
        };
        provider = none;
        requested_model = none;
        returned_model = none;
        status = ItemStatus.failed;
        evaluation = none;
        cost_micros = 0;
      })
      ∷ [];
  threshold_policies = "calibration" ∷ [];
  split_groups =
      (record { split_release_id = "split"; leakage_group_id = "group"; split = Split.test }) ∷ [];
}

abbrev answer : Label → Answer
answer label = record { label = label; explanation = "because"; evidence_keys = "key" ∷ [] }

abbrev both : List Event
both = assign "task" "ann" Authority.human ∷ assign "task" "bob" Authority.human ∷ []

abbrev opened : Store
unfolding run
opened = run ext both store

abbrev first_answered : Store
unfolding submit_annotation_revision
first_answered =
    after
      (submit_annotation_revision ext "task" "ann" none (answer Label.completed) Authority.human 5
        opened)
      opened

abbrev differing : Store
unfolding submit_annotation_revision
differing =
    after
      (submit_annotation_revision ext "task" "bob" none (answer Label.failed) Authority.human 6
        first_answered)
      first_answered

abbrev waiting : Task
waiting = record task { status = TaskStatus.awaiting_adjudication }

opened-IsValid : IsValid store
unfolding IsValid count total
opened-IsValid =
    (λ task_id found e. omega arith, λ task_id reviewer_id. omega arith, λ task_id e. refl)

run-IsValid_example : IsValid (run ext both store)
run-IsValid_example = run-IsValid ext both store opened-IsValid

abbrev first_row : Annotation
first_row = annotation_of ext task queue "ann" (answer Label.completed) none 5 none

accepts :
    submit_annotation_revision ext "task" "ann" none
      (answer Label.completed)
      Authority.human
      5
      opened
    ≡ ok first_row first_answered
unfolding run submit_annotation_revision find text_dec any update resolve_task_status decimal
    contains latest
accepts = refl

submit_annotation_revision-extends_example :
    (head_of (latest_revision first_row.annotation_id opened.revisions) ≡ none)
    × (first_row.supersedes_revision_id ≡ none)
    × (first_row.annotation_revision
        ≡ next_number (latest_revision first_row.annotation_id opened.revisions))
    × (first_answered.revisions ≡ first_row ∷ opened.revisions)
    × (latest_revision first_row.annotation_id first_answered.revisions ≡ some first_row)
submit_annotation_revision-extends_example =
    submit_annotation_revision-extends ext "task" "ann" none (answer Label.completed)
      Authority.human 5 opened first_answered first_row accepts

-- The other reviewer answers in between.
abbrev between : List Event
between = submit "task" "bob" none (answer Label.failed) Authority.human 6 ∷ []

submit_annotation_revision-once_example :
    submit_annotation_revision ext "task" "ann" none
      (answer Label.failed)
      Authority.human
      9
      (run ext between first_answered)
    ≢ ok first_row first_answered
submit_annotation_revision-once_example =
    submit_annotation_revision-once ext "task" "ann" none (answer Label.completed)
      (answer Label.failed) Authority.human Authority.human 5 9 between opened first_answered
      first_answered first_row first_row accepts

resolve_task_status-resolved_truth_example :
    ((resolve_task_status ext differing waiting ≡ TaskStatus.completed)
      ↔ ((truth : ResolvedTruth) × (resolved_truth ext differing waiting ≡ resolved truth)))
    × ((resolve_task_status ext differing waiting ≡ TaskStatus.in_review)
        ↔ (length (current_annotations "task" differing.revisions differing.assignments) < 2))
resolve_task_status-resolved_truth_example =
    resolve_task_status-resolved_truth ext differing waiting (omega arith)

abbrev ids : List String
unfolding current_annotations
ids = revision_ids (current_annotations "task" differing.revisions differing.assignments)

abbrev decided : Store
unfolding adjudicate_review_task
decided =
    after
      (adjudicate_review_task ext "task" ids none (answer Label.partial) "eve" Authority.human 8
        differing)
      differing

abbrev decision : Adjudication
decision = adjudication_of ext waiting ids none (answer Label.partial) "eve" 8 none

-- A blind task of the test split that is done, with a frozen threshold policy and without one.
abbrev blind_queue : Queue
blind_queue = record queue { mode = Mode.blind_calibration }

abbrev done_task : Task
done_task = record task { status = TaskStatus.completed }

abbrev frozen : Store
frozen = record store { queues = blind_queue ∷ []; tasks = done_task ∷ [] }

abbrev unfrozen : Store
unfrozen = record frozen { threshold_policies = [] }

free : assessment_blind_embargo ext frozen "assessment" ≡ none
unfolding assessment_blind_embargo any find text_dec
free = refl

held : assessment_blind_embargo ext unfrozen "assessment" ≡ some ("task", "queue")
unfolding assessment_blind_embargo any find text_dec
held = refl

assessment_blind_embargo-none_example : reveals frozen done_task blind_queue ≡ true
unfolding find text_dec
assessment_blind_embargo-none_example =
    assessment_blind_embargo-none ext frozen done_task blind_queue (inl refl) refl refl free

assessment_blind_embargo-some_example :
    (other : Task) × (by : Queue) × Member other unfrozen.tasks
    × (other.task_id ≡ "task")
    × (other.assessment_id ≡ "assessment")
    × (find (queue_named "queue") unfrozen.queues ≡ some by)
    × (reveals unfrozen other by ≡ false)
assessment_blind_embargo-some_example =
    assessment_blind_embargo-some ext unfrozen "assessment" "task" "queue" held

abbrev no_tasks : Store
no_tasks = record store { tasks = [] }

abbrev enqueued : Store
unfolding enqueue_review_task
enqueued =
    after (enqueue_review_task ext "queue" "case" "assessment" SelectionReason.manual 1 no_tasks)
      no_tasks

abbrev new_task : Task
new_task = record task { task_id = "queuecase" }

takes :
    enqueue_review_task ext "queue" "case" "assessment" SelectionReason.manual 1 no_tasks
    ≡ ok new_task enqueued
unfolding enqueue_review_task find any get text_dec
takes = refl

-- The new task gets a reviewer in between.
abbrev assigned_between : List Event
assigned_between = assign "queuecase" "ann" Authority.human ∷ []

enqueue_review_task-once_example :
    enqueue_review_task ext "queue" "case" "other" SelectionReason.active_learning 2
      (run ext assigned_between enqueued)
    ≢ ok new_task enqueued
unfolding find text_dec
enqueue_review_task-once_example =
    enqueue_review_task-once ext "queue" "queue" "case" "assessment" "other" SelectionReason.manual
      SelectionReason.active_learning 1 2 assigned_between no_tasks enqueued enqueued new_task
      new_task queue queue refl refl refl takes
