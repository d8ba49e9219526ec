-- ===== src/Reviews/Assign/Bounded.antt =====
-- How many reviewers a task gets.
use Prim.Native.String.{String}
use mathlib.Core.Path.{subst}
use perseval.Base.{
  if◌then◌else◌, Bool, ◌≡◌, refl, ◌≤◌, List, ◌∷◌, [], ◌++◌, none, some, find, find-update, count,
  find-Member, sym, ◌∙◌, count-append, ◌<◌, ◌⊎◌, count-find, Option-cases, Bool-cases, same,
  same→eq, arith, inl, inr,
}
use perseval.Reviews.State.{
  Store, Task, Assignment, Authority, Externals, ok, assigned, of_task, task_named, persist_status,
  TaskStatus,
}
use perseval.Reviews.Assign.{assign_loaded, assign_review_task}

-- A task has no more reviewers than it wants, and each of them once; what is no task has none.
unfoldable pub IsValid : Store → Type 0
IsValid s =
    ((task_id : String) (task : Task)
      → find (task_named task_id) s.tasks ≡ some task
      → count (of_task task_id) s.assignments ≤ task.required_reviewers)
    × ((task_id reviewer_id : String) → count (assigned task_id reviewer_id) s.assignments ≤ 1)
    × ((task_id : String)
        → find (task_named task_id) s.tasks ≡ none
        → count (of_task task_id) s.assignments ≡ 0)

pub persist_status-find :
    (task_id other : String) (status : TaskStatus) (tasks : List Task) (found : Task)
    → find (task_named task_id) (persist_status other status tasks) ≡ some found
    → (task : Task) × (find (task_named task_id) tasks ≡ some task)
      × (found.required_reviewers ≡ task.required_reviewers)
persist_status-find task_id other status tasks found e =
    let f : Task → Task = λ t. record t { status = status } in
    let found_is =
      find-update (λ (t : Task). t.task_id) (task_named other) task_id f tasks (λ row. refl) in
    elim (Option-cases (find (task_named task_id) tasks)) [
      | inl q ↦ absurd (ground arith)
      | inr (task, q) ↦ (task, q, ground arith)
    ]

persist_status-none :
    (task_id other : String) (status : TaskStatus) (tasks : List Task)
    → find (task_named task_id) (persist_status other status tasks) ≡ none
    → find (task_named task_id) tasks ≡ none
persist_status-none task_id other status tasks e =
    let f : Task → Task = λ t. record t { status = status } in
    let found_is =
      find-update (λ (t : Task). t.task_id) (task_named other) task_id f tasks (λ row. refl) in
    elim (Option-cases (find (task_named task_id) tasks)) [
      | inl q ↦ q
      | inr (task, q) ↦ absurd (ground arith)
    ]

-- A change of a task's status, and of columns that the counts do not read.
pub IsValid-status :
    (s t : Store) (other : String) (status : TaskStatus)
    → t.tasks ≡ persist_status other status s.tasks
    → ((task_id : String)
        → count (of_task task_id) t.assignments ≡ count (of_task task_id) s.assignments)
    → ((task_id reviewer_id : String)
        → count (assigned task_id reviewer_id) t.assignments
          ≡ count (assigned task_id reviewer_id) s.assignments)
    → IsValid s
    → IsValid t
unfolding IsValid
IsValid-status s t other status tasks h k (few, once, known) = (
  λ task_id found e.
      let (task, q, same_) =
        persist_status-find task_id other status s.tasks found (rw (← tasks) e) in
      let bound = few task_id task q in ground (arith, h task_id),
  λ task_id reviewer_id. rw (k task_id reviewer_id) (once task_id reviewer_id),
  λ task_id e.
      rw (h task_id)
        (known task_id (persist_status-none task_id other status s.tasks (rw (← tasks) e))),
)

-- What an assignment that is new writes.
assign_loaded-inverts :
    (reviewer_id : String) (task : Task) (s t : Store) (row : Assignment)
    → assign_loaded reviewer_id task s ≡ ok row t
    → (t ≡ s)
      ⊎ ((find (assigned task.task_id reviewer_id) s.assignments ≡ none)
          × (count (of_task task.task_id) s.assignments < task.required_reviewers)
          × (t.assignments ≡ s.assignments ++ row ∷ [])
          × (row.task_id ≡ task.task_id)
          × (row.reviewer_id ≡ reviewer_id)
          × (t.tasks ≡ persist_status task.task_id TaskStatus.in_review s.tasks))
unfolding assign_loaded
assign_loaded-inverts reviewer_id task s t row h =
    elim (Option-cases (find (assigned task.task_id reviewer_id) s.assignments)) [
      | inr (a, e) ↦ inl (ground arith)
      | inl e ↦ inr (e, ground arith, ground arith, ground arith, ground arith, ground arith)
    ]

module _ (s t : Store) (task : Task) (row : Assignment) where
  -- The task of the new assignment had fewer reviewers than it wants.
  few_after :
      (task_id : String)
      → find (task_named row.task_id) s.tasks ≡ some task
      → count (of_task row.task_id) s.assignments < task.required_reviewers
      → t.assignments ≡ s.assignments ++ row ∷ []
      → IsValid s
      → (task' : Task) → find (task_named task_id) s.tasks ≡ some task'
      → count (of_task task_id) t.assignments ≤ task'.required_reviewers
  unfolding IsValid
  few_after task_id e less grown (few, _, _) task' q =
      let sum = count-append (of_task task_id) s.assignments row in
      let bound = few task_id task' q in
      elim (Bool-cases (same row.task_id task_id)) [
        | inl p ↦
            let is : row.task_id ≡ task_id = same→eq row.task_id task_id p in
            let task_is : task ≡ task' = cc in
            let less_ : count (of_task task_id) s.assignments < task'.required_reviewers =
              subst (λ k. count (of_task k) s.assignments < task'.required_reviewers) is
                (rw (← task_is) less) in
            rw grown (ground arith)
        | inr p ↦ rw grown (ground arith)
      ]

  -- The reviewer had no assignment of the task.
  once_after :
      (task_id reviewer_id : String)
      → find (assigned row.task_id row.reviewer_id) s.assignments ≡ none
      → t.assignments ≡ s.assignments ++ row ∷ []
      → IsValid s
      → count (assigned task_id reviewer_id) t.assignments ≤ 1
  unfolding IsValid
  once_after task_id reviewer_id e grown (_, once, _) =
      let sum = count-append (assigned task_id reviewer_id) s.assignments row in
      let bound = once task_id reviewer_id in
      elim (Bool-cases (assigned task_id reviewer_id row)) [
        | inl p ↦
            let is : row.task_id ≡ task_id = same→eq row.task_id task_id (ground arith) in
            let by : row.reviewer_id ≡ reviewer_id =
              same→eq row.reviewer_id reviewer_id (ground arith) in
            let none_ = count-find (assigned row.task_id row.reviewer_id) s.assignments e in
            let zero : count (assigned task_id reviewer_id) s.assignments ≡ 0 =
              rw (← is, ← by) none_ in
            rw grown (ground arith)
        | inr p ↦ rw grown (ground arith)
      ]

  -- An assignment goes to a task that is there.
  known_after :
      (task_id : String)
      → find (task_named row.task_id) s.tasks ≡ some task
      → t.assignments ≡ s.assignments ++ row ∷ []
      → IsValid s
      → find (task_named task_id) s.tasks ≡ none
      → count (of_task task_id) t.assignments ≡ 0
  unfolding IsValid
  known_after task_id e grown (_, _, known) q =
      let sum = count-append (of_task task_id) s.assignments row in
      let zero = known task_id q in
      elim (Bool-cases (same row.task_id task_id)) [
        | inl p ↦
            let is : row.task_id ≡ task_id = same→eq row.task_id task_id p in
            let there : find (task_named task_id) s.tasks ≡ some task =
              subst (λ k. find (task_named k) s.tasks ≡ some task) is e in
            absurd (ground arith)
        | inr p ↦ rw grown (ground arith)
      ]

assign_loaded-IsValid :
    (reviewer_id task_id : String) (task : Task) (s t : Store) (row : Assignment)
    → find (task_named task_id) s.tasks ≡ some task
    → assign_loaded reviewer_id task s ≡ ok row t
    → IsValid s
    → IsValid t
unfolding IsValid
assign_loaded-IsValid reviewer_id task_id task s t row e h v =
    elim (assign_loaded-inverts reviewer_id task s t row h) [
      | inl same_ ↦ rw same_ v
      | inr (none_, less, grown, id, by, tasks) ↦
          let named =
            same→eq task.task_id task_id (find-Member (task_named task_id) s.tasks task e).1 in
          let there : find (task_named row.task_id) s.tasks ≡ some task =
            subst (λ k. find (task_named k) s.tasks ≡ some task) (sym (id ∙ named)) e in
          (
            λ id' found q.
                let (task', p, same_) =
                  persist_status-find id' task.task_id TaskStatus.in_review s.tasks found
                    (rw (← tasks) q) in
                let bound = few_after s t task row id' there (rw id less) grown v task' p in
                ground arith,
            λ id' by'. once_after s t task row id' by' (rw (id, by) none_) grown v,
            λ id' q. known_after s t task row id' there grown v (
                persist_status-none id' task.task_id TaskStatus.in_review s.tasks (rw (← tasks) q)),
          )
    ]

module _ (ext : Externals) where
  pub assign_review_task-IsValid :
      (task_id reviewer_id : String) (authority : Authority) (s t : Store) (row : Assignment)
      → assign_review_task ext task_id reviewer_id authority s ≡ ok row t
      → IsValid s
      → IsValid t
  unfolding assign_review_task
  assign_review_task-IsValid task_id reviewer_id authority s t row h v =
      elim (Option-cases (find (task_named task_id) s.tasks)) [
        | inl e ↦ absurd (ground arith)
        | inr (task, e) ↦ assign_loaded-IsValid reviewer_id task_id task s t row e (ground arith) v
      ]

pub find-append :
    (p : Task → Bool) (tasks : List Task) (task : Task)
    → find p (tasks ++ task ∷ []) ≡ (elim (find p tasks) [
      | none ↦ if p task then some task else none
      | some other ↦ some other
    ])
unfolding find
find-append p [] task = ground arith
find-append p (x ∷ tasks) task = ground (arith, find-append p tasks task)

-- A new task has no reviewer yet.
pub IsValid-append :
    (s t : Store) (task : Task)
    → t.tasks ≡ s.tasks ++ task ∷ []
    → t.assignments ≡ s.assignments
    → IsValid s
    → IsValid t
unfolding IsValid
IsValid-append s t task tasks assignments (few, once, known) = (
  λ task_id found e.
      let split = find-append (task_named task_id) s.tasks task in
      let e' : find (task_named task_id) (s.tasks ++ task ∷ []) ≡ some found = rw (← tasks) e in
      elim (Option-cases (find (task_named task_id) s.tasks)) [
        | inl q ↦ let zero = known task_id q in rw assignments (ground arith)
        | inr (other, q) ↦
            let bound = few task_id other q in
            let is : found ≡ other = ground arith in rw (assignments, is) bound
      ],
  λ task_id reviewer_id. rw assignments (once task_id reviewer_id),
  λ task_id e.
      let split = find-append (task_named task_id) s.tasks task in
      let e' : find (task_named task_id) (s.tasks ++ task ∷ []) ≡ none = rw (← tasks) e in
      elim (Option-cases (find (task_named task_id) s.tasks)) [
        | inl q ↦ rw assignments (known task_id q)
        | inr (other, q) ↦ absurd (ground arith)
      ],
)
