-- ===== src/Reviews/Blind/Hidden.antt =====
-- The two ways to an assessment under review agree on when it is shown.
use Prim.Native.String.{String}
use mathlib.Core.Path.{subst}
use perseval.Base.{
  same→eq, ap, ◌≡◌, refl, List, [], ◌∷◌, none, some, true, false, not, Member, arith, inl, inr,
  Bool-cases, Option-cases, same_self, find,
}
use perseval.Reviews.State.{
  Split, is_test, Store, Queue, Task, Externals, is_cancelled, queue_named,
}
use perseval.Reviews.Blind.{
  task_before, reveals, embargoes, is_embargoed, embargoing, assessment_blind_embargo,
  threshold_is_frozen, blind_task_model_reveal_allowed,
}

is_test→eq : (split : Split) → is_test split ≡ true → split ≡ Split.test
is_test→eq Split.train h = cc
is_test→eq Split.calibration h = cc
is_test→eq Split.test h = refl

-- A view of a task that is not cancelled has the assessment exactly if the task is no embargo.
reveals-embargoes :
    (s : Store) (task : Task) (queue : Queue)
    → is_cancelled task.status ≡ false
    → reveals s task queue ≡ not (embargoes s task queue)
unfolding reveals embargoes blind_task_model_reveal_allowed
reveals-embargoes s task queue h = elim (Bool-cases (is_test task.split)) [
  | inl e ↦
      let same_ : threshold_is_frozen task.split s task queue
          ≡ threshold_is_frozen Split.test s task queue =
        ap (λ split. threshold_is_frozen split s task queue) (is_test→eq task.split e) in
      ground arith
  | inr e ↦ ground arith
]

embargoes-live :
    (s : Store) (task : Task) (queue : Queue)
    → embargoes s task queue ≡ true
    → is_cancelled task.status ≡ false
unfolding embargoes
embargoes-live s task queue h = ground arith

embargoes-reveals :
    (s : Store) (task : Task) (queue : Queue)
    → embargoes s task queue ≡ true
    → reveals s task queue ≡ false
embargoes-reveals s task queue h =
    let live : is_cancelled task.status ≡ false = embargoes-live s task queue h in
    let agrees = reveals-embargoes s task queue live in ground arith

module _ (ext : Externals) where
  embargoing-none :
      (s : Store) (assessment_id : String) (tasks : List Task) (task : Task)
      → Member task tasks
      → embargoing ext s assessment_id tasks ≡ none
      → is_embargoed s assessment_id task ≡ false
  unfolding embargoing
  embargoing-none s assessment_id [] task m h = absurd m
  embargoing-none s assessment_id (x ∷ tasks) task (inl e) h =
      let this : is_embargoed s assessment_id x ≡ false =
        elim (Bool-cases (is_embargoed s assessment_id x)) [
          | inr p ↦ p
          | inl p ↦ elim (Option-cases (embargoing ext s assessment_id tasks)) [
            | inl q ↦ absurd (ground arith)
            | inr (other, q) ↦ absurd (ground arith)
          ]
        ] in
      subst (λ t. is_embargoed s assessment_id t ≡ false) e this
  embargoing-none s assessment_id (x ∷ tasks) task (inr m) h =
      let rest : embargoing ext s assessment_id tasks ≡ none =
        elim (Option-cases (embargoing ext s assessment_id tasks)) [
          | inl q ↦ q
          | inr (other, q) ↦ absurd (ground arith)
        ] in
      embargoing-none s assessment_id tasks task m rest

  embargoing-some :
      (s : Store) (assessment_id : String) (tasks : List Task) (task : Task)
      → embargoing ext s assessment_id tasks ≡ some task
      → Member task tasks × (is_embargoed s assessment_id task ≡ true)
  unfolding embargoing
  embargoing-some s assessment_id [] task h = cc
  embargoing-some s assessment_id (x ∷ tasks) task h =
      let later = embargoing-some s assessment_id tasks task in
      elim (Bool-cases (is_embargoed s assessment_id x)) [
        | inr p ↦ let (m, q) = later (ground arith) in (inr m, q)
        | inl p ↦ elim (Option-cases (embargoing ext s assessment_id tasks)) [
          | inl q ↦
              let this : x ≡ task = ground arith in
              (inl this, subst (λ t. is_embargoed s assessment_id t ≡ true) this p)
          | inr (other, q) ↦ elim (Bool-cases (task_before ext other x)) [
            | inl r ↦ let (m, y) = later (ground arith) in (inr m, y)
            | inr r ↦
                let this : x ≡ task = ground arith in
                (inl this, subst (λ t. is_embargoed s assessment_id t ≡ true) this p)
          ]
        ]
      ]

  -- Nothing leaks: an assessment that is not embargoed is one that every view of its review tasks may
  -- show, but for those of cancelled tasks.
  pub assessment_blind_embargo-none :
      (s : Store) (task : Task) (queue : Queue)
      → Member task s.tasks
      → find (queue_named task.queue_id) s.queues ≡ some queue
      → is_cancelled task.status ≡ false
      → assessment_blind_embargo ext s task.assessment_id ≡ none
      → reveals s task queue ≡ true
  unfolding assessment_blind_embargo is_embargoed
  assessment_blind_embargo-none s task queue m q live h =
      let none_ : embargoing ext s task.assessment_id s.tasks ≡ none =
        elim (Option-cases (embargoing ext s task.assessment_id s.tasks)) [
          | inl e ↦ e
          | inr (other, e) ↦ absurd (ground arith)
        ] in
      let free = embargoing-none s task.assessment_id s.tasks task m none_ in
      let agrees = reveals-embargoes s task queue live in
      ground (arith, same_self task.assessment_id)

  -- An embargo names a task of the assessment whose view does not show it.
  pub assessment_blind_embargo-some :
      (s : Store) (assessment_id task_id queue_id : String)
      → assessment_blind_embargo ext s assessment_id ≡ some (task_id, queue_id)
      → (task : Task) × (queue : Queue) × Member task s.tasks
        × (task.task_id ≡ task_id)
        × (task.assessment_id ≡ assessment_id)
        × (find (queue_named queue_id) s.queues ≡ some queue)
        × (reveals s task queue ≡ false)
  unfolding assessment_blind_embargo is_embargoed
  assessment_blind_embargo-some s assessment_id task_id queue_id h =
      elim (Option-cases (embargoing ext s assessment_id s.tasks)) [
        | inl e ↦ absurd (ground arith)
        | inr (task, e) ↦
            let (m, held) = embargoing-some s assessment_id s.tasks task e in
            let id : task.task_id ≡ task_id = ground arith in
            let by : task.queue_id ≡ queue_id = ground arith in
            let of : task.assessment_id ≡ assessment_id =
              same→eq task.assessment_id assessment_id (ground arith) in
            elim (Option-cases (find (queue_named task.queue_id) s.queues)) [
              | inl q ↦ absurd (ground arith)
              | inr (queue, q) ↦
                  let hidden : embargoes s task queue ≡ true = ground arith in
                  (task, queue, m, id, of, rw (← by) q, embargoes-reveals s task queue hidden)
            ]
      ]
