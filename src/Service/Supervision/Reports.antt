-- ===== src/Service/Supervision/Reports.antt =====
-- What the supervisor reports.
use Prim.Native.String.{String, ◌++◌ as append}
use perseval.Base.{
  if◌then◌else◌, true, false, Member, inl, inr, ◌⊎◌, Bool-cases, List, [], ◌∷◌, ◌++◌, Bool, not,
  retain, map, refl, arith, length, ◌≡◌, ◌+◌, length-append, ap,
}
use perseval.Service.Supervision.{
  SupervisedWorker, WorkerSupervisor, WorkerGroup, same_group, join_group, join_all,
  unexpected_exits, exit_report,
}

retain-not :
    (p : SupervisedWorker → Bool) (workers : List SupervisedWorker)
    → retain p (retain (λ w. not (p w)) workers) ≡ []
unfolding retain
retain-not p [] = refl
retain-not p (w ∷ workers) = ground (arith, retain-not p workers)

retain_twice :
    (p : SupervisedWorker → Bool) (workers : List SupervisedWorker)
    → retain p (retain p workers) ≡ retain p workers
unfolding retain
retain_twice p [] = refl
retain_twice p (w ∷ workers) = ground (arith, retain_twice p workers)

length-split :
    (p : SupervisedWorker → Bool) (workers : List SupervisedWorker)
    → length (retain p workers) + length (retain (λ w. not (p w)) workers) ≡ length workers
unfolding retain
length-split p [] = omega arith
length-split p (w ∷ workers) = ground (arith, length-split p workers)

length-map_report :
    (workers : List SupervisedWorker) → length (map exit_report workers) ≡ length workers
length-map_report [] = omega arith
length-map_report (w ∷ workers) = omega (arith, length-map_report workers)

append-nil : (xs : List String) → xs ++ [] ≡ xs
append-nil [] = refl
append-nil (x ∷ xs) = ap (◌∷◌ x) (append-nil xs)

retain-Member :
    (p : SupervisedWorker → Bool) (workers : List SupervisedWorker) (w : SupervisedWorker)
    → Member w workers
    → p w ≡ true
    → Member w (retain p workers)
unfolding retain
retain-Member p [] w m h = absurd m
retain-Member p (x ∷ workers) w (inl e) h = ground arith
retain-Member p (x ∷ workers) w (inr m) h =
    let rest = retain-Member p workers w m h in
    elim (Bool-cases (p x)) [ inl q ↦ rw q (inr rest) | inr q ↦ rw q rest ]

Member-map :
    (workers : List SupervisedWorker) (w : SupervisedWorker)
    → Member w workers
    → Member (exit_report w) (map exit_report workers)
Member-map [] w m = absurd m
Member-map (x ∷ workers) w (inl e) = inl (ap exit_report e)
Member-map (x ∷ workers) w (inr m) = inr (Member-map workers w m)

Member-behind : (xs ys : List String) (x : String) → Member x ys → Member x (xs ++ ys)
Member-behind [] ys x m = m
Member-behind (y ∷ xs) ys x m = inr (Member-behind xs ys x m)

-- A worker that has finished is reported, with how it ended, and is then no longer watched; one that
-- has not finished is watched on. The earlier reports stay in front, and workers and reports together
-- stay as many. A second look without a change reports the same and changes nothing.
pub unexpected_exits_once :
    (s : WorkerSupervisor) (w : SupervisedWorker)
    → Member w s.workers
    → let (next, reports) = unexpected_exits s in
      (((w.handle.finished ≡ true)
          × Member (append w.name (if w.handle.panics then " panicked" else " exited")) reports)
        ⊎ ((w.handle.finished ≡ false) × Member w next.workers))
      × (retain (λ x. x.handle.finished) next.workers ≡ [])
      × ((new : List String) × (reports ≡ s.failures ++ new))
      × (unexpected_exits next ≡ (next, reports))
      × (length next.workers + length reports ≡ length s.workers + length s.failures)
unfolding unexpected_exits exit_report
unexpected_exits_once s w m =
    let finished : SupervisedWorker → Bool = λ w. w.handle.finished in
    (
      elim (Bool-cases w.handle.finished) [
        | inl e ↦ inl (
          e,
          Member-behind s.failures (map exit_report (retain finished s.workers)) (exit_report w)
              (Member-map (retain finished s.workers) w (retain-Member finished s.workers w m e)),
        )
        | inr e ↦ inr (e, retain-Member (λ x. not (finished x)) s.workers w m (ground arith))
      ],
      retain-not finished s.workers,
      (_, refl),
      rw
          (
            retain-not finished s.workers,
            append-nil _,
            retain_twice (λ w. not (finished w)) s.workers,
          )
          refl,
      omega (
        arith,
        length-split finished s.workers,
        length-append s.failures (map exit_report (retain finished s.workers)),
        length-map_report (retain finished s.workers),
      ),
    )

-- Joining a group leaves the workers of the other group, in their order, and no worker of its own;
-- joining it again changes nothing.
pub join_group_once :
    (group : WorkerGroup) (s : WorkerSupervisor)
    → let next = join_group group s in
      (retain (λ w. same_group w.group group) next.workers ≡ [])
      × (retain (λ w. not (same_group w.group group)) next.workers
          ≡ retain (λ w. not (same_group w.group group)) s.workers)
      × (join_group group next ≡ next)
unfolding join_group join_all
join_group_once group s =
    let own : SupervisedWorker → Bool = λ w. same_group w.group group in
    (
      retain-not own s.workers,
      retain_twice (λ w. not (own w)) s.workers,
      rw (retain-not own s.workers, append-nil _, retain_twice (λ w. not (own w)) s.workers) refl,
    )
