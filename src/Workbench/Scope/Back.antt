-- ===== src/Workbench/Scope/Back.antt =====
-- Leaving a project and coming back.
use Prim.Native.String.{String}
use perseval.Base.{
  find, some, false, get, put, text_dec, inl, inr, refl, arith, Bool-cases, Option-cases, get-put,
  ◌≡◌, ◌≢◌, ap, ◌∙◌, sym,
}
use perseval.Workbench.Tabs.{same_project}
use perseval.Workbench.Scope.{
  settle_active, restore_editor, enter_project, enter_scope, save_context, saved_contexts,
  switch_scope, active_is_scope_independent, context_editor_open, fits_context, context_of,
  default_scope, in_context,
}
use perseval.Workbench.State.{WorkbenchStateV1, ProjectContextState, QueryScope, ProjectScope}

other_project :
    (p q : String)
    → q ≢ p
    → (same_project (ProjectScope.project p) (ProjectScope.project q) ≡ false)
      × (same_project (ProjectScope.project q) (ProjectScope.project p) ≡ false)
unfolding same_project
other_project p q n = (ground arith, ground arith)

module _ {Size Preferences Onboarding Appearance : Type 0} where
  settle-keeps :
      (s : WorkbenchStateV1 Size Preferences Onboarding Appearance)
      → let t = settle_active s in
        (t.scope ≡ s.scope) × (t.panes ≡ s.panes) × (t.project_contexts ≡ s.project_contexts)
  unfolding settle_active
  settle-keeps s = elim (Bool-cases (active_is_scope_independent s.active_editor s.editors)) [
    | inl h ↦ rw (h, settle_active) (refl, refl, refl)
    | inr h ↦ rw (h, settle_active) (refl, refl, refl)
  ]

  restore-keeps :
      (project_id : String) (context : ProjectContextState Size)
      (s : WorkbenchStateV1 Size Preferences Onboarding Appearance)
      → let t = restore_editor project_id context s in
        (t.scope ≡ s.scope) × (t.panes ≡ s.panes) × (t.project_contexts ≡ s.project_contexts)
  unfolding restore_editor
  restore-keeps project_id context s =
      elim (Bool-cases (context_editor_open context.active_editor project_id s.editors)) [
        | inl h ↦ rw (h, restore_editor) (refl, refl, refl)
        | inr h ↦
            rw (h, restore_editor)
              (elim (Option-cases
                (find (fits_context context.active_activity project_id) s.editors)) [
                  | inl e ↦ rw e (refl, refl, refl)
                  | inr (tab, e) ↦ rw e (refl, refl, refl)
                ])
      ]

  -- What entering a scope does to the contexts and to the project: nothing, and the one asked for.
  enter-keeps :
      (scope : ProjectScope) (s : WorkbenchStateV1 Size Preferences Onboarding Appearance)
      → let t = enter_scope scope s in
        (t.scope.project ≡ scope) × (t.project_contexts ≡ s.project_contexts)
  unfolding enter_scope enter_project
  enter-keeps ProjectScope.all_projects s =
      let (scope, _, contexts) = settle-keeps (record s { scope = default_scope }) in
      (ap (λ q. q.project) scope, contexts)
  enter-keeps (ProjectScope.project q) s = elim (Option-cases (get text_dec q s.project_contexts)) [
    | inl e ↦
        let (scope, _, contexts) =
          settle-keeps
            (record s { scope = record default_scope { project = ProjectScope.project q } }) in
        rw (e, enter_project) (ap (λ q. q.project) scope, contexts)
    | inr (context, e) ↦
        let (scope, _, contexts) = restore-keeps q context (in_context q context s) in
        rw (e, enter_project) (ap (λ q. q.project) scope, contexts)
  ]

  -- Entering a project with a context brings the context back.
  enter-context :
      (p : String) (s u : WorkbenchStateV1 Size Preferences Onboarding Appearance)
      → get text_dec p u.project_contexts ≡ some (context_of s)
      → s.scope.project ≡ ProjectScope.project p
      → let t = enter_scope (ProjectScope.project p) u in (t.scope ≡ s.scope) × (t.panes ≡ s.panes)
  unfolding enter_scope enter_project
  enter-context p s u e h =
      let (scope, panes, _) = restore-keeps p (context_of s) (in_context p (context_of s) u) in
      rw (e, enter_project) (scope ∙ ap (λ x. record s.scope { project = x }) (sym h), panes)

  switch_other :
      (requested : QueryScope) (s : WorkbenchStateV1 Size Preferences Onboarding Appearance)
      → same_project s.scope.project requested.project ≡ false
      → switch_scope requested s ≡ enter_scope requested.project (save_context s)
  unfolding switch_scope
  switch_other requested s h = rw (h, switch_scope) refl

  saved_at :
      (q : String) (s : WorkbenchStateV1 Size Preferences Onboarding Appearance)
      → s.scope.project ≡ ProjectScope.project q
      → (save_context s).project_contexts ≡ put text_dec q (context_of s) s.project_contexts
  unfolding save_context saved_contexts
  saved_at q s h = ap (λ x. saved_contexts x s) h

  -- Whoever switches from the scope of a project to one of another project and then to any of the
  -- first again finds the filters of the scope and the panes as they were.
  pub switch_scope_back :
      (s : WorkbenchStateV1 Size Preferences Onboarding Appearance) (p q : String)
      (away back : QueryScope)
      → s.scope.project ≡ ProjectScope.project p
      → away.project ≡ ProjectScope.project q
      → back.project ≡ ProjectScope.project p
      → q ≢ p
      → let t = switch_scope back (switch_scope away s) in (t.scope ≡ s.scope) × (t.panes ≡ s.panes)
  switch_scope_back s p q away back at_p to_q to_p n =
      let (differs, differs') = other_project p q n in
      let u = enter_scope away.project (save_context s) in
      let (at_q, contexts) = enter-keeps away.project (save_context s) in
      let leave : switch_scope away s ≡ u = switch_other away s (rw (at_p, to_q) differs) in
      let saved : get text_dec p (save_context u).project_contexts ≡ some (context_of s) = ground (
        arith,
        saved_at q u (at_q ∙ to_q),
        contexts,
        saved_at p s at_p,
        get-put text_dec q p (context_of u) u.project_contexts,
        get-put text_dec p p (context_of s) s.project_contexts,
      ) in
      let return_ : switch_scope back u ≡ enter_scope (ProjectScope.project p) (save_context u) =
        switch_other back u (rw (at_q, to_q, to_p) differs')
        ∙ ap (λ x. enter_scope x (save_context u)) to_p in
      rw (leave, return_) (enter-context p s (save_context u) saved at_p)
