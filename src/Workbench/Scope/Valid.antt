-- ===== src/Workbench/Scope/Valid.antt =====
-- Changing the scope keeps the invariant of the open editors.
use Prim.Native.String.{String}
use text.Mathlib.TextLemmas.{cons-append}
use mathlib.Core.Path.{sym, ap}
use perseval.Base.{
  List, [], ◌∷◌, Option, none, some, true, false, find, contains, text_dec, All, Distinct, inl, inr,
  refl, arith, Bool-cases, Option-cases, get, ◌≡◌, ◌&&◌, ◌∙◌, ℕ, code_at,
}
use perseval.Workbench.Tabs.{
  has_id, ids, same_project, is_failure_inbox, resource_visible_for_project,
}
use perseval.Workbench.Tabs.Lookup.{find-some, find-none, find-any}
use perseval.Workbench.Model.Valid.{IsValid, Keyed, append-IsValid}
use perseval.Workbench.Scope.{
  ensure_failure_inbox_editor, settle_active, restore_editor, enter_project, enter_scope,
  save_context, switch_scope, active_is_scope_independent, context_editor_open, fits_context,
}
use perseval.Workbench.State.{
  EditorTabState, EditorId, EditorResource, WorkbenchStateV1, ProjectContextState, QueryScope,
  ProjectScope, stable_key,
}

-- Only the inbox has the key of the inbox.
stable_key-inbox :
    (resource : EditorResource)
    → stable_key resource ≡ "failure-inbox"
    → is_failure_inbox resource ≡ true
unfolding stable_key is_failure_inbox
stable_key-inbox EditorResource.failure_inbox e = refl
stable_key-inbox EditorResource.welcome e =
    let codes : ◌≡◌ {A = ℕ} 119 102 = ap (code_at 0) e in absurd (omega (arith, codes))
stable_key-inbox EditorResource.runs e =
    let codes : ◌≡◌ {A = ℕ} 114 102 = ap (code_at 0) e in absurd (omega (arith, codes))
stable_key-inbox EditorResource.sources e =
    let codes : ◌≡◌ {A = ℕ} 115 102 = ap (code_at 0) e in absurd (omega (arith, codes))
stable_key-inbox EditorResource.evaluator_studio e =
    let codes : ◌≡◌ {A = ℕ} 101 102 = ap (code_at 0) e in absurd (omega (arith, codes))
stable_key-inbox EditorResource.human_review_queue e =
    let codes : ◌≡◌ {A = ℕ} 104 102 = ap (code_at 0) e in absurd (omega (arith, codes))
stable_key-inbox EditorResource.calibration e =
    let codes : ◌≡◌ {A = ℕ} 99 102 = ap (code_at 0) e in absurd (omega (arith, codes))
stable_key-inbox EditorResource.eval_queue e =
    let codes : ◌≡◌ {A = ℕ} 101 102 = ap (code_at 0) e in absurd (omega (arith, codes))
stable_key-inbox EditorResource.compare_setup e =
    let codes : ◌≡◌ {A = ℕ} 99 102 = ap (code_at 0) e in absurd (omega (arith, codes))
stable_key-inbox EditorResource.settings e =
    let codes : ◌≡◌ {A = ℕ} 115 102 = ap (code_at 0) e in absurd (omega (arith, codes))
stable_key-inbox (EditorResource.failure_investigation _ _) e =
    let differ =
      rw
        (
          cons-append, cons-append, cons-append, cons-append, cons-append, cons-append, cons-append,
          cons-append, cons-append, cons-append, cons-append,
        )
        at e in
    let codes : ◌≡◌ {A = ℕ} 118 98 = ap (code_at 10) differ in absurd (omega (arith, codes))
stable_key-inbox (EditorResource.full_trace _ _ _ _ _) e =
    let differ = rw (cons-append, cons-append) at e in
    let codes : ◌≡◌ {A = ℕ} 117 97 = ap (code_at 1) differ in absurd (omega (arith, codes))
stable_key-inbox (EditorResource.eval_review _ _) e =
    let differ = rw (cons-append) at e in
    let codes : ◌≡◌ {A = ℕ} 101 102 = ap (code_at 0) differ in absurd (omega (arith, codes))
stable_key-inbox (EditorResource.compare _ _) e =
    let differ = rw (cons-append) at e in
    let codes : ◌≡◌ {A = ℕ} 99 102 = ap (code_at 0) differ in absurd (omega (arith, codes))

no_inbox :
    (editors : List EditorTabState)
    → Keyed editors
    → All (λ tab. is_failure_inbox tab.resource ≡ false) editors
    → contains text_dec "failure-inbox" (ids editors) ≡ false
unfolding contains
no_inbox [] k a = refl
no_inbox (tab ∷ editors) k a = elim (text_dec tab.id "failure-inbox") [
  | yes p ↦ let inbox = stable_key-inbox tab.resource (sym k.0 ∙ p) in absurd (ground arith)
  | no p ↦ ground (arith, no_inbox editors k.1 a.1)
]

ensure-IsValid :
    (editors : List EditorTabState)
    → Keyed editors
    → Distinct text_dec (ids editors)
    → IsValid (ensure_failure_inbox_editor editors).0 (some (ensure_failure_inbox_editor editors).1)
unfolding ensure_failure_inbox_editor
ensure-IsValid editors k d =
    elim (Option-cases (find (λ tab. is_failure_inbox tab.resource) editors)) [
      | inr (tab, e) ↦
          rw (e, ensure_failure_inbox_editor)
            (record {
              keyed = k;
              distinct = d;
              listed = λ id q.
                  ground
                    (arith, (find-some (λ tab. is_failure_inbox tab.resource) editors tab e).1);
            })
      | inl e ↦
          rw (e, ensure_failure_inbox_editor)
            (append-IsValid editors EditorResource.failure_inbox false k d (
              unfold stable_key in
              no_inbox editors k (find-none (λ tab. is_failure_inbox tab.resource) editors e)))
    ]

context_open-listed :
    (active : Option EditorId) (project_id : String) (editors : List EditorTabState)
    → context_editor_open active project_id editors ≡ true
    → (id : EditorId) → active ≡ some id
    → contains text_dec id (ids editors) ≡ true
unfolding context_editor_open
context_open-listed none project_id editors h id e = cc
context_open-listed (some active) project_id editors h id e =
    let (tab, f) =
      find-any (λ tab. has_id active tab && resource_visible_for_project tab.resource project_id)
        editors h in
    let (p, m) =
      find-some (λ tab. has_id active tab && resource_visible_for_project tab.resource project_id)
        editors tab f in
    ground arith

module _ {Size Preferences Onboarding Appearance : Type 0} where
  abbrev Valid : WorkbenchStateV1 Size Preferences Onboarding Appearance → Type 0
  Valid s = IsValid s.editors s.active_editor

  settle-Valid :
      (s : WorkbenchStateV1 Size Preferences Onboarding Appearance)
      → Valid s
      → Valid (settle_active s)
  unfolding settle_active
  settle-Valid s v = elim (Bool-cases (active_is_scope_independent s.active_editor s.editors)) [
    | inl h ↦ rw (h, settle_active) v
    | inr h ↦ rw (h, settle_active) (ensure-IsValid s.editors v.keyed v.distinct)
  ]

  restore_editor-Valid :
      (project_id : String) (context : ProjectContextState Size)
      (s : WorkbenchStateV1 Size Preferences Onboarding Appearance)
      → Valid s
      → Valid (restore_editor project_id context s)
  unfolding restore_editor
  restore_editor-Valid project_id context s v =
      let test = fits_context context.active_activity project_id in
      elim (Bool-cases (context_editor_open context.active_editor project_id s.editors)) [
        | inl h ↦
            rw (h, restore_editor)
              (record {
                keyed = v.keyed;
                distinct = v.distinct;
                listed = context_open-listed context.active_editor project_id s.editors h;
              })
        | inr h ↦
            rw (h, restore_editor)
              (elim (Option-cases (find test s.editors)) [
                | inr (tab, e) ↦ rw e (record {
                  keyed = v.keyed;
                  distinct = v.distinct;
                  listed = λ id q. ground (arith, (find-some test s.editors tab e).1);
                })
                | inl e ↦ rw e (ensure-IsValid s.editors v.keyed v.distinct)
              ])
      ]

  enter_project-Valid :
      (project_id : String) (context : Option (ProjectContextState Size))
      (s : WorkbenchStateV1 Size Preferences Onboarding Appearance)
      → Valid s
      → Valid (enter_project project_id context s)
  unfolding enter_project
  enter_project-Valid project_id (some context) s v =
      restore_editor-Valid project_id context _
        (record { keyed = v.keyed; distinct = v.distinct; listed = v.listed })
  enter_project-Valid project_id none s v =
      settle-Valid _ (record { keyed = v.keyed; distinct = v.distinct; listed = v.listed })

  enter_scope-Valid :
      (scope : ProjectScope) (s : WorkbenchStateV1 Size Preferences Onboarding Appearance)
      → Valid s
      → Valid (enter_scope scope s)
  unfolding enter_scope
  enter_scope-Valid ProjectScope.all_projects s v =
      settle-Valid _ (record { keyed = v.keyed; distinct = v.distinct; listed = v.listed })
  enter_scope-Valid (ProjectScope.project project_id) s v =
      enter_project-Valid project_id (get text_dec project_id s.project_contexts) s v

  save_context-Valid :
      (s : WorkbenchStateV1 Size Preferences Onboarding Appearance)
      → Valid s
      → Valid (save_context s)
  unfolding save_context
  save_context-Valid s v = record { keyed = v.keyed; distinct = v.distinct; listed = v.listed }

  pub switch_scope-IsValid :
      (requested : QueryScope) (s : WorkbenchStateV1 Size Preferences Onboarding Appearance)
      → Valid s
      → Valid (switch_scope requested s)
  unfolding switch_scope
  switch_scope-IsValid requested s v =
      elim (Bool-cases (same_project s.scope.project requested.project)) [
        | inl h ↦
            rw (h, switch_scope)
              (record { keyed = v.keyed; distinct = v.distinct; listed = v.listed })
        | inr h ↦
            rw (h, switch_scope)
              (enter_scope-Valid requested.project (save_context s) (save_context-Valid s v))
      ]
