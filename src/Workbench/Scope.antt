-- ===== src/Workbench/Scope.antt =====
-- `switch_scope` and `ensure_failure_inbox_editor` of apps/perseval-app/src/workbench/model.rs.
pub mod Valid
pub mod Back
use Prim.Native.String.{String}
use perseval.Base.{
  List, [], ◌∷◌, ◌++◌, Option, none, some, Bool, true, false, text_dec, if◌then◌else◌, find, any,
  put, get, ◌&&◌, ◌==◌,
}
use perseval.Workbench.Tabs.{
  has_id, resource_project_id, resource_visible_for_project, is_failure_inbox, activity_index,
  same_project,
}
use perseval.Workbench.State.{
  EditorTabState, EditorId, ActivityId, ProjectScope, QueryScope, default_scope,
  ProjectContextState, WorkbenchStateV1, new_tab, kind, activity, EditorResource,
}

-- The editors, and the id of the inbox's tab among them.
unfoldable pub ensure_failure_inbox_editor : List EditorTabState → List EditorTabState × EditorId
unfolding is_failure_inbox
ensure_failure_inbox_editor editors = elim (find (λ tab. is_failure_inbox tab.resource) editors) [
  | some tab ↦ (editors, tab.id)
  | none ↦ let tab = new_tab EditorResource.failure_inbox false in (editors ++ tab ∷ [], tab.id)
]

-- The tab that `active_editor` names.
abbrev pub active_tab : Option EditorId → List EditorTabState → Option EditorTabState
active_tab none editors = none
active_tab (some id) editors = find (has_id id) editors

unfoldable pub active_is_scope_independent : Option EditorId → List EditorTabState → Bool
unfolding resource_project_id
active_is_scope_independent active editors = elim (active_tab active editors) [
  | none ↦ false
  | some tab ↦ elim (resource_project_id tab.resource) [ none ↦ true | some _ ↦ false ]
]

-- The activity of the active tab, else the failures.
unfoldable pub activity_of_active : Option EditorId → List EditorTabState → ActivityId
unfolding kind activity
activity_of_active active editors = elim (active_tab active editors) [
  | none ↦ ActivityId.failures
  | some tab ↦ activity (kind tab.resource)
]

-- `context.active_editor.as_ref().is_some_and(…)`
unfoldable pub context_editor_open : Option EditorId → String → List EditorTabState → Bool
unfolding resource_visible_for_project
context_editor_open none project_id editors = false
context_editor_open (some id) project_id editors =
    any (λ tab. has_id id tab && resource_visible_for_project tab.resource project_id) editors

-- Whether a tab is of the activity, and of the project or of none.
unfoldable pub fits_context : ActivityId → String → EditorTabState → Bool
unfolding kind activity activity_index resource_visible_for_project
fits_context wanted project_id tab =
    (activity_index (activity (kind tab.resource)) == activity_index wanted)
    && resource_visible_for_project tab.resource project_id

module _ {Size Preferences Onboarding Appearance : Type 0} where
  abbrev pub context_of :
      WorkbenchStateV1 Size Preferences Onboarding Appearance → ProjectContextState Size
  context_of s = record {
    environment = s.scope.environment;
    build = s.scope.build;
    session = s.scope.session;
    time_range = s.scope.time_range;
    active_activity = s.active_activity;
    active_editor = s.active_editor;
    panes = s.panes;
  }

  -- The project that is left keeps its context.
  unfoldable pub saved_contexts :
      ProjectScope
      → WorkbenchStateV1 Size Preferences Onboarding Appearance
      → List (String × ProjectContextState Size)
  saved_contexts ProjectScope.all_projects s = s.project_contexts
  saved_contexts (ProjectScope.project project_id) s =
      put text_dec project_id (context_of s) s.project_contexts

  unfoldable pub save_context :
      WorkbenchStateV1 Size Preferences Onboarding Appearance
      → WorkbenchStateV1 Size Preferences Onboarding Appearance
  unfolding saved_contexts
  save_context s = record s { project_contexts = saved_contexts s.scope.project s }

  -- The inbox becomes active unless the active tab belongs to no project.
  unfoldable pub settle_active :
      WorkbenchStateV1 Size Preferences Onboarding Appearance
      → WorkbenchStateV1 Size Preferences Onboarding Appearance
  unfolding ensure_failure_inbox_editor active_is_scope_independent
  settle_active s =
      if active_is_scope_independent s.active_editor s.editors
      then s
      else (let (editors, id) = ensure_failure_inbox_editor s.editors in
          record s {
            editors = editors;
            active_editor = some id;
            active_activity = ActivityId.failures;
          })

  -- The saved editor of a context, where it is still open; else a tab of the context's activity;
  -- else the inbox.
  unfoldable pub restore_editor :
      String
      → ProjectContextState Size
      → WorkbenchStateV1 Size Preferences Onboarding Appearance
      → WorkbenchStateV1 Size Preferences Onboarding Appearance
  unfolding context_editor_open ensure_failure_inbox_editor activity_of_active fits_context
  restore_editor project_id context s =
      if context_editor_open context.active_editor project_id s.editors
      then record s { active_editor = context.active_editor }
      else elim (find (fits_context context.active_activity project_id) s.editors) [
        | some tab ↦ record s {
          active_editor = some tab.id;
          active_activity = activity_of_active (some tab.id) s.editors;
        }
        | none ↦
            let (editors, id) = ensure_failure_inbox_editor s.editors in
            record s {
              editors = editors;
              active_editor = some id;
              active_activity = activity_of_active (some id) editors;
            }
      ]

  -- The scope, the activity and the panes of a context.
  abbrev pub in_context :
      String
      → ProjectContextState Size
      → WorkbenchStateV1 Size Preferences Onboarding Appearance
      → WorkbenchStateV1 Size Preferences Onboarding Appearance
  in_context project_id context s = record s {
    scope = record {
      project = ProjectScope.project project_id;
      environment = context.environment;
      build = context.build;
      session = context.session;
      time_range = context.time_range;
    };
    active_activity = context.active_activity;
    panes = context.panes;
  }

  unfoldable pub enter_project :
      String
      → Option (ProjectContextState Size)
      → WorkbenchStateV1 Size Preferences Onboarding Appearance
      → WorkbenchStateV1 Size Preferences Onboarding Appearance
  unfolding restore_editor settle_active
  enter_project project_id (some context) s =
      restore_editor project_id context (in_context project_id context s)
  enter_project project_id none s =
      settle_active
        (record s { scope = record default_scope { project = ProjectScope.project project_id } })

  unfoldable pub enter_scope :
      ProjectScope
      → WorkbenchStateV1 Size Preferences Onboarding Appearance
      → WorkbenchStateV1 Size Preferences Onboarding Appearance
  unfolding enter_project
  enter_scope ProjectScope.all_projects s = settle_active (record s { scope = default_scope })
  enter_scope (ProjectScope.project project_id) s =
      enter_project project_id (get text_dec project_id s.project_contexts) s

  unfoldable pub switch_scope :
      QueryScope
      → WorkbenchStateV1 Size Preferences Onboarding Appearance
      → WorkbenchStateV1 Size Preferences Onboarding Appearance
  unfolding save_context enter_scope same_project
  switch_scope requested s =
      if same_project s.scope.project requested.project
      then record s { scope = requested }
      else enter_scope requested.project (save_context s)
