-- ===== src/Workbench/Restore.antt =====
-- `WorkbenchModel::restore` of apps/perseval-app/src/workbench/model.rs: the state that was saved,
-- adapted to the projects that still exist.
pub mod Correct
use Prim.Native.String.{String, ◌++◌ as append}
use perseval.Base.{
  List, [], ◌∷◌, Option, none, some, Bool, false, map, if◌then◌else◌, any, retain, contains,
  text_dec, not, ◌||◌,
}
use perseval.Workbench.Panes.{Platform, default_panes}
use perseval.Workbench.Tabs.{same_text, has_id, ids, update_first, project_allowed}
use perseval.Workbench.Scope.{active_tab}
use perseval.Workbench.Model.{is_active, last_id}
use perseval.Workbench.State.{
  EditorTabState, EditorId, EditorResource, ActivityId, FocusRegion, ProjectScope, default_scope,
  ProjectContextState, WorkbenchStateV1, new_tab, kind, activity, is_activity_destination,
}

-- The tabs that stay: those of a project that exists, and of the destinations the active one only,
-- which is not pinned.
unfoldable pub restored_tabs :
    List String → Option EditorId → List EditorTabState → List EditorTabState
unfolding project_allowed is_activity_destination update_first
restored_tabs valid_project_ids active editors =
    let of_projects =
      retain (λ tab. project_allowed (λ p. contains text_dec p valid_project_ids) tab.resource)
        editors in
    let kept =
      retain (λ tab. not (is_activity_destination tab.resource) || is_active tab.id active)
        of_projects in
    elim active [
      | none ↦ kept
      | some id ↦
          update_first (has_id id)
            (λ tab. record tab {
              pinned = if is_activity_destination tab.resource then false else tab.pinned;
            })
            kept
    ]

-- Whether a scope key is for all projects or for one that exists.
unfoldable pub scope_key_valid : List String → String → Bool
scope_key_valid valid_project_ids scope_key =
    same_text scope_key "all-projects"
    || any (λ project_id. same_text scope_key (append "project:" project_id)) valid_project_ids

unfoldable pub scope_missing : List String → ProjectScope → Bool
scope_missing valid_project_ids ProjectScope.all_projects = false
scope_missing valid_project_ids (ProjectScope.project project_id) =
    not (contains text_dec project_id valid_project_ids)

-- `valid_editor_ids` decides whether a context keeps its active editor.
unfoldable pub restored_editor : List EditorId → Option EditorId → Option EditorId
restored_editor valid_editor_ids none = none
restored_editor valid_editor_ids (some id) =
    if contains text_dec id valid_editor_ids then some id else none

unfoldable pub restored_contexts :
    {Size : Type 0}
    → List String
    → List EditorId
    → List (String × ProjectContextState Size)
    → List (String × ProjectContextState Size)
unfolding restored_editor
restored_contexts valid_project_ids valid_editor_ids contexts =
    map
      (λ entry. (
        entry.0,
        record entry.1 { active_editor = restored_editor valid_editor_ids entry.1.active_editor },
      ))
      (retain (λ entry. contains text_dec entry.0 valid_project_ids) contexts)

-- The active editor where it is open, else the last tab.
unfoldable pub valid_active : Option EditorId → List EditorTabState → Option EditorId
valid_active none editors = last_id editors
valid_active (some id) editors = if any (has_id id) editors then some id else last_id editors

-- The activity follows the active tab where there is one.
unfoldable pub follow_activity : Option EditorId → List EditorTabState → ActivityId → ActivityId
unfolding kind activity
follow_activity active editors current = elim (active_tab active editors) [
  | none ↦ current
  | some tab ↦ activity (kind tab.resource)
]

module _ {Size Preferences Onboarding Appearance : Type 0}
    (platform : Platform Size Onboarding Appearance) where
  -- `WorkbenchModel::with_initial_editor`
  unfoldable pub with_initial_editor :
      EditorResource → WorkbenchStateV1 Size Preferences Onboarding Appearance
  unfolding kind activity is_activity_destination default_panes
  with_initial_editor resource =
      let tab = new_tab resource (not (is_activity_destination resource)) in
      record {
        schema_version = 1;
        active_activity = activity (kind resource);
        editors = tab ∷ [];
        active_editor = some tab.id;
        panes = default_panes platform;
        scope = default_scope;
        onboarding = platform.default_onboarding;
        failure_group_ids = [];
        project_contexts = [];
        failure_inbox_preferences = [];
        inspector_auto_open_suppressed = false;
        appearance = platform.default_appearance;
        focus = FocusRegion.editor;
      }

  -- What `restore` makes of the saved state, before it looks whether a tab is left.
  unfoldable pub adapted :
      List String
      → WorkbenchStateV1 Size Preferences Onboarding Appearance
      → WorkbenchStateV1 Size Preferences Onboarding Appearance
  unfolding restored_tabs scope_missing restored_contexts scope_key_valid
  adapted valid_project_ids s =
      let editors = restored_tabs valid_project_ids s.active_editor s.editors in
      let missing = scope_missing valid_project_ids s.scope.project in
      record s {
        editors = editors;
        scope = if missing then default_scope else s.scope;
        failure_group_ids = if missing then [] else s.failure_group_ids;
        project_contexts = restored_contexts valid_project_ids (ids editors) s.project_contexts;
        failure_inbox_preferences =
            retain (λ entry. scope_key_valid valid_project_ids entry.0) s.failure_inbox_preferences;
      }

  unfoldable pub finish_restore :
      EditorResource
      → WorkbenchStateV1 Size Preferences Onboarding Appearance
      → List EditorTabState
      → WorkbenchStateV1 Size Preferences Onboarding Appearance
  unfolding with_initial_editor valid_active follow_activity
  finish_restore fallback s [] = with_initial_editor fallback
  finish_restore fallback s (tab ∷ tabs) =
      let active = valid_active s.active_editor (tab ∷ tabs) in
      record s {
        active_editor = active;
        active_activity = follow_activity active (tab ∷ tabs) s.active_activity;
      }

  unfoldable pub restore :
      WorkbenchStateV1 Size Preferences Onboarding Appearance
      → List String
      → EditorResource
      → WorkbenchStateV1 Size Preferences Onboarding Appearance
  unfolding adapted finish_restore
  restore s valid_project_ids fallback =
      let kept = adapted valid_project_ids s in finish_restore fallback kept kept.editors
