-- ===== src/Workbench/Model.antt =====
-- `WorkbenchModel::apply` of apps/perseval-app/src/workbench/model.rs.
pub mod Valid
pub mod Keeps
use Prim.Native.String.{String}
use perseval.Base.{
  List, [], ◌∷◌, ◌++◌, Option, none, some, Bool, true, false, text_dec, if◌then◌else◌, find, retain,
  put, last?, not, ◌&&◌, ◌||◌, ◌==◌, contains, discard, include,
}
use perseval.Workbench.Panes.{Platform, default_panes, show_pane, size_pane}
use perseval.Workbench.Tabs.{same_text, has_id, update_first, pane_focus, focus_index}
use perseval.Workbench.Scope.{switch_scope}
use perseval.Workbench.State.{
  EditorTabState, EditorId, EditorResource, FocusRegion, PaneId, WorkbenchStateV1, WorkbenchAction,
  new_tab, for_resource, kind, activity,
}

-- `EditorResource::FullTrace { selected_span_id, .. }` gets the span; other resources stay.
unfoldable pub select_span : Option String → EditorResource → EditorResource
select_span span (EditorResource.full_trace project trace revision origin _) =
    EditorResource.full_trace project trace revision origin span
select_span span resource = resource

-- The list of tabs after `OpenEditor`.
unfoldable pub opened : EditorResource → Bool → List EditorTabState → List EditorTabState
unfolding update_first
opened resource pinned editors = elim (find (has_id (for_resource resource)) editors) [
  | some _ ↦
      update_first (has_id (for_resource resource))
        (λ tab. record tab { pinned = tab.pinned || pinned; resource = resource }) editors
  | none ↦
      if pinned
      then editors ++ new_tab resource pinned ∷ []
      else elim (find (λ tab. not tab.pinned) editors) [
        | some _ ↦ update_first (λ tab. not tab.pinned) (λ _. new_tab resource false) editors
        | none ↦ editors ++ new_tab resource false ∷ []
      ]
]

unfoldable pub toggle_group : String → List String → List String
toggle_group group_id groups =
    if contains text_dec group_id groups
    then discard text_dec group_id groups
    else include text_dec group_id groups

abbrev pub last_id : List EditorTabState → Option EditorId
last_id editors = elim (last? editors) [ none ↦ none | some tab ↦ some tab.id ]

-- `self.state.active_editor.as_ref() == Some(&id)`
abbrev pub is_active : EditorId → Option EditorId → Bool
is_active id none = false
is_active id (some active) = same_text active id

module _ {Size Preferences Onboarding Appearance : Type 0}
    (platform : Platform Size Onboarding Appearance) where
  unfoldable pub activate :
      EditorId
      → WorkbenchStateV1 Size Preferences Onboarding Appearance
      → WorkbenchStateV1 Size Preferences Onboarding Appearance
  activate id s = elim (find (has_id id) s.editors) [
    | none ↦ s
    | some tab ↦ record s {
      active_activity = activity (kind tab.resource);
      active_editor = some id;
      focus = FocusRegion.editor;
    }
  ]

  unfoldable pub unpin :
      EditorId
      → WorkbenchStateV1 Size Preferences Onboarding Appearance
      → WorkbenchStateV1 Size Preferences Onboarding Appearance
  unpin id s =
      let kept = retain (λ tab. has_id id tab || tab.pinned) s.editors in
      elim (find (has_id id) kept) [
        | none ↦ record s { editors = kept }
        | some tab ↦ record s {
          editors = update_first (has_id id) (λ tab. record tab { pinned = false }) kept;
          active_activity = activity (kind tab.resource);
          active_editor = some id;
        }
      ]

  unfoldable pub close :
      EditorId
      → WorkbenchStateV1 Size Preferences Onboarding Appearance
      → WorkbenchStateV1 Size Preferences Onboarding Appearance
  close id s =
      let kept = retain (λ tab. not (has_id id tab)) s.editors in
      record s {
        editors = kept;
        active_editor = if is_active id s.active_editor then last_id kept else s.active_editor;
        focus = FocusRegion.editor_tabs;
      }

  unfoldable pub set_visible :
      PaneId
      → Bool
      → WorkbenchStateV1 Size Preferences Onboarding Appearance
      → WorkbenchStateV1 Size Preferences Onboarding Appearance
  unfolding show_pane pane_focus focus_index
  set_visible pane visible s = record s {
    panes = show_pane pane visible s.panes;
    focus =
        if not visible && (focus_index (pane_focus pane) == focus_index s.focus)
        then FocusRegion.editor
        else s.focus;
  }

  unfoldable pub select_active :
      Option String
      → WorkbenchStateV1 Size Preferences Onboarding Appearance
      → WorkbenchStateV1 Size Preferences Onboarding Appearance
  unfolding select_span
  select_active span s = elim s.active_editor [
    | none ↦ s
    | some id ↦ record s {
      editors =
          update_first (has_id id) (λ tab. record tab { resource = select_span span tab.resource })
            s.editors;
    }
  ]

  unfoldable pub apply :
      WorkbenchAction Size Preferences Appearance
      → WorkbenchStateV1 Size Preferences Onboarding Appearance
      → WorkbenchStateV1 Size Preferences Onboarding Appearance
  unfolding opened activate unpin close set_visible size_pane switch_scope toggle_group
      select_active
  apply (WorkbenchAction.open_editor resource pinned) s = record s {
    editors = opened resource pinned s.editors;
    active_activity = activity (kind resource);
    active_editor = some (for_resource resource);
    focus = FocusRegion.editor;
  }
  apply (WorkbenchAction.activate_editor id) s = activate id s
  apply (WorkbenchAction.pin_editor id) s = record s {
    editors = update_first (has_id id) (λ tab. record tab { pinned = true }) s.editors;
  }
  apply (WorkbenchAction.unpin_editor id) s = unpin id s
  apply (WorkbenchAction.close_editor id) s = close id s
  apply (WorkbenchAction.set_pane_visible pane visible) s = set_visible pane visible s
  apply (WorkbenchAction.resize_pane pane size) s = record s {
    panes = size_pane platform pane size s.panes;
  }
  apply (WorkbenchAction.set_scope scope) s = record (switch_scope scope s) {
    failure_group_ids = [];
  }
  apply (WorkbenchAction.set_focus focus) s = record s { focus = focus }
  apply (WorkbenchAction.toggle_failure_group group_id) s = record s {
    failure_group_ids = toggle_group group_id s.failure_group_ids;
  }
  apply WorkbenchAction.clear_bulk_selection s = record s { failure_group_ids = [] }
  apply (WorkbenchAction.set_failure_inbox_preferences scope_key preferences) s = record s {
    failure_inbox_preferences = put text_dec scope_key preferences s.failure_inbox_preferences;
  }
  apply (WorkbenchAction.set_inspector_auto_open_suppressed suppressed) s = record s {
    inspector_auto_open_suppressed = suppressed;
  }
  apply (WorkbenchAction.update_active_full_trace_selection span) s = select_active span s
  apply (WorkbenchAction.set_appearance appearance) s = record s { appearance = appearance }
  apply WorkbenchAction.reset_layout s = record s { panes = default_panes platform }
