-- ===== src/Workbench/Tabs.antt =====
-- The tests and lookups on tabs that apps/perseval-app/src/workbench/model.rs repeats.
pub mod Lookup
use Prim.Native.String.{String}
use perseval.Base.{
  List, [], ◌∷◌, Option, none, some, Bool, true, false, ℕ, text_dec, ite, map, if◌then◌else◌,
}
use perseval.Workbench.State.{
  EditorTabState, EditorResource, EditorId, ActivityId, FocusRegion, PaneId, ProjectScope,
}

-- `==` on texts and ids.
abbrev pub same_text : String → String → Bool
same_text a b = ite (text_dec a b) true false

abbrev pub has_id : EditorId → EditorTabState → Bool
has_id id tab = same_text tab.id id

abbrev pub ids : List EditorTabState → List EditorId
ids = map (λ tab. tab.id)

-- `iter_mut().find(…)` with a change of what it finds.
unfoldable pub update_first :
    (EditorTabState → Bool)
    → (EditorTabState → EditorTabState)
    → List EditorTabState
    → List EditorTabState
update_first found change [] = []
update_first found change (tab ∷ tabs) =
    let rest = update_first found change tabs in if found tab then change tab ∷ tabs else tab ∷ rest

unfoldable pub resource_project_id : EditorResource → Option String
resource_project_id (EditorResource.failure_investigation project_id _) = some project_id
resource_project_id (EditorResource.full_trace project_id _ _ _ _) = some project_id
resource_project_id (EditorResource.eval_review project_id _) = some project_id
resource_project_id (EditorResource.compare project_id _) = some project_id
resource_project_id _ = none

-- `resource_project_id(resource).is_none_or(…)`
unfoldable pub project_allowed : (String → Bool) → EditorResource → Bool
unfolding resource_project_id
project_allowed valid resource = elim (resource_project_id resource) [
  | none ↦ true
  | some project_id ↦ valid project_id
]

unfoldable pub resource_visible_for_project : EditorResource → String → Bool
unfolding project_allowed
resource_visible_for_project resource project_id =
    project_allowed (λ p. same_text p project_id) resource

unfoldable pub is_failure_inbox : EditorResource → Bool
is_failure_inbox EditorResource.failure_inbox = true
is_failure_inbox _ = false

unfoldable pub activity_index : ActivityId → ℕ
activity_index ActivityId.failures = 0
activity_index ActivityId.runs = 1
activity_index ActivityId.compare = 2
activity_index ActivityId.evals = 3
activity_index ActivityId.sources = 4
activity_index ActivityId.settings = 5

unfoldable pub same_project : ProjectScope → ProjectScope → Bool
same_project ProjectScope.all_projects ProjectScope.all_projects = true
same_project (ProjectScope.project p) (ProjectScope.project q) = same_text p q
same_project _ _ = false

unfoldable pub pane_focus : PaneId → FocusRegion
pane_focus PaneId.primary_sidebar = FocusRegion.primary_sidebar
pane_focus PaneId.inspector = FocusRegion.inspector
pane_focus PaneId.bottom_panel = FocusRegion.bottom_panel

unfoldable pub focus_index : FocusRegion → ℕ
focus_index FocusRegion.activity_rail = 0
focus_index FocusRegion.primary_sidebar = 1
focus_index FocusRegion.editor_tabs = 2
focus_index FocusRegion.editor = 3
focus_index FocusRegion.inspector = 4
focus_index FocusRegion.bottom_panel = 5
focus_index FocusRegion.status_bar = 6
