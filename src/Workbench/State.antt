-- ===== src/Workbench/State.antt =====
-- The state of the workbench: apps/perseval-app/src/workbench/state.rs, and the actions of
-- actions.rs. A pane's size is an f32 of the target: the type `Size` is a parameter. What the
-- model only stores (onboarding, appearance, the preferences of the inbox) is a parameter too.
use Prim.Native.String.{String, ◌++◌ as append}
use text.Mathlib.Text.{◌==◌ as str_eq}
use perseval.Base.{ℕ, List, Option, none, some, Bool, true, false, decimal, if◌then◌else◌, ◌-◌, ◌*◌}

pub data ActivityId : Type 0 where
  failures runs compare evals sources settings : ActivityId

pub data EditorKind : Type 0 where
  welcome failure_inbox failure_investigation full_trace runs sources eval_review compare settings :
      EditorKind

unfoldable pub activity : EditorKind → ActivityId
activity EditorKind.welcome = ActivityId.sources
activity EditorKind.sources = ActivityId.sources
activity EditorKind.failure_inbox = ActivityId.failures
activity EditorKind.failure_investigation = ActivityId.failures
activity EditorKind.full_trace = ActivityId.runs
activity EditorKind.runs = ActivityId.runs
activity EditorKind.eval_review = ActivityId.evals
activity EditorKind.compare = ActivityId.compare
activity EditorKind.settings = ActivityId.settings

pub data FullTraceOrigin : Type 0 where
  runs : FullTraceOrigin
  failure_investigation : String → String → Option String → ℕ → Option String → FullTraceOrigin

pub data EditorResource : Type 0 where
  welcome failure_inbox : EditorResource
  -- The project and the group.
  failure_investigation : String → String → EditorResource
  -- The project, the logical trace, the revision, the origin and the selected span.
  full_trace : String → String → ℕ → FullTraceOrigin → Option String → EditorResource
  runs sources evaluator_studio human_review_queue calibration eval_queue : EditorResource
  -- The project and the candidate.
  eval_review : String → String → EditorResource
  compare_setup : EditorResource
  -- The project and the comparison.
  compare : String → String → EditorResource
  settings : EditorResource

unfoldable pub is_activity_destination : EditorResource → Bool
is_activity_destination (EditorResource.failure_investigation _ _) = false
is_activity_destination (EditorResource.full_trace _ _ _ _ _) = false
is_activity_destination (EditorResource.eval_review _ _) = false
is_activity_destination (EditorResource.compare _ _) = false
is_activity_destination _ = true

unfoldable pub kind : EditorResource → EditorKind
kind EditorResource.welcome = EditorKind.welcome
kind EditorResource.failure_inbox = EditorKind.failure_inbox
kind (EditorResource.failure_investigation _ _) = EditorKind.failure_investigation
kind (EditorResource.full_trace _ _ _ _ _) = EditorKind.full_trace
kind EditorResource.runs = EditorKind.runs
kind EditorResource.sources = EditorKind.sources
kind EditorResource.evaluator_studio = EditorKind.eval_review
kind EditorResource.human_review_queue = EditorKind.eval_review
kind EditorResource.calibration = EditorKind.eval_review
kind EditorResource.eval_queue = EditorKind.eval_review
kind (EditorResource.eval_review _ _) = EditorKind.eval_review
kind EditorResource.compare_setup = EditorKind.compare
kind (EditorResource.compare _ _) = EditorKind.compare
kind EditorResource.settings = EditorKind.settings

-- The two parts of a key behind its prefix, as `format!` puts them together.
abbrev pub joined : String → String → String
joined a b = append a (append ":" b)

-- A revision is a u64 of at most twenty digits.
unfoldable pub stable_key : EditorResource → String
stable_key EditorResource.welcome = "welcome"
stable_key EditorResource.failure_inbox = "failure-inbox"
stable_key (EditorResource.failure_investigation project_id group_id) =
    joined "failure-investigation" (joined project_id group_id)
stable_key (EditorResource.full_trace project_id logical_trace_id revision _ _) =
    joined "full-trace" (joined project_id (joined logical_trace_id (decimal 20 revision)))
stable_key EditorResource.runs = "runs"
stable_key EditorResource.sources = "sources"
stable_key EditorResource.evaluator_studio = "evaluator-studio"
stable_key EditorResource.human_review_queue = "human-review-queue"
stable_key EditorResource.calibration = "calibration"
stable_key EditorResource.eval_queue = "eval-queue"
stable_key (EditorResource.eval_review project_id candidate_id) =
    joined "eval-review" (joined project_id candidate_id)
stable_key EditorResource.compare_setup = "compare-setup"
stable_key (EditorResource.compare project_id comparison_id) =
    joined "compare" (joined project_id comparison_id)
stable_key EditorResource.settings = "settings"

-- `EditorId` wraps the key.
abbrev pub EditorId : Type 0
EditorId = String

abbrev pub for_resource : EditorResource → EditorId
for_resource = stable_key

pub record EditorTabState : Type 0 where
  pub id : EditorId
  pub resource : EditorResource
  pub pinned : Bool

-- `EditorTabState::new`
abbrev pub new_tab : EditorResource → Bool → EditorTabState
new_tab resource pinned = record {
  id = for_resource resource;
  resource = resource;
  pinned = pinned;
}

pub record PaneLayout (Size : Type 0) : Type 0 where
  pub primary_sidebar_visible : Bool
  pub inspector_visible : Bool
  pub bottom_panel_visible : Bool
  pub primary_sidebar_width : Size
  pub inspector_width : Size
  pub bottom_panel_height : Size

pub data ProjectScope : Type 0 where
  all_projects : ProjectScope
  project : String → ProjectScope

pub record QueryScope : Type 0 where
  pub project : ProjectScope
  pub environment : Option String
  pub build : Option String
  pub session : Option String
  pub time_range : Option String

abbrev pub default_scope : QueryScope
default_scope = record {
  project = all_projects;
  environment = none;
  build = none;
  session = none;
  time_range = none;
}

pub record ProjectContextState (Size : Type 0) : Type 0 where
  pub environment : Option String
  pub build : Option String
  pub session : Option String
  pub time_range : Option String
  pub active_activity : ActivityId
  pub active_editor : Option EditorId
  pub panes : PaneLayout Size

unfoldable pub preference_key : QueryScope → String
preference_key scope = elim scope.project [
  | all_projects ↦ "all-projects"
  | project project_id ↦ append "project:" project_id
]

unfoldable pub allows_mutation : QueryScope → Bool
allows_mutation scope = elim scope.project [ all_projects ↦ false | project _ ↦ true ]

pub data FocusRegion : Type 0 where
  activity_rail primary_sidebar editor_tabs editor inspector bottom_panel status_bar : FocusRegion

pub data PaneId : Type 0 where
  primary_sidebar inspector bottom_panel : PaneId

-- Preferences, Onboarding and Appearance are what the workbench stores without reading it.
pub record WorkbenchStateV1 (Size Preferences Onboarding Appearance : Type 0) : Type 0 where
  pub schema_version : ℕ
  pub active_activity : ActivityId
  pub editors : List EditorTabState
  pub active_editor : Option EditorId
  pub panes : PaneLayout Size
  pub scope : QueryScope
  pub onboarding : Onboarding
  pub failure_group_ids : List String
  pub project_contexts : List (String × ProjectContextState Size)
  pub failure_inbox_preferences : List (String × Preferences)
  pub inspector_auto_open_suppressed : Bool
  pub appearance : Appearance
  pub focus : FocusRegion

pub data WorkbenchAction (Size Preferences Appearance : Type 0) : Type 0 where
  open_editor : EditorResource → Bool → WorkbenchAction Size Preferences Appearance
  activate_editor : EditorId → WorkbenchAction Size Preferences Appearance
  pin_editor : EditorId → WorkbenchAction Size Preferences Appearance
  unpin_editor : EditorId → WorkbenchAction Size Preferences Appearance
  close_editor : EditorId → WorkbenchAction Size Preferences Appearance
  set_pane_visible : PaneId → Bool → WorkbenchAction Size Preferences Appearance
  resize_pane : PaneId → Size → WorkbenchAction Size Preferences Appearance
  set_scope : QueryScope → WorkbenchAction Size Preferences Appearance
  set_focus : FocusRegion → WorkbenchAction Size Preferences Appearance
  toggle_failure_group : String → WorkbenchAction Size Preferences Appearance
  clear_bulk_selection : WorkbenchAction Size Preferences Appearance
  set_failure_inbox_preferences : String → Preferences → WorkbenchAction Size Preferences Appearance
  set_inspector_auto_open_suppressed : Bool → WorkbenchAction Size Preferences Appearance
  update_active_full_trace_selection : Option String → WorkbenchAction Size Preferences Appearance
  set_appearance : Appearance → WorkbenchAction Size Preferences Appearance
  reset_layout : WorkbenchAction Size Preferences Appearance

-- `started_after_unix_nano`, for the three ranges that have a meaning.
unfoldable pub range_seconds : String → Option ℕ
range_seconds range =
    if str_eq range "last_hour"
    then some 3600
    else if str_eq range "last_day"
    then some 86400
    else if str_eq range "last_week"
    then some 604800
    else none

unfoldable pub started_after_unix_nano : QueryScope → ℕ → Option ℕ
unfolding range_seconds
started_after_unix_nano scope now = elim scope.time_range [
  | none ↦ none
  | some range ↦ elim (range_seconds range) [
    | none ↦ none
    | some seconds ↦ some (now - seconds * 1000000000)
  ]
]
