-- ===== src/Workbench/Registry.antt =====
-- `EditorRegistry` of apps/perseval-app/src/workbench/editor_registry.rs.
pub mod Complete
use Prim.Native.String.{String}
use perseval.Base.{List, [], ◌∷◌, Option, Bool, true, false, get, put, text_dec}
use perseval.Workbench.State.{ActivityId, EditorKind, activity}

pub record EditorDescriptor : Type 0 where
  pub kind : EditorKind
  pub activity : ActivityId
  pub title : String
  pub previewable : Bool
  pub restorable : Bool

abbrev pub kind_key : EditorKind → String
kind_key EditorKind.welcome = "welcome"
kind_key EditorKind.failure_inbox = "failure_inbox"
kind_key EditorKind.failure_investigation = "failure_investigation"
kind_key EditorKind.full_trace = "full_trace"
kind_key EditorKind.runs = "runs"
kind_key EditorKind.sources = "sources"
kind_key EditorKind.eval_review = "eval_review"
kind_key EditorKind.compare = "compare"
kind_key EditorKind.settings = "settings"

-- `descriptor(kind, title, previewable)`
unfoldable pub new_descriptor : EditorKind → String → Bool → EditorDescriptor
unfolding activity
new_descriptor kind title previewable = record {
  kind = kind;
  activity = activity kind;
  title = title;
  previewable = previewable;
  restorable = true;
}

unfoldable pub default_descriptors : List EditorDescriptor
unfolding new_descriptor
default_descriptors =
    new_descriptor EditorKind.welcome "Welcome" false
    ∷ new_descriptor EditorKind.failure_inbox "Failure Inbox" false
    ∷ new_descriptor EditorKind.failure_investigation "Failure Investigation" true
    ∷ new_descriptor EditorKind.full_trace "Full Trace" true
    ∷ new_descriptor EditorKind.runs "Runs" false
    ∷ new_descriptor EditorKind.sources "Sources" false
    ∷ new_descriptor EditorKind.eval_review "Eval Review" true
    ∷ new_descriptor EditorKind.compare "Compare" true
    ∷ new_descriptor EditorKind.settings "Settings" false
    ∷ []

-- The registry is its map from keys to descriptors.
abbrev pub EditorRegistry : Type 0
EditorRegistry = List (String × EditorDescriptor)

unfoldable pub register : EditorDescriptor → EditorRegistry → EditorRegistry
register descriptor registry = put text_dec (kind_key descriptor.kind) descriptor registry

unfoldable pub register_all : List EditorDescriptor → EditorRegistry → EditorRegistry
unfolding register
register_all [] registry = registry
register_all (descriptor ∷ descriptors) registry =
    register_all descriptors (register descriptor registry)

unfoldable pub default_registry : EditorRegistry
unfolding register_all default_descriptors
default_registry = register_all default_descriptors []

unfoldable pub descriptor : EditorKind → EditorRegistry → Option EditorDescriptor
descriptor kind registry = get text_dec (kind_key kind) registry
