-- ===== src/Workbench/Registry/Complete.antt =====
-- The default registry knows every kind of editor.
use perseval.Base.{some, refl, ◌≡◌, get, put, del, text_dec}
use perseval.Workbench.State.{EditorKind, activity}
use perseval.Workbench.Registry.{EditorDescriptor, descriptor, default_registry}

-- The default registry has a descriptor for every kind of editor, which is of that kind and names
-- the kind's own activity.
pub default_registry-descriptor :
    (kind : EditorKind)
    → (d : EditorDescriptor) × (descriptor kind default_registry ≡ some d)
      × (d.kind ≡ kind)
      × (d.activity ≡ activity kind)
unfolding descriptor default_registry get put del text_dec activity
default_registry-descriptor EditorKind.welcome = (_, refl, refl, refl)
default_registry-descriptor EditorKind.failure_inbox = (_, refl, refl, refl)
default_registry-descriptor EditorKind.failure_investigation = (_, refl, refl, refl)
default_registry-descriptor EditorKind.full_trace = (_, refl, refl, refl)
default_registry-descriptor EditorKind.runs = (_, refl, refl, refl)
default_registry-descriptor EditorKind.sources = (_, refl, refl, refl)
default_registry-descriptor EditorKind.eval_review = (_, refl, refl, refl)
default_registry-descriptor EditorKind.compare = (_, refl, refl, refl)
default_registry-descriptor EditorKind.settings = (_, refl, refl, refl)
