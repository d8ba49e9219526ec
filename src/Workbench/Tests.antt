-- ===== src/Workbench/Tests.antt =====
-- Workbenches of two projects.
use Prim.Native.String.{String}
use perseval.Base.{
  ℕ, [], ◌∷◌, some, false, refl, arith, text_dec, contains, find, contains_self, map, min, ◌≡◌, ap,
  max, code_at, none, ◌⊎◌, true, ◌<◌,
}
use perseval.Workbench.State.{
  stable_key, EditorResource, QueryScope, default_scope, ProjectScope, WorkbenchStateV1,
  WorkbenchAction, EditorTabState, new_tab,
}
use perseval.Workbench.Navigation
use perseval.Workbench.Navigation.{
  EditorNavigation, empty_navigation, record_editor, current, back, available_at, remember_closed,
  reopen,
}
use perseval.Workbench.Navigation.Valid.{
  record_editor-current, remember_closed-reopen, back_nearest,
}
use perseval.Workbench.Panes.{Platform}
use perseval.Workbench.Tabs.{project_allowed}
use perseval.Workbench.Model.{apply}
use perseval.Workbench.Model.Valid.{IsValid}
use perseval.Workbench.Model.Keeps.{apply-keeps}
use perseval.Workbench.Scope.{switch_scope}
use perseval.Workbench.Scope.Back.{switch_scope_back}
use perseval.Workbench.Restore.{restore, with_initial_editor}
use perseval.Workbench.Restore.Correct.{Restored, restore-Restored}

abbrev pixels : Platform ℕ Unit Unit
pixels = record {
  pixels = λ n. n;
  clamp = λ size low high. min (max size low) high;
  default_onboarding = tt;
  default_appearance = tt;
}

abbrev inbox : WorkbenchStateV1 ℕ Unit Unit Unit
inbox = with_initial_editor pixels EditorResource.failure_inbox

abbrev runs_action : WorkbenchAction ℕ Unit Unit
runs_action = WorkbenchAction.open_editor EditorResource.runs false

inbox-IsValid : IsValid inbox.editors inbox.active_editor
unfolding with_initial_editor contains
inbox-IsValid = record {
  keyed = (refl, tt);
  distinct = (refl, tt);
  listed = λ id e. ground (arith, contains_self text_dec id []);
}

-- A preview takes the place of another one.
preview_test :
    map (λ tab. tab.resource) (apply pixels runs_action inbox).editors ≡ EditorResource.runs ∷ []
unfolding apply find with_initial_editor text_dec stable_key
preview_test = refl

apply-keeps_example :
    IsValid (apply pixels runs_action inbox).editors (apply pixels runs_action inbox).active_editor
apply-keeps_example = apply-keeps pixels inbox inbox-IsValid runs_action refl

abbrev of_project : String → QueryScope
of_project p = record default_scope { project = ProjectScope.project p; build = some "42" }

abbrev first : WorkbenchStateV1 ℕ Unit Unit Unit
first = record inbox { scope = of_project "first" }

switch_scope_back_example :
    let t = switch_scope (of_project "first") (switch_scope (of_project "second") first) in
    (t.scope ≡ first.scope) × (t.panes ≡ first.panes)
switch_scope_back_example =
    switch_scope_back first "first" "second" (of_project "second") (of_project "first") refl refl
      refl (λ p. names_differ p)
  where
    names_differ : ¬ ◌≡◌ {A = String} "second" "first"
    names_differ p =
        let codes : ◌≡◌ {A = ℕ} 115 102 = ap (code_at 0) p in absurd (omega (arith, codes))

restore-Restored_example :
    Restored pixels ("first" ∷ []) (restore pixels first ("first" ∷ []) EditorResource.runs)
unfolding project_allowed
restore-Restored_example = restore-Restored pixels first ("first" ∷ []) EditorResource.runs refl

abbrev one_entry : EditorNavigation
one_entry = record_editor "runs" empty_navigation

abbrev two_entries : EditorNavigation
two_entries = record_editor "sources" one_entry

abbrev runs_tab : EditorTabState
runs_tab = new_tab EditorResource.runs true

empty-IsValid : Navigation.Valid.IsValid empty_navigation
empty-IsValid = record { inside = λ cursor e. cc; bounded = omega arith }

record_editor-current_example :
    (current one_entry ≡ some "runs") × Navigation.Valid.IsValid one_entry
record_editor-current_example = record_editor-current "runs" empty_navigation empty-IsValid

remember_closed-reopen_example :
    Navigation.Valid.IsValid (remember_closed runs_tab empty_navigation)
    × ((reopen (remember_closed runs_tab empty_navigation)).1 ≡ some runs_tab)
remember_closed-reopen_example = remember_closed-reopen runs_tab empty_navigation empty-IsValid

back_nearest_example :
    let (next, editor) = back ("runs" ∷ []) two_entries in
    ((next ≡ two_entries)
      × (editor ≡ none)
      × ((i : ℕ) → i < 1 → available_at ("runs" ∷ []) two_entries.entries i ≡ false))
    ⊎ ((found : ℕ) × (found < 1)
        × (next ≡ record two_entries { cursor = some found })
        × (editor ≡ current next)
        × (available_at ("runs" ∷ []) two_entries.entries found ≡ true)
        × ((i : ℕ) → found < i → i < 1 → available_at ("runs" ∷ []) two_entries.entries i ≡ false))
unfolding record_editor text_dec
back_nearest_example = back_nearest ("runs" ∷ []) two_entries 1 refl
