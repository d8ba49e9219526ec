-- ===== src/Workbench/Restore/Correct.antt =====
-- What a restored workbench is sure of.
use Prim.Native.String.{String}
use perseval.Base.{
  List, [], ◌∷◌, Option, none, some, true, find, any, contains, text_dec, All, inl, inr, refl,
  arith, Bool-cases, ◌≡◌, ◌∙◌, not,
}
use perseval.Workbench.Panes.{Platform}
use perseval.Workbench.Tabs.{has_id, project_allowed}
use perseval.Workbench.Tabs.Lookup.{find-any, any-has_id, All-update_first, All-retain, retain-All}
use perseval.Workbench.Model.{last_id}
use perseval.Workbench.Model.Keeps.{last_id-listed}
use perseval.Workbench.Scope.{active_tab}
use perseval.Workbench.Restore.{
  restored_tabs, adapted, finish_restore, with_initial_editor, valid_active, follow_activity,
  restore, new_tab, is_activity_destination,
}
use perseval.Workbench.State.{
  EditorTabState, EditorId, EditorResource, WorkbenchStateV1, ActivityId, kind, activity,
}

abbrev pub Allowed : List String → EditorTabState → Type 0
Allowed valid_project_ids tab =
    project_allowed (λ p. contains text_dec p valid_project_ids) tab.resource ≡ true

restored_tabs-Allowed :
    (valid_project_ids : List String) (active : Option EditorId) (editors : List EditorTabState)
    → All (Allowed valid_project_ids) (restored_tabs valid_project_ids active editors)
unfolding restored_tabs
restored_tabs-Allowed valid_project_ids none editors =
    All-retain (Allowed valid_project_ids) _ _ (retain-All _ editors)
restored_tabs-Allowed valid_project_ids (some id) editors =
    All-update_first (Allowed valid_project_ids) (has_id id) _ _ (λ t h a. a)
      (All-retain (Allowed valid_project_ids) _ _ (retain-All _ editors))

last_id-some :
    (tab : EditorTabState) (tabs : List EditorTabState)
    → (id : EditorId) × (last_id (tab ∷ tabs) ≡ some id)
last_id-some tab [] = (tab.id, refl)
last_id-some tab (next ∷ tabs) = last_id-some next tabs

-- In a list that is not empty there is an active tab.
valid_active-open :
    (active : Option EditorId) (tab : EditorTabState) (tabs : List EditorTabState)
    → (id : EditorId) × (valid_active active (tab ∷ tabs) ≡ some id)
      × (any (has_id id) (tab ∷ tabs) ≡ true)
unfolding valid_active
valid_active-open none tab tabs =
    let (id, e) = last_id-some tab tabs in
    (id, e, any-has_id id (tab ∷ tabs) ∙ last_id-listed (tab ∷ tabs) id e)
valid_active-open (some active) tab tabs = elim (Bool-cases (any (has_id active) (tab ∷ tabs))) [
  | inl h ↦ (active, rw h refl, h)
  | inr h ↦
      let (id, e) = last_id-some tab tabs in
      (id, rw h e, any-has_id id (tab ∷ tabs) ∙ last_id-listed (tab ∷ tabs) id e)
]

follow-found :
    (id : EditorId) (found tab : EditorTabState) (tabs : List EditorTabState) (current : ActivityId)
    → find (has_id id) (tab ∷ tabs) ≡ some found
    → follow_activity (some id) (tab ∷ tabs) current ≡ activity (kind found.resource)
unfolding follow_activity
follow-found id found tab tabs current f = rw (f, follow_activity) refl

module _ {Size Preferences Onboarding Appearance : Type 0}
    (platform : Platform Size Onboarding Appearance) where
  -- The active editor of a state is one of its tabs, the activity is that tab's, and the tabs belong
  -- to the projects that are given.
  pub record Restored (valid_project_ids : List String)
      (s : WorkbenchStateV1 Size Preferences Onboarding Appearance) : Type 0 where
    pub tab : EditorTabState
    pub active : active_tab s.active_editor s.editors ≡ some tab
    pub follows : s.active_activity ≡ activity (kind tab.resource)
    pub allowed : All (Allowed valid_project_ids) s.editors

  initial-Restored :
      (valid_project_ids : List String) (fallback : EditorResource)
      → project_allowed (λ p. contains text_dec p valid_project_ids) fallback ≡ true
      → Restored valid_project_ids (with_initial_editor platform fallback)
  unfolding with_initial_editor find
  initial-Restored valid_project_ids fallback ok = record {
    tab = new_tab fallback (not (is_activity_destination fallback));
    active = ground arith;
    follows = refl;
    allowed = (ok, tt);
  }

  finish-Restored :
      (valid_project_ids : List String) (fallback : EditorResource)
      (s : WorkbenchStateV1 Size Preferences Onboarding Appearance) (editors : List EditorTabState)
      → s.editors ≡ editors
      → All (Allowed valid_project_ids) editors
      → project_allowed (λ p. contains text_dec p valid_project_ids) fallback ≡ true
      → Restored valid_project_ids (finish_restore platform fallback s editors)
  unfolding finish_restore follow_activity
  finish-Restored valid_project_ids fallback s [] e a ok =
      initial-Restored valid_project_ids fallback ok
  finish-Restored valid_project_ids fallback s (tab ∷ tabs) e a ok =
      let (id, chosen, there) = valid_active-open s.active_editor tab tabs in
      let (found, f) = find-any (has_id id) (tab ∷ tabs) there in
      record {
        tab = found;
        active = rw (e, chosen) f;
        follows = rw chosen (follow-found id found tab tabs s.active_activity f);
        allowed = rw e a;
      }

  -- A restored workbench has an active editor that is open, the activity is that editor's, and no
  -- editor of a project that is gone is left, whatever state was saved; if the fallback belongs to
  -- no project that is gone.
  pub restore-Restored :
      (s : WorkbenchStateV1 Size Preferences Onboarding Appearance)
      (valid_project_ids : List String) (fallback : EditorResource)
      → project_allowed (λ p. contains text_dec p valid_project_ids) fallback ≡ true
      → Restored valid_project_ids (restore platform s valid_project_ids fallback)
  unfolding restore adapted
  restore-Restored s valid_project_ids fallback ok =
      finish-Restored valid_project_ids fallback (adapted platform valid_project_ids s) _ refl
        (restored_tabs-Allowed valid_project_ids s.active_editor s.editors) ok
