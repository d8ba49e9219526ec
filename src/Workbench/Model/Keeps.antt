-- ===== src/Workbench/Model/Keeps.antt =====
-- Every action keeps the invariant of the open editors.
use Prim.Native.String.{String}
use mathlib.Core.Path.{sym}
use perseval.Base.{
  List, [], ◌∷◌, Option, some, Bool, true, false, find, retain, contains, text_dec, inl, inr, refl,
  arith, Bool-cases, Option-cases, not, ◌||◌, ◌≡◌, ◌∙◌,
}
use perseval.Workbench.Panes.{Platform}
use perseval.Workbench.Tabs.{has_id, ids, update_first}
use perseval.Workbench.Tabs.Lookup.{
  find-some, ids-update_first, All-update_first, All-retain, retain-Distinct, contains-retain_kept,
  find-any, any-has_id,
}
use perseval.Workbench.Model.{
  activate, unpin, close, select_active, select_span, apply, last_id, is_active,
}
use perseval.Workbench.Model.Valid.{IsValid, Key, opened-IsValid, has_id-eq}
use perseval.Workbench.Scope.Valid.{switch_scope-IsValid}
use perseval.Workbench.State.{
  EditorTabState, EditorId, EditorResource, WorkbenchStateV1, WorkbenchAction, stable_key,
}

-- A change of tabs that keeps their ids and keys.
update-IsValid :
    (p : EditorTabState → Bool) (f : EditorTabState → EditorTabState)
    (editors : List EditorTabState) (active : Option EditorId)
    → ((t : EditorTabState) → (f t).id ≡ t.id)
    → ((t : EditorTabState) → Key t → Key (f t))
    → IsValid editors active
    → IsValid (update_first p f editors) active
update-IsValid p f editors active same keys v = record {
  keyed = All-update_first Key p f editors (λ t h k. keys t k) v.keyed;
  distinct = rw (ids-update_first p f editors same) v.distinct;
  listed = λ id e. rw (ids-update_first p f editors same) (v.listed id e);
}

-- The key of a full trace does not name its selected span.
stable_key-select_span :
    (span : Option String) (resource : EditorResource)
    → stable_key (select_span span resource) ≡ stable_key resource
unfolding stable_key select_span
stable_key-select_span span EditorResource.welcome = refl
stable_key-select_span span EditorResource.failure_inbox = refl
stable_key-select_span span (EditorResource.failure_investigation _ _) = refl
stable_key-select_span span (EditorResource.full_trace _ _ _ _ _) = refl
stable_key-select_span span EditorResource.runs = refl
stable_key-select_span span EditorResource.sources = refl
stable_key-select_span span EditorResource.evaluator_studio = refl
stable_key-select_span span EditorResource.human_review_queue = refl
stable_key-select_span span EditorResource.calibration = refl
stable_key-select_span span EditorResource.eval_queue = refl
stable_key-select_span span (EditorResource.eval_review _ _) = refl
stable_key-select_span span EditorResource.compare_setup = refl
stable_key-select_span span (EditorResource.compare _ _) = refl
stable_key-select_span span EditorResource.settings = refl

pub last_id-listed :
    (editors : List EditorTabState) (id : EditorId)
    → last_id editors ≡ some id
    → contains text_dec id (ids editors) ≡ true
unfolding contains
last_id-listed [] id e = cc
last_id-listed (t ∷ []) id e = ground arith
last_id-listed (t ∷ u ∷ tabs) id e = ground (arith, last_id-listed (u ∷ tabs) id)

other_kept :
    (id i : EditorId) (t : EditorTabState)
    → t.id ≡ i
    → is_active id (some i) ≡ false
    → not (has_id id t) ≡ true
other_kept id i t e h = ground arith

-- What is unpinned is open.
abbrev pub unpins_open :
    {Size Preferences Appearance : Type 0}
    → WorkbenchAction Size Preferences Appearance
    → List EditorTabState
    → Bool
unpins_open (WorkbenchAction.unpin_editor id) editors = contains text_dec id (ids editors)
unpins_open _ editors = true

module _ {Size Preferences Onboarding Appearance : Type 0}
    (platform : Platform Size Onboarding Appearance)
    (s : WorkbenchStateV1 Size Preferences Onboarding Appearance)
    (v : IsValid s.editors s.active_editor) where
  activate-IsValid :
      (id : EditorId)
      → IsValid (activate platform id s).editors (activate platform id s).active_editor
  unfolding activate
  activate-IsValid id = elim (Option-cases (find (has_id id) s.editors)) [
    | inl e ↦ rw (e, activate) v
    | inr (tab, e) ↦
        rw (e, activate)
          (record {
            keyed = v.keyed;
            distinct = v.distinct;
            listed = λ i q.
                let (h, m) = find-some (has_id id) s.editors tab e in
                ground (arith, has_id-eq id tab h);
          })
  ]

  close-IsValid :
      (id : EditorId) → IsValid (close platform id s).editors (close platform id s).active_editor
  unfolding close
  close-IsValid id =
      let kept = retain (λ tab. not (has_id id tab)) s.editors in
      record {
        keyed = All-retain Key (λ tab. not (has_id id tab)) s.editors v.keyed;
        distinct = retain-Distinct (λ tab. not (has_id id tab)) s.editors v.distinct;
        listed = λ i q. elim (Bool-cases (is_active id s.active_editor)) [
          | inl h ↦ last_id-listed kept i (rw h at q)
          | inr h ↦ other_listed i (rw h at q) h
        ];
      }
    where
      other_listed :
          (i : EditorId)
          → s.active_editor ≡ some i
          → is_active id s.active_editor ≡ false
          → contains text_dec i (ids (retain (λ tab. not (has_id id tab)) s.editors)) ≡ true
      other_listed i q h =
          contains-retain_kept (λ tab. not (has_id id tab)) i s.editors
            (λ t e. other_kept id i t e (rw q at h))
          ∙ v.listed i q

  unpin-IsValid :
      (id : EditorId)
      → contains text_dec id (ids s.editors) ≡ true
      → IsValid (unpin platform id s).editors (unpin platform id s).active_editor
  unfolding unpin
  unpin-IsValid id here =
      let test : EditorTabState → Bool = λ t. has_id id t || t.pinned in
      let kept = retain test s.editors in
      let there : contains text_dec id (ids kept) ≡ true =
        contains-retain_kept test id s.editors (λ t e. ground arith) ∙ here in
      let (tab, e) = find-any (has_id id) kept (any-has_id id kept ∙ there) in
      rw (e, unpin)
        (update-IsValid (has_id id) (λ t. record t { pinned = false }) kept (some id) (λ t. refl)
          (λ t k. k)
          (record {
            keyed = All-retain Key test s.editors v.keyed;
            distinct = retain-Distinct test s.editors v.distinct;
            listed = λ i q. ground (arith, there);
          }))

  select-IsValid :
      (span : Option String)
      → IsValid
          (select_active platform span s).editors
          (select_active platform span s).active_editor
  unfolding select_active
  select-IsValid span = elim (Option-cases s.active_editor) [
    | inl e ↦ rw (e, select_active) v
    | inr (id, e) ↦
        rw (e, select_active)
          (update-IsValid (has_id id) (λ t. record t { resource = select_span span t.resource })
            s.editors s.active_editor (λ t. refl)
            (λ t k. k ∙ sym (stable_key-select_span span t.resource)) v)
  ]

  -- Every action keeps the tabs keyed by their resources, no id twice, and the active editor open,
  -- if an editor that is unpinned is an open one.
  pub apply-keeps :
      (action : WorkbenchAction Size Preferences Appearance)
      → unpins_open action s.editors ≡ true
      → IsValid (apply platform action s).editors (apply platform action s).active_editor
  unfolding apply
  apply-keeps (WorkbenchAction.open_editor resource pinned) h =
      opened-IsValid resource pinned s.editors v.keyed v.distinct
  apply-keeps (WorkbenchAction.activate_editor id) h = activate-IsValid id
  apply-keeps (WorkbenchAction.pin_editor id) h =
      update-IsValid (has_id id) (λ tab. record tab { pinned = true }) s.editors s.active_editor
        (λ t. refl) (λ t k. k) v
  apply-keeps (WorkbenchAction.unpin_editor id) h = unpin-IsValid id h
  apply-keeps (WorkbenchAction.close_editor id) h = close-IsValid id
  apply-keeps (WorkbenchAction.set_pane_visible pane visible) h = v
  apply-keeps (WorkbenchAction.resize_pane pane size) h = v
  apply-keeps (WorkbenchAction.set_scope scope) h = switch_scope-IsValid scope s v
  apply-keeps (WorkbenchAction.set_focus focus) h = v
  apply-keeps (WorkbenchAction.toggle_failure_group group_id) h = v
  apply-keeps WorkbenchAction.clear_bulk_selection h = v
  apply-keeps (WorkbenchAction.set_failure_inbox_preferences scope_key preferences) h = v
  apply-keeps (WorkbenchAction.set_inspector_auto_open_suppressed suppressed) h = v
  apply-keeps (WorkbenchAction.update_active_full_trace_selection span) h = select-IsValid span
  apply-keeps (WorkbenchAction.set_appearance appearance) h = v
  apply-keeps WorkbenchAction.reset_layout h = v
