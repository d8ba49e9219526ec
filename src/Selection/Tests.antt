-- ===== src/Selection/Tests.antt =====
-- Selections in lists of five.
use perseval.Base.{
  refl, [], ◌∷◌, some, none, true, false, retain, any, text_dec, include, contains, discard, arith,
  ◌<◌, ◌≤◌, ◌↔◌, ◌⊎◌, ◌≡◌, ℕ, ◌+◌,
}
use perseval.Selection.{pos, adjacent_group_index, inclusive_selection_indices}
use perseval.Selection.Groups.{
  FailureInboxState, reconcile_group_identity_state, interact_with_group, extend_to, position,
  select_between, select_range, extend_group_selection, move_group_focus, extend_from,
  toggle_focused_group, toggle_group,
}
use perseval.Selection.Bounds.{inclusive_selection_indices-between}

-- `range_selection_is_inclusive_bounded_and_direction_independent`, its last case.
inclusive_selection_indices-between_example :
    let (first, last) = inclusive_selection_indices 9 2 4 in
    (last < 4)
    × (((first ≤ 3) × (3 ≤ last)) ↔ (
        ((3 < 4) × (((9 ≤ 3) × (3 ≤ 2)) ⊎ ((2 ≤ 3) × (3 ≤ 9))))
        ⊎ ((◌≡◌ {A = ℕ} (3 + 1) 4) × (4 ≤ 9) × (4 ≤ 2))))
inclusive_selection_indices-between_example =
    inclusive_selection_indices-between 9 2 4 3 (omega arith)

abbrev inbox : FailureInboxState
inbox = record {
  groups =
      record { project_id = "project"; group_id = "a" }
      ∷ record { project_id = "project"; group_id = "b" }
      ∷ record { project_id = "project"; group_id = "c" }
      ∷ [];
  focused_group = none;
  selected_group_ids = [];
  selection_anchor = none;
  showing_inbox = true;
  project_filter = some "project";
}

-- `committed_updates_keep_stable_selection_and_drop_only_missing_groups`
reconciled :
    reconcile_group_identity_state
      (("project", "group-b") ∷ ("project", "group-c") ∷ [])
      ("group-a" ∷ "group-b" ∷ "group-c" ∷ [])
      (some ("project", "group-c"))
      (some ("project", "group-b"))
    ≡ (some ("project", "group-b"), "group-b" ∷ "group-c" ∷ [], some ("project", "group-c"))
unfolding reconcile_group_identity_state retain any text_dec
reconciled = refl

-- `resync_never_retargets_focus_to_a_different_group`
not_retargeted :
    reconcile_group_identity_state
      (("project", "group-c") ∷ [])
      ("group-b" ∷ [])
      (some ("project", "group-b"))
      (some ("project", "group-b"))
    ≡ (none, [], none)
unfolding reconcile_group_identity_state retain any text_dec
not_retargeted = refl

-- A click, and one with the shift key on the last group.
range_test :
    (interact_with_group
      ("project", "c")
      true
      false
      false
      (interact_with_group ("project", "b") false true false inbox)).selected_group_ids
    ≡ "c" ∷ "b" ∷ []
unfolding interact_with_group extend_to position select_between select_range text_dec include
    contains inclusive_selection_indices
range_test = refl

-- Down from the first group, and with the shift key further down.
extend_test :
    (extend_group_selection (pos 1) (move_group_focus (pos 1) inbox)).selected_group_ids
    ≡ "b" ∷ "a" ∷ []
unfolding extend_group_selection move_group_focus extend_from interact_with_group extend_to position
    select_between select_range text_dec include contains inclusive_selection_indices
    adjacent_group_index
extend_test = refl

toggle_test :
    (toggle_focused_group
      (toggle_focused_group (move_group_focus (pos 1) inbox))).selected_group_ids
    ≡ []
unfolding toggle_focused_group toggle_group move_group_focus position text_dec include contains
    discard adjacent_group_index
toggle_test = refl
