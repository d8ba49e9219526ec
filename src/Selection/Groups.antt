-- ===== src/Selection/Groups.antt =====
-- Focus and selection of the failure groups in
-- apps/perseval-app/src/screens/failure_inbox/selection.rs. The calls that scroll and that ask for
-- a redraw are left out.
use Prim.Native.String.{String}
use perseval.Base.{
  ℕ, zero, suc, ◌+◌, ◌-◌, Option, none, some, Bool, true, false, not, any, List, [], ◌∷◌, ◌&&◌,
  ◌||◌, same, retain, contains, include, discard, text_dec, get_elem?, length, if◌then◌else◌, suc,
}
use perseval.Selection.{ℤ, adjacent_group_index, inclusive_selection_indices}

-- The project and the group.
abbrev pub GroupKey : Type 0
GroupKey = String × String

pub record FailureGroupSummary : Type 0 where
  pub project_id : String
  pub group_id : String

pub record FailureInboxState : Type 0 where
  pub groups : List FailureGroupSummary
  pub focused_group : Option GroupKey
  pub selected_group_ids : List String
  pub selection_anchor : Option GroupKey
  pub showing_inbox : Bool
  pub project_filter : Option String

abbrev pub unassigned_project_id : String
unassigned_project_id = "unassigned"

abbrev pub same_key : GroupKey → GroupKey → Bool
same_key (p, g) (q, h) = same p q && same g h

abbrev pub filter_available : List GroupKey → Option GroupKey → Option GroupKey
filter_available available none = none
filter_available available (some key) = if any (same_key key) available then some key else none

-- Answers the focus, the selected groups and the anchor.
unfoldable pub reconcile_group_identity_state :
    List GroupKey
    → List String
    → Option GroupKey
    → Option GroupKey
    → Option GroupKey × List String × Option GroupKey
reconcile_group_identity_state available selected_group_ids selection_anchor previous_focus = (
  filter_available available previous_focus,
  retain (λ group_id. any (λ (key : GroupKey). same key.1 group_id) available) selected_group_ids,
  filter_available available selection_anchor,
)

-- `groups.iter().position(…)` of a key.
unfoldable pub position : GroupKey → List FailureGroupSummary → Option ℕ
position key [] = none
position key (group ∷ groups) =
    let rest = position key groups in
    if same_key key (group.project_id, group.group_id)
    then some 0
    else (elim rest [ none ↦ none | some index ↦ some (index + 1) ])

abbrev pub position_of : Option GroupKey → List FailureGroupSummary → Option ℕ
position_of none groups = none
position_of (some key) groups = position key groups

-- The ids of so many groups from an index on are put in; an index that is out of range, where the
-- source would panic, puts nothing in.
unfoldable pub select_range : ℕ → ℕ → List FailureGroupSummary → List String → List String
select_range zero index groups selected = selected
select_range (suc rounds) index groups selected =
    select_range rounds (index + 1) groups (elim (get_elem? groups index) [
      | none ↦ selected
      | some group ↦ include text_dec group.group_id selected
    ])

-- The loop over `first..=last`.
unfoldable pub select_between : ℕ × ℕ → List FailureGroupSummary → List String → List String
unfolding select_range
select_between (first, last) groups selected = select_range (last + 1 - first) first groups selected

abbrev pub toggled : String → List String → List String
toggled group_id selected =
    if contains text_dec group_id selected
    then discard text_dec group_id selected
    else include text_dec group_id selected

-- `self.filters.scope.criteria.project_id` names a project of the user.
abbrev pub can_generate_eval : FailureInboxState → Bool
can_generate_eval s = elim s.project_filter [
  | none ↦ false
  | some project_id ↦ not (same project_id unassigned_project_id)
]

abbrev pub anchor_or : Option GroupKey → GroupKey → GroupKey
anchor_or none key = key
anchor_or (some anchor) key = anchor

-- The range from the anchor, or from the group itself, to the group.
unfoldable pub extend_to : GroupKey → Bool → FailureInboxState → FailureInboxState
unfolding position select_between
extend_to key secondary s = elim (position (anchor_or s.selection_anchor key) s.groups) [
  | none ↦ s
  | some anchor_index ↦ elim (position key s.groups) [
    | none ↦ s
    | some target_index ↦ record s {
      selected_group_ids =
          select_between (inclusive_selection_indices anchor_index target_index (length s.groups))
            s.groups (if secondary then s.selected_group_ids else []);
    }
  ]
]

-- With the flags shift, secondary and toggle_on_plain_click.
unfoldable pub interact_with_group :
    GroupKey → Bool → Bool → Bool → FailureInboxState → FailureInboxState
unfolding extend_to
interact_with_group key shift secondary toggle_on_plain_click s =
    let t = record s { focused_group = some key } in
    if not (can_generate_eval t) then t else if shift then extend_to key secondary t else record t {
      selection_anchor = some key;
      selected_group_ids =
          if secondary || toggle_on_plain_click
          then toggled key.1 t.selected_group_ids
          else t.selected_group_ids;
    }

abbrev pub key_of : FailureGroupSummary → GroupKey
key_of group = (group.project_id, group.group_id)

unfoldable pub move_group_focus : ℤ → FailureInboxState → FailureInboxState
unfolding adjacent_group_index position
move_group_focus delta s =
    elim (adjacent_group_index (position_of s.focused_group s.groups) (length s.groups) delta) [
      | none ↦ s
      | some next ↦ elim (get_elem? s.groups next) [
        | none ↦ s
        | some group ↦ record s { focused_group = some (key_of group) }
      ]
    ]

-- From the focused group and its place on.
unfoldable pub extend_from : GroupKey → ℕ → ℤ → FailureInboxState → FailureInboxState
unfolding adjacent_group_index interact_with_group
extend_from key current delta s =
    elim (adjacent_group_index (some current) (length s.groups) delta) [
      | none ↦ s
      | some next ↦ elim (get_elem? s.groups next) [
        | none ↦ s
        | some group ↦ interact_with_group (key_of group) true false false (record s {
          selection_anchor = some (elim s.selection_anchor [ none ↦ key | some anchor ↦ anchor ]);
        })
      ]
    ]

unfoldable pub extend_group_selection : ℤ → FailureInboxState → FailureInboxState
unfolding move_group_focus extend_from position
extend_group_selection delta s = elim s.focused_group [
  | none ↦ move_group_focus delta s
  | some key ↦ elim (position key s.groups) [
    | none ↦ s
    | some current ↦ extend_from key current delta s
  ]
]

unfoldable pub toggle_group : GroupKey → FailureInboxState → FailureInboxState
toggle_group key s = record s {
  selected_group_ids = toggled key.1 s.selected_group_ids;
  focused_group = some key;
  selection_anchor = some key;
}

unfoldable pub toggle_focused_group : FailureInboxState → FailureInboxState
unfolding toggle_group
toggle_focused_group s =
    if not (s.showing_inbox && can_generate_eval s)
    then s
    else (elim s.focused_group [ none ↦ s | some key ↦ toggle_group key s ])
