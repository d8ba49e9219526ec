-- ===== src/Workbench/Navigation.antt =====
-- `EditorNavigation` of apps/perseval-app/src/workbench/navigation.rs. An editor id is a text; the
-- tabs that were closed are tabs of `State`.
pub mod Valid
use Prim.Native.String.{String}
use perseval.Base.{
  ℕ, zero, suc, ◌+◌, ◌-◌, List, [], ◌∷◌, ◌++◌, Option, none, some, Bool, true, false, length,
  get_elem?, take, contains, retain, not, text_dec, ltb, if◌then◌else◌, last?, leb,
}
use perseval.Workbench.State.{EditorId, EditorTabState}
use perseval.Workbench.Tabs.{has_id, same_text}

pub record EditorNavigation : Type 0 where
  pub entries : List EditorId
  pub cursor : Option ℕ
  pub closed : List EditorTabState

abbrev pub empty_navigation : EditorNavigation
empty_navigation = record { entries = []; cursor = none; closed = [] }

abbrev pub entry_at : Option ℕ → List EditorId → Option EditorId
entry_at none entries = none
entry_at (some cursor) entries = get_elem? entries cursor

unfoldable pub current : EditorNavigation → Option EditorId
current n = entry_at n.cursor n.entries

-- `self.current() == Some(&editor)`
unfoldable pub is_current : EditorId → Option EditorId → Bool
is_current editor none = false
is_current editor (some id) = same_text id editor

-- `map_or(0, |cursor| cursor + 1)`
abbrev pub next_index : Option ℕ → ℕ
next_index none = 0
next_index (some cursor) = cursor + 1

unfoldable pub record_editor : EditorId → EditorNavigation → EditorNavigation
unfolding current is_current
record_editor editor n =
    if is_current editor (current n)
    then n
    else (let entries = take (next_index n.cursor) n.entries ++ editor ∷ [] in
        record n { entries = entries; cursor = some (length entries - 1) })

unfoldable pub new : Option EditorId → EditorNavigation
unfolding record_editor
new none = empty_navigation
new (some active) = record_editor active empty_navigation

-- Whether the entry at an index is an editor that is available.
unfoldable pub available_at : List EditorId → List EditorId → ℕ → Bool
available_at available entries index = elim (get_elem? entries index) [
  | none ↦ false
  | some id ↦ contains text_dec id available
]

-- The loop of `back`: the index of the entry that is found, below the cursor.
unfoldable pub search_back : List EditorId → List EditorId → ℕ → Option ℕ
unfolding available_at
search_back available entries zero = none
search_back available entries (suc cursor) =
    let rest = search_back available entries cursor in
    if available_at available entries cursor then some cursor else rest

-- The loop of `forward`: as many rounds as entries are left behind the cursor.
unfoldable pub search_forward : List EditorId → List EditorId → ℕ → ℕ → Option ℕ
unfolding available_at
search_forward available entries zero cursor = none
search_forward available entries (suc rounds) cursor =
    let rest = search_forward available entries rounds (cursor + 1) in
    if available_at available entries (cursor + 1) then some (cursor + 1) else rest

-- Moving to the index that is found.
unfoldable pub move : Option ℕ → EditorNavigation → EditorNavigation × Option EditorId
move none n = (n, none)
move (some cursor) n = (record n { cursor = some cursor }, get_elem? n.entries cursor)

unfoldable pub back : List EditorId → EditorNavigation → EditorNavigation × Option EditorId
unfolding search_back move
back available n = elim n.cursor [
  | none ↦ (n, none)
  | some cursor ↦ move (search_back available n.entries cursor) n
]

unfoldable pub forward : List EditorId → EditorNavigation → EditorNavigation × Option EditorId
unfolding search_forward move
forward available n = elim n.cursor [
  | none ↦ (n, none)
  | some cursor ↦
      move (search_forward available n.entries (length n.entries - (cursor + 1)) cursor) n
]

abbrev pub max_closed_editors : ℕ
max_closed_editors = 32

abbrev pub without_first : List EditorTabState → List EditorTabState
without_first [] = []
without_first (tab ∷ tabs) = tabs

unfoldable pub remember_closed : EditorTabState → EditorNavigation → EditorNavigation
remember_closed tab n =
    let closed = retain (λ c. not (has_id tab.id c)) n.closed ++ tab ∷ [] in
    record n {
      closed = if ltb max_closed_editors (length closed) then without_first closed else closed;
    }

abbrev pub without_last : List EditorTabState → List EditorTabState
without_last [] = []
without_last (tab ∷ []) = []
without_last (tab ∷ next ∷ tabs) = tab ∷ without_last (next ∷ tabs)

-- `pop`
unfoldable pub reopen : EditorNavigation → EditorNavigation × Option EditorTabState
reopen n = (record n { closed = without_last n.closed }, last? n.closed)

unfoldable pub can_reopen : EditorNavigation → Bool
can_reopen n = not (leb (length n.closed) 0)
