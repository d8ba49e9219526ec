-- ===== src/Selection/Bounds.antt =====
-- The selection stays inside, and goes where it should.
use perseval.Base.{
  ℕ, ◌+◌, ◌<◌, ◌≤◌, ◌≡◌, ◌↔◌, Option, none, some, true, arith, u64_max, ◌-◌, ◌⊎◌, min,
}
use perseval.Selection.{
  ℤ, pos, negsuc, occurrence_navigation_state, adjacent_group_index, inclusive_selection_indices,
  saturating_add_signed,
}

-- For a selected occurrence of a page that lies inside the whole, there is a previous one where its
-- place in the whole is not the first, and a next one where it is not the last.
pub occurrence_navigation_state_iff :
    (offset selected_index loaded_count total_count : ℕ)
    → selected_index < loaded_count
    → offset + loaded_count ≤ total_count
    → let (previous, next) =
        occurrence_navigation_state offset selected_index loaded_count total_count in
      ((previous ≡ true) ↔ (0 < offset + selected_index))
      × ((next ≡ true) ↔ (offset + selected_index + 1 < total_count))
unfolding occurrence_navigation_state
occurrence_navigation_state_iff offset selected_index loaded_count total_count inside fits =
    (ground arith, ground arith)

-- A step from one index always ends inside the list, a step forward is one further up to the last,
-- and a step back is one less down to the first; so a step forward that is not stopped is undone by
-- a step back.
pub adjacent_group_index-steps :
    (index count : ℕ)
    → index < count
    → count ≤ u64_max
    → (adjacent_group_index (some index) count (negsuc 0) ≡ some (index - 1))
      × (index + 1 < count
          → (adjacent_group_index (some index) count (pos 1) ≡ some (index + 1))
            × (adjacent_group_index
                  (adjacent_group_index (some index) count (pos 1))
                  count
                  (negsuc 0)
                ≡ some index))
      × (index + 1 ≡ count → adjacent_group_index (some index) count (pos 1) ≡ some index)
unfolding adjacent_group_index
adjacent_group_index-steps index count inside small =
    (ground arith, λ lt. (ground arith, ground arith), λ e. ground arith)

-- Whatever the step, the new index is inside the list, and there is one unless the list is empty.
pub adjacent_group_index-inside :
    (current : Option ℕ) (count : ℕ) (delta : ℤ)
    → 0 < count
    → (index : ℕ) × (adjacent_group_index current count delta ≡ some index) × (index < count)
unfolding adjacent_group_index
adjacent_group_index-inside none count (pos k) h = (0, ground arith, h)
adjacent_group_index-inside none count (negsuc k) h = (count - 1, ground arith, omega arith)
adjacent_group_index-inside (some index) count delta h =
    (min (saturating_add_signed index delta) (count - 1), ground arith, omega arith)

-- In a list that is not empty, the range ends inside the list and covers the places of the list
-- between the anchor and the target, whichever comes first; where both lie behind the list, it is
-- the last place.
pub inclusive_selection_indices-between :
    (anchor target count i : ℕ)
    → 0 < count
    → let (first, last) = inclusive_selection_indices anchor target count in
      (last < count)
      × (((first ≤ i) × (i ≤ last)) ↔ (
          ((i < count) × (((anchor ≤ i) × (i ≤ target)) ⊎ ((target ≤ i) × (i ≤ anchor))))
          ⊎ ((i + 1 ≡ count) × (count ≤ anchor) × (count ≤ target))))
unfolding inclusive_selection_indices
inclusive_selection_indices-between anchor target count i h = (omega arith, ground arith)
