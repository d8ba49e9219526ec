-- ===== src/Selection.antt =====
-- The index arithmetic of apps/perseval-app/src/screens/failure_inbox/selection.rs. Indices are
-- usize of 64 bits.
pub mod Bounds
pub mod Groups
mod Tests
use perseval.Base.{
  ℕ, ◌+◌, ◌-◌, Option, none, some, Bool, true, false, min, max, ltb, ◌==◌, ◌||◌, if◌then◌else◌,
  saturating_add, u64_max,
}

-- An isize; `negsuc n` is the number below minus `n`.
pub data ℤ : Type 0 where
  pos negsuc : ℕ → ℤ

-- Whether there is an occurrence before and behind the selected one.
unfoldable pub occurrence_navigation_state : ℕ → ℕ → ℕ → ℕ → Bool × Bool
occurrence_navigation_state offset selected_index loaded_count total_count = (
  ltb 0 selected_index || ltb 0 offset,
  ltb (selected_index + 1) loaded_count || ltb (offset + loaded_count) total_count,
)

abbrev pub saturating_add_signed : ℕ → ℤ → ℕ
saturating_add_signed n (pos k) = saturating_add u64_max n k
saturating_add_signed n (negsuc k) = n - (k + 1)

abbrev pub is_negative : ℤ → Bool
is_negative (pos k) = false
is_negative (negsuc k) = true

unfoldable pub adjacent_group_index : Option ℕ → ℕ → ℤ → Option ℕ
adjacent_group_index current count delta =
    if count == 0
    then none
    else some (elim current [
      | some index ↦ min (saturating_add_signed index delta) (count - 1)
      | none ↦ if is_negative delta then count - 1 else 0
    ])

-- The first and the last index of the inclusive range.
unfoldable pub inclusive_selection_indices : ℕ → ℕ → ℕ → ℕ × ℕ
inclusive_selection_indices anchor target count =
    let last = count - 1 in (min (min anchor target) last, min (max anchor target) last)
