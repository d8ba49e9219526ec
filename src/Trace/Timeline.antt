-- ===== src/Trace/Timeline.antt =====
-- `FullTraceTimelineModel` of
-- apps/perseval-app/src/screens/failure_inbox/full_trace_timeline.rs. A row is any type, with the
-- order of its start time and span id as a Boolean test.
pub mod Requests
pub mod Rows
use perseval.Base.{
  ℕ, ◌+◌, ◌/◌, ◌%◌, List, [], ◌∷◌, ◌++◌, Option, none, some, Bool, true, false, not, ◌&&◌,
  if◌then◌else◌, length, get_elem?, contains, discard, include, ℕ_discrete, ltb,
}
use perseval.Controllers.Cache.{Cache, new, clear, insert, peek, contains_key, values}

abbrev pub timeline_page_size : ℕ
timeline_page_size = 500

pub record FullTraceTimelineModel (Row : Type 0) : Type 0 where
  pub pages : Cache ℕ (List Row)
  pub loading : List ℕ
  pub total : ℕ

module _ {Row : Type 0} where
  unfoldable pub new_timeline : ℕ → FullTraceTimelineModel Row
  unfolding new
  new_timeline cached_pages = record { pages = new cached_pages; loading = []; total = 0 }

  unfoldable pub clear_timeline : FullTraceTimelineModel Row → FullTraceTimelineModel Row
  unfolding clear
  clear_timeline m = record { pages = clear m.pages; loading = []; total = 0 }

  unfoldable pub set_total : ℕ → FullTraceTimelineModel Row → FullTraceTimelineModel Row
  set_total total m = record m { total = total }

  -- `!contains_key(&page) && loading.insert(page)`
  unfoldable pub begin_load : ℕ → FullTraceTimelineModel Row → FullTraceTimelineModel Row × Bool
  begin_load page m =
      if contains_key ℕ_discrete page m.pages
      then (m, false)
      else if contains ℕ_discrete page m.loading
      then (m, false)
      else (record m { loading = include ℕ_discrete page m.loading }, true)

  unfoldable pub finish_load :
      ℕ → List Row → FullTraceTimelineModel Row → FullTraceTimelineModel Row
  finish_load page rows m = record m {
    loading = discard ℕ_discrete page m.loading;
    pages = (insert ℕ_discrete page rows m.pages).0;
  }

  unfoldable pub fail_load : ℕ → FullTraceTimelineModel Row → FullTraceTimelineModel Row
  fail_load page m = record m { loading = discard ℕ_discrete page m.loading }

  abbrev pub row_in : Option (List Row) → ℕ → Option Row
  row_in none index = none
  row_in (some rows) index = get_elem? rows index

  unfoldable pub row : ℕ → FullTraceTimelineModel Row → Option Row
  row index m =
      row_in (peek ℕ_discrete (index / timeline_page_size) m.pages) (index % timeline_page_size)

  abbrev pub sum_lengths : List (List Row) → ℕ
  sum_lengths [] = 0
  sum_lengths (page ∷ pages) = length page + sum_lengths pages

  unfoldable pub loaded_count : FullTraceTimelineModel Row → ℕ
  unfolding values
  loaded_count m = sum_lengths (values m.pages)

  abbrev pub all_rows : List (List Row) → List Row
  all_rows [] = []
  all_rows (page ∷ pages) = page ++ all_rows pages

  -- `sort_by` is stable; here as an insertion sort. `before a b` is that `a` comes strictly first.
  unfoldable pub insert_row : (Row → Row → Bool) → Row → List Row → List Row
  insert_row before r [] = r ∷ []
  insert_row before r (other ∷ rest) =
      let after = insert_row before r rest in
      if before other r then other ∷ after else r ∷ other ∷ rest

  unfoldable pub sort_rows : (Row → Row → Bool) → List Row → List Row
  unfolding insert_row
  sort_rows before [] = []
  sort_rows before (r ∷ rows) = insert_row before r (sort_rows before rows)

  unfoldable pub loaded_rows : (Row → Row → Bool) → FullTraceTimelineModel Row → List Row
  unfolding values sort_rows
  loaded_rows before m = sort_rows before (all_rows (values m.pages))
