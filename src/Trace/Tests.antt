-- ===== src/Trace/Tests.antt =====
-- The full-trace view with two cached pages.

use perseval.Base.{
  List, not, ite, get, ℕ, [], ◌∷◌, false, refl, arith, inl, ℕ_discrete, get_elem?, ◌≡◌, ◌≢◌, ◌+◌,
  ◌*◌, ◌/◌, contains,
}
use perseval.Controllers.Cache.{contains_key, new}
use perseval.Controllers.Cache.Valid.{IsValid, new-IsValid}
use perseval.Trace.Timeline.{
  FullTraceTimelineModel, new_timeline, finish_load, begin_load, fail_load, row, timeline_page_size,
}
use perseval.Trace.Timeline.Rows.{row-finish_load}
use perseval.Trace.Timeline.Requests.{Call, begins, finishes, fails, perform_all, begin_load-once}
use perseval.Trace.Tree.{FullTraceTreeModel, new_tree}

abbrev timeline : FullTraceTimelineModel ℕ
timeline = new_timeline 2

row-finish_load_example :
    let next = finish_load 1 (70 ∷ 71 ∷ []) timeline in
    IsValid ℕ_discrete next.pages
    × (row (1 * timeline_page_size + 1) next ≡ get_elem? (70 ∷ 71 ∷ []) 1)
    × (1 ≢ 3 / timeline_page_size → row 3 next ≡ row 3 timeline)
unfolding new_timeline new
row-finish_load_example =
    row-finish_load 1 1 3 (70 ∷ 71 ∷ []) timeline (new-IsValid ℕ_discrete 2) (inl (omega arith))
      (omega arith)

-- Page 4 is asked for, and page 5 comes in meanwhile.
abbrev meanwhile : List (Call ℕ)
meanwhile = begins 5 ∷ finishes 5 (70 ∷ []) ∷ fails 6 ∷ []

begin_load-once_example :
    let next = perform_all meanwhile (begin_load 4 timeline).0 in
    (contains_key ℕ_discrete 4 timeline.pages ≡ false)
    × ((begin_load 4 next).1 ≡ false)
    × ((begin_load 4 (fail_load 4 next)).1 ≡ not (contains_key ℕ_discrete 4 next.pages))
    × (contains ℕ_discrete 7 (fail_load 4 next).loading
        ≡ ite (ℕ_discrete 4 7) false (contains ℕ_discrete 7 next.loading))
    × (contains ℕ_discrete 7 (finish_load 4 (71 ∷ []) next).loading
        ≡ ite (ℕ_discrete 4 7) false (contains ℕ_discrete 7 next.loading))
unfolding begin_load new_timeline new contains_key get contains ℕ_discrete
begin_load-once_example = begin_load-once 4 7 (71 ∷ []) meanwhile timeline refl refl

abbrev tree : FullTraceTreeModel
tree = new_tree 2
