-- ===== src/Trace/Tree/Loads.antt =====
-- Toggling and expanding.
use Prim.Native.String.{String}
use perseval.Base.{
  List, [], ◌∷◌, contains, discard, include, text_dec, not, arith, ◌||◌, ◌≡◌, refl,
  contains-include, contains-discard, ◌≢◌,
}
use perseval.Trace.Tree.{
  FullTraceTreeModel, toggle, is_expanded, expand_all_loaded, extend, page_parents,
}
use perseval.Controllers.Cache.{values}

-- `toggle` tells the new state of the span, changes that span only, and undoes itself.
pub toggle-toggle :
    (span_id other : String) (m : FullTraceTreeModel)
    → let (next, now) = toggle span_id m in
      (now ≡ not (is_expanded span_id m))
      × (is_expanded span_id next ≡ now)
      × (span_id ≢ other → is_expanded other next ≡ is_expanded other m)
      × (is_expanded other (toggle span_id next).0 ≡ is_expanded other m)
unfolding toggle is_expanded
toggle-toggle span_id other m = ground (
  arith,
  contains-include text_dec span_id other m.expanded,
  contains-include text_dec span_id span_id m.expanded,
  contains-discard text_dec span_id other m.expanded,
  contains-discard text_dec span_id span_id m.expanded,
  contains-discard text_dec span_id other (include text_dec span_id m.expanded),
  contains-include text_dec span_id other (discard text_dec span_id m.expanded),
)

contains-extend :
    (ids expanded : List String) (a : String)
    → contains text_dec a (extend ids expanded)
      ≡ (contains text_dec a ids || contains text_dec a expanded)
unfolding contains
contains-extend [] expanded a = refl
contains-extend (id ∷ ids) expanded a = ground (
  arith,
  contains-extend ids (include text_dec id expanded) a,
  contains-include text_dec id a expanded,
)

-- After `expand_all_loaded` a span is expanded where it was, and where a loaded row of it has
-- children.
pub expand_all_loaded-is_expanded :
    (span_id : String) (m : FullTraceTreeModel)
    → is_expanded span_id (expand_all_loaded m)
      ≡ (contains text_dec span_id (page_parents (values m.pages)) || is_expanded span_id m)
unfolding expand_all_loaded is_expanded
expand_all_loaded-is_expanded span_id m =
    contains-extend (page_parents (values m.pages)) m.expanded span_id
