-- ===== src/Trace/Timeline/Requests.antt =====
-- A page of the timeline is asked for once, whatever happens to the other pages meanwhile.
use perseval.Base.{
  ℕ, ◌≡◌, List, [], ◌∷◌, Bool, true, false, not, ◌&&◌, ite, arith, contains, ℕ_discrete,
  contains-include, contains-discard, contains-discard_self, and_left, and_right,
}
use perseval.Controllers.Cache.{contains_key}
use perseval.Trace.Timeline.{
  FullTraceTimelineModel, begin_load, finish_load, fail_load, set_total, clear_timeline,
}

-- A call that changes the model.
pub data Call (Row : Type 0) : Type 0 where
  begins : ℕ → Call Row
  finishes : ℕ → List Row → Call Row
  fails : ℕ → Call Row
  sets_total : ℕ → Call Row
  clears : Call Row

module _ {Row : Type 0} where
  unfoldable pub perform : Call Row → FullTraceTimelineModel Row → FullTraceTimelineModel Row
  unfolding begin_load finish_load fail_load set_total clear_timeline
  perform (begins page) m = (begin_load page m).0
  perform (finishes page rows) m = finish_load page rows m
  perform (fails page) m = fail_load page m
  perform (sets_total total) m = set_total total m
  perform clears m = clear_timeline m

  unfoldable pub perform_all :
      List (Call Row) → FullTraceTimelineModel Row → FullTraceTimelineModel Row
  unfolding perform
  perform_all [] m = m
  perform_all (call ∷ calls) m = perform_all calls (perform call m)

  -- The call does not end the load of the page.
  abbrev pub spares : ℕ → Call Row → Bool
  spares page (begins other) = true
  spares page (finishes other rows) = ite (ℕ_discrete other page) false true
  spares page (fails other) = ite (ℕ_discrete other page) false true
  spares page (sets_total total) = true
  spares page clears = false

  abbrev pub all_spare : ℕ → List (Call Row) → Bool
  all_spare page [] = true
  all_spare page (call ∷ calls) = spares page call && all_spare page calls

  begin_load-yes :
      (page : ℕ) (m : FullTraceTimelineModel Row)
      → (begin_load page m).1 ≡ true
      → (contains_key ℕ_discrete page m.pages ≡ false)
        × (contains ℕ_discrete page (begin_load page m).0.loading ≡ true)
  unfolding begin_load
  begin_load-yes page m h = ground (arith, contains-include ℕ_discrete page page m.loading)

  perform-loading :
      (page : ℕ) (call : Call Row) (m : FullTraceTimelineModel Row)
      → contains ℕ_discrete page m.loading ≡ true
      → spares page call ≡ true
      → contains ℕ_discrete page (perform call m).loading ≡ true
  unfolding perform begin_load finish_load fail_load set_total
  perform-loading page (begins other) m h s =
      ground (arith, contains-include ℕ_discrete other page m.loading)
  perform-loading page (finishes other rows) m h s =
      ground (arith, contains-discard ℕ_discrete other page m.loading)
  perform-loading page (fails other) m h s =
      ground (arith, contains-discard ℕ_discrete other page m.loading)
  perform-loading page (sets_total total) m h s = h
  perform-loading page clears m h s = cc

  perform_all-loading :
      (page : ℕ) (calls : List (Call Row)) (m : FullTraceTimelineModel Row)
      → contains ℕ_discrete page m.loading ≡ true
      → all_spare page calls ≡ true
      → contains ℕ_discrete page (perform_all calls m).loading ≡ true
  unfolding perform_all
  perform_all-loading page [] m h s = h
  perform_all-loading page (call ∷ calls) m h s =
      perform_all-loading page calls (perform call m)
        (perform-loading page call m h (and_left _ _ s)) (and_right _ _ s)

  -- A page is asked for only where it is not there, and once: after `begin_load` said yes for it, and
  -- any calls but a clear and those that end its load, it says no. A failure ends the load of this
  -- page only, so that it is asked for again unless it is there; its rows end the load as well.
  pub begin_load-once :
      (page other : ℕ) (rows : List Row) (calls : List (Call Row)) (m : FullTraceTimelineModel Row)
      → (begin_load page m).1 ≡ true
      → all_spare page calls ≡ true
      → let next = perform_all calls (begin_load page m).0 in
        (contains_key ℕ_discrete page m.pages ≡ false)
        × ((begin_load page next).1 ≡ false)
        × ((begin_load page (fail_load page next)).1
            ≡ not (contains_key ℕ_discrete page next.pages))
        × (contains ℕ_discrete other (fail_load page next).loading
            ≡ ite (ℕ_discrete page other) false (contains ℕ_discrete other next.loading))
        × (contains ℕ_discrete other (finish_load page rows next).loading
            ≡ ite (ℕ_discrete page other) false (contains ℕ_discrete other next.loading))
  unfolding begin_load fail_load finish_load
  begin_load-once page other rows calls m h s =
      let (absent, asked) = begin_load-yes page m h in
      let next = perform_all calls (begin_load page m).0 in
      let still = perform_all-loading page calls (begin_load page m).0 asked s in
      (
        absent,
        ground (arith, still),
        ground (arith, contains-discard_self ℕ_discrete page next.loading),
        contains-discard ℕ_discrete page other next.loading,
        contains-discard ℕ_discrete page other next.loading,
      )
