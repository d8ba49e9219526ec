-- ===== src/Trace/Timeline/Rows.antt =====
-- What the timeline shows after its pages came in.
use perseval.Base.{
  ◌/◌, ◌%◌, ℕ, ◌*◌, ◌+◌, ◌<◌, ◌≡◌, ◌⊎◌, ◌∷◌, List, [], some, Bool, true, arith, length, get_elem?,
  ℕ_discrete, length-append, ◌≢◌, ap, ◌∙◌,
}
use perseval.Controllers.Cache.{insert, peek, contains_key}
use perseval.Controllers.Cache.Valid.{IsValid, insert-IsValid}
use perseval.Controllers.Cache.Evicts.{insert_fits}
use perseval.Trace.Timeline.{
  FullTraceTimelineModel, timeline_page_size, finish_load, row, loaded_rows, loaded_count,
  sort_rows, insert_row, sum_lengths, all_rows, values, row_in,
}

module _ {Row : Type 0} where
  -- With room in the cache, or for a page that is there, the rows of a page that came in are shown at
  -- their places, and the rows of other pages stay.
  pub row-finish_load :
      (page offset other : ℕ) (rows : List Row) (m : FullTraceTimelineModel Row)
      → IsValid ℕ_discrete m.pages
      → (length m.pages.pages < m.pages.capacity) ⊎ (contains_key ℕ_discrete page m.pages ≡ true)
      → offset < timeline_page_size
      → let next = finish_load page rows m in
        IsValid ℕ_discrete next.pages
        × (row (page * timeline_page_size + offset) next ≡ get_elem? rows offset)
        × (page ≢ other / timeline_page_size → row other next ≡ row other m)
  unfolding finish_load row
  row-finish_load page offset other rows m v room h =
      let (kept, pages) = insert_fits ℕ_discrete page rows m.pages v room in
      let quotient : (page * timeline_page_size + offset) / timeline_page_size ≡ page =
        omega arith in
      let rest : (page * timeline_page_size + offset) % timeline_page_size ≡ offset = omega arith in
      let found : peek ℕ_discrete page (insert ℕ_discrete page rows m.pages).0 ≡ some rows =
        ground (arith, pages page) in
      (
        insert-IsValid ℕ_discrete page rows m.pages v,
        ap (λ o. row_in o ((page * timeline_page_size + offset) % timeline_page_size))
              (ap (λ q. peek ℕ_discrete q (insert ℕ_discrete page rows m.pages).0) quotient ∙ found)
            ∙ ap (get_elem? rows) rest,
        λ n.
            let same : peek ℕ_discrete (other / timeline_page_size)
                  (insert ℕ_discrete page rows m.pages).0
                ≡ peek ℕ_discrete (other / timeline_page_size) m.pages =
              ground (arith, pages (other / timeline_page_size), n) in
            ap (λ o. row_in o (other % timeline_page_size)) same,
      )

  length-insert_row :
      (before : Row → Row → Bool) (r : Row) (rows : List Row)
      → length (insert_row before r rows) ≡ length rows + 1
  unfolding insert_row
  length-insert_row before r [] = omega arith
  length-insert_row before r (other ∷ rest) = ground (arith, length-insert_row before r rest)

  length-sort_rows :
      (before : Row → Row → Bool) (rows : List Row) → length (sort_rows before rows) ≡ length rows
  unfolding sort_rows
  length-sort_rows before [] = omega arith
  length-sort_rows before (r ∷ rows) =
      omega
        (arith, length-insert_row before r (sort_rows before rows), length-sort_rows before rows)

  length-all_rows : (pages : List (List Row)) → length (all_rows pages) ≡ sum_lengths pages
  length-all_rows [] = omega arith
  length-all_rows (page ∷ pages) =
      omega (arith, length-append page (all_rows pages), length-all_rows pages)

  -- The export of the loaded rows holds as many rows as are counted.
  pub length-loaded_rows :
      (before : Row → Row → Bool) (m : FullTraceTimelineModel Row)
      → length (loaded_rows before m) ≡ loaded_count m
  unfolding loaded_rows loaded_count
  length-loaded_rows before m =
      omega (
        arith,
        length-sort_rows before (all_rows (values m.pages)),
        length-all_rows (values m.pages),
      )
