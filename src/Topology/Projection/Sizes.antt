-- ===== src/Topology/Projection/Sizes.antt =====
-- How many entries the stack gets: each row is once a root or once a child.
use perseval.Base.{
  ℕ, suc, ◌+◌, ◌≡◌, refl, ◌∷◌, ◌++◌, List, [], Option, none, some, false, arith, contains, get, put,
  del, keys, length, Distinct, ap, length-append, if◌then◌else◌, del_unlisted, put-Distinct,
}
use mathlib.Core.Path.{subst}
use perseval.Topology.Layout.{Rows}
use perseval.Topology.Projection.{
  insert_by_key, sort_by_key, sort_children, valid_parent, Links, children_of, link_row, link_rows,
}

module _ {SpanId : Type 0} (dec : Discrete SpanId) where
  length-insert_by_key :
      (order : List (SpanId × ℕ)) (id : SpanId) (xs : List SpanId)
      → length (insert_by_key dec order id xs) ≡ suc (length xs)
  unfolding insert_by_key
  length-insert_by_key order id [] = refl
  length-insert_by_key order id (x ∷ xs) = ground (arith, length-insert_by_key order id xs)

  pub length-sort_by_key :
      (order : List (SpanId × ℕ)) (xs : List SpanId) → length (sort_by_key dec order xs) ≡ length xs
  unfolding sort_by_key
  length-sort_by_key order [] = refl
  length-sort_by_key order (x ∷ xs) =
      omega (
        arith,
        length-insert_by_key order x (sort_by_key dec order xs),
        length-sort_by_key order xs,
      )

  -- The children that are still to be pushed: those of spans that were not visited.
  pub weight : List SpanId → List (SpanId × List SpanId) → ℕ
  weight visited [] = 0
  weight visited ((parent, child_ids) ∷ rest) =
      let below = weight visited rest in
      if contains dec parent visited then below else length child_ids + below

  weight-sort_children :
      (order : List (SpanId × ℕ)) (visited : List SpanId) (children : List (SpanId × List SpanId))
      → weight visited (sort_children dec order children) ≡ weight visited children
  unfolding weight sort_children
  weight-sort_children order visited [] = refl
  weight-sort_children order visited ((parent, child_ids) ∷ rest) =
      ground (arith, weight-sort_children order visited rest, length-sort_by_key order child_ids)

  keys-sort_children :
      (order : List (SpanId × ℕ)) (children : List (SpanId × List SpanId))
      → keys (sort_children dec order children) ≡ keys children
  unfolding sort_children
  keys-sort_children order [] = refl
  keys-sort_children order ((parent, child_ids) ∷ rest) =
      ap (◌∷◌ parent) (keys-sort_children order rest)

  weight-unlisted :
      (id : SpanId) (visited : List SpanId) (children : List (SpanId × List SpanId))
      → contains dec id (keys children) ≡ false
      → weight (id ∷ visited) children ≡ weight visited children
  unfolding weight contains
  weight-unlisted id visited [] h = refl
  weight-unlisted id visited ((parent, child_ids) ∷ rest) h =
      ground (arith, weight-unlisted id visited rest)

  -- To visit a span is to push its children, once.
  pub weight-visit :
      (id : SpanId) (visited : List SpanId) (children : List (SpanId × List SpanId))
      → Distinct dec (keys children)
      → contains dec id visited ≡ false
      → weight (id ∷ visited) children + length (children_of dec children id)
        ≡ weight visited children
  unfolding weight contains get
  weight-visit id visited [] d h = refl
  weight-visit id visited ((parent, child_ids) ∷ rest) d h = elim (dec parent id) [
    | yes p ↦ ground (arith, weight-unlisted id visited rest)
    | no p ↦ ground (arith, weight-visit id visited rest)
  ]

  weight-del :
      (id : SpanId) (children : List (SpanId × List SpanId))
      → Distinct dec (keys children)
      → weight [] (del dec id children) + length (children_of dec children id) ≡ weight [] children
  unfolding weight del get contains
  weight-del id [] d = refl
  weight-del id ((parent, child_ids) ∷ rest) d = elim (dec parent id) [
    | yes p ↦
        let same : del dec id rest ≡ rest =
          del_unlisted dec id rest (subst (λ q. contains dec q (keys rest) ≡ false) p d.0) in
        let whole : del dec id ((parent, child_ids) ∷ rest) ≡ rest = ground (arith, same) in
        rw whole (ground arith)
    | no p ↦
        let kept : del dec id ((parent, child_ids) ∷ rest) ≡ (parent, child_ids) ∷ del dec id rest =
          ground arith in
        rw kept (ground (arith, weight-del id rest d.1))
  ]

  link_row-size :
      (parent : Option SpanId) (span_id : SpanId) (l : Links SpanId)
      → Distinct dec (keys l.children)
      → (weight [] (link_row dec parent span_id l).children
            + length (link_row dec parent span_id l).roots
          ≡ weight [] l.children + length l.roots + 1)
        × Distinct dec (keys (link_row dec parent span_id l).children)
  unfolding link_row weight contains put
  link_row-size none span_id l d = (omega (arith, length-append l.roots (span_id ∷ [])), d)
  link_row-size (some parent) span_id l d = (
    omega (
      arith,
      length-append (children_of dec l.children parent) (span_id ∷ []),
      weight-del parent l.children d,
    ),
    put-Distinct dec parent (children_of dec l.children parent ++ span_id ∷ []) l.children d,
  )

  -- Every row fills one place, among the roots or among the children.
  link_rows-size :
      (depths : List (SpanId × ℕ)) (rows : Rows SpanId) (l : Links SpanId)
      → Distinct dec (keys l.children)
      → (weight [] (link_rows dec depths rows l).children
            + length (link_rows dec depths rows l).roots
          ≡ weight [] l.children + length l.roots + length rows)
        × Distinct dec (keys (link_rows dec depths rows l).children)
  unfolding link_rows
  link_rows-size depths [] l d = (omega arith, d)
  link_rows-size depths ((span_id, parent) ∷ rows) l d =
      let p = valid_parent dec depths span_id parent in
      let (size, d') = link_row-size p span_id l d in
      let (sizes, d'') = link_rows-size depths rows (link_row dec p span_id l) d' in
      (omega (arith, size, sizes), d'')

  -- The same after sorting.
  pub sorted_size :
      (order : List (SpanId × ℕ)) (depths : List (SpanId × ℕ)) (rows : Rows SpanId)
      → let l =
          link_rows dec depths rows
            (record { children = []; roots = []; parents_with_children = [] }) in
        let children = sort_children dec order l.children in
        let roots = sort_by_key dec order l.roots in
        (weight [] children + length roots ≡ length rows) × Distinct dec (keys children)
  unfolding weight
  sorted_size order depths rows =
      let start : Links SpanId = record { children = []; roots = []; parents_with_children = [] } in
      let l = link_rows dec depths rows start in
      let (size, d) = link_rows-size depths rows start tt in
      (
        omega (
          arith,
          size,
          weight-sort_children order [] l.children,
          length-sort_by_key order l.roots,
        ),
        rw keys-sort_children d,
      )
