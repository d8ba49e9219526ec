-- ===== src/Topology/Projection/Members.antt =====
-- Which spans the roots and the children lists hold: those of the rows.
use perseval.Base.{
  ℕ, ◌≡◌, refl, ◌∷◌, ◌++◌, List, [], Option, none, some, true, arith, contains, get, keys, Subset,
  contains-append, contains-cons_of, contains_self, get-put, sym, ◌∙◌,
}
use perseval.Topology.Layout.{Rows}
use perseval.Topology.Projection.{
  insert_by_key, sort_by_key, sort_children, valid_parent, Links, children_of, link_row, link_rows,
}

module _ {SpanId : Type 0} (dec : Discrete SpanId) where
  contains-insert_by_key :
      (order : List (SpanId × ℕ)) (id a : SpanId) (xs : List SpanId)
      → contains dec a (insert_by_key dec order id xs) ≡ contains dec a (id ∷ xs)
  unfolding insert_by_key contains
  contains-insert_by_key order id a [] = refl
  contains-insert_by_key order id a (x ∷ xs) = ground (arith, contains-insert_by_key order id a xs)

  pub contains-sort_by_key :
      (order : List (SpanId × ℕ)) (a : SpanId) (xs : List SpanId)
      → contains dec a (sort_by_key dec order xs) ≡ contains dec a xs
  unfolding sort_by_key contains
  contains-sort_by_key order a [] = refl
  contains-sort_by_key order a (x ∷ xs) = ground (
    arith,
    contains-insert_by_key order x a (sort_by_key dec order xs),
    contains-sort_by_key order a xs,
  )

  contains-sort_children :
      (order : List (SpanId × ℕ)) (a p : SpanId) (children : List (SpanId × List SpanId))
      → contains dec a (children_of dec (sort_children dec order children) p)
        ≡ contains dec a (children_of dec children p)
  unfolding sort_children get
  contains-sort_children order a p [] = refl
  contains-sort_children order a p ((q, child_ids) ∷ rest) =
      ground (arith, contains-sort_by_key order a child_ids, contains-sort_children order a p rest)

  module _ (spans : List SpanId) where
    -- Roots and children are spans of the trace.
    pub record Within (children : List (SpanId × List SpanId)) (roots : List SpanId) : Type 0 where
      pub of_roots : Subset dec roots spans
      pub of_children : (p : SpanId) → Subset dec (children_of dec children p) spans

    concat-Subset :
        (a : SpanId) (xs : List SpanId)
        → contains dec a spans ≡ true
        → Subset dec xs spans
        → Subset dec (xs ++ a ∷ []) spans
    unfolding contains
    concat-Subset a xs h sub = λ b m. ground (arith, sub b, contains-append dec b xs (a ∷ []))

    link_row-Within :
        (parent : Option SpanId) (span_id : SpanId) (l : Links SpanId)
        → contains dec span_id spans ≡ true
        → Within l.children l.roots
        → Within (link_row dec parent span_id l).children (link_row dec parent span_id l).roots
    unfolding link_row
    link_row-Within none span_id l h w = record {
      of_roots = concat-Subset span_id l.roots h w.of_roots;
      of_children = w.of_children;
    }
    link_row-Within (some parent) span_id l h w =
        let longer = children_of dec l.children parent ++ span_id ∷ [] in
        let fits =
          concat-Subset span_id (children_of dec l.children parent) h (w.of_children parent) in
        record {
          of_roots = w.of_roots;
          of_children = λ p a m. elim (dec parent p) [
            | yes q ↦ fits a (ground (arith, get-put dec parent p longer l.children))
            | no q ↦ w.of_children p a (ground (arith, get-put dec parent p longer l.children))
          ];
        }

    link_rows-Within :
        (depths : List (SpanId × ℕ)) (rows : Rows SpanId) (l : Links SpanId)
        → Subset dec (keys rows) spans
        → Within l.children l.roots
        → Within (link_rows dec depths rows l).children (link_rows dec depths rows l).roots
    unfolding link_rows
    link_rows-Within depths [] l sub w = w
    link_rows-Within depths ((span_id, parent) ∷ rows) l sub w =
        link_rows-Within depths rows
          (link_row dec (valid_parent dec depths span_id parent) span_id l)
          (λ a m. sub a (contains-cons_of dec span_id a (keys rows) m))
          (link_row-Within (valid_parent dec depths span_id parent) span_id l
            (sub span_id (contains_self dec span_id (keys rows))) w)

    pub sorted-Within :
        (order : List (SpanId × ℕ)) (depths : List (SpanId × ℕ)) (rows : Rows SpanId)
        → Subset dec (keys rows) spans
        → let l =
            link_rows dec depths rows
              (record { children = []; roots = []; parents_with_children = [] }) in
          Within (sort_children dec order l.children) (sort_by_key dec order l.roots)
    unfolding contains get
    sorted-Within order depths rows sub =
        let start : Links SpanId = record {
          children = [];
          roots = [];
          parents_with_children = [];
        } in
        let l = link_rows dec depths rows start in
        let w =
          link_rows-Within depths rows start sub
            (record { of_roots = λ a m. cc; of_children = λ p a m. cc }) in
        record {
          of_roots = λ a m. w.of_roots a (sym (contains-sort_by_key order a l.roots) ∙ m);
          of_children =
              λ p a m. w.of_children p a (sym (contains-sort_children order a p l.children) ∙ m);
        }
