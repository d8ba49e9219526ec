-- ===== src/Topology/Projection/Order.antt =====
-- The depth-first order of a finalized trace: it is always found, and it lists every span once.
use perseval.Base.{
  ℕ, zero, suc, ◌+◌, ◌<◌, ◌≡◌, refl, ◌≢◌, ◌∷◌, ◌++◌, List, [], Option, none, some, true, false,
  arith, contains, keys, length, Distinct, Subset, Bool-cases, Option-cases, contains_self,
  contains-append, inl, concat-Distinct, contains-cons_of, inr, length-append, sym, ◌∙◌,
}
use mathlib.Core.Path.{subst, ap}
use perseval.Topology.Layout.{Rows, topology_layout}
use perseval.Topology.Projection.{
  sort_by_key, sort_children, input_order, children_of, link_rows, visit, visit_rest, Projected,
  topology_projection,
}
use perseval.Topology.Projection.Sizes.{weight, weight-visit, sorted_size}
use perseval.Topology.Projection.Members.{Within, sorted-Within}

module _ {SpanId : Type 0} (dec : Discrete SpanId) where
  -- The fuel is enough: every entry of the stack is popped, and every span's children are pushed once.
  visit_total :
      (fuel : ℕ) (children : List (SpanId × List SpanId)) (stack visited ordered : List SpanId)
      → Distinct dec (keys children)
      → length stack + weight dec visited children < fuel
      → visit dec fuel children stack visited ordered ≢ none
  unfolding visit
  visit_total zero children stack visited ordered d enough = absurd (omega arith)
  visit_total (suc fuel) children [] visited ordered d enough = λ p. cc
  visit_total (suc fuel) children (span_id ∷ stack) visited ordered d enough =
      elim (Bool-cases (contains dec span_id visited)) [
        | inl seen ↦
            rw (seen, visit) (visit_total fuel children stack visited ordered d (omega arith))
        | inr new ↦
            rw (new, visit)
              (visit_total fuel children (children_of dec children span_id ++ stack)
                (span_id ∷ visited) (ordered ++ span_id ∷ []) d
                (omega (
                  arith,
                  weight-visit dec span_id visited children d new,
                  length-append (children_of dec children span_id) stack,
                )))
      ]

  module _ (spans : List SpanId) where
    -- What both loops keep: the order lists the visited spans, each once, all of the trace.
    record Listed (visited ordered : List SpanId) : Type 0 where
      same : (a : SpanId) → contains dec a visited ≡ contains dec a ordered
      distinct : Distinct dec ordered
      inside : Subset dec ordered spans

    visit-Listed-step :
        (span_id : SpanId) (visited ordered : List SpanId)
        → contains dec span_id visited ≡ false
        → contains dec span_id spans ≡ true
        → Listed visited ordered
        → Listed (span_id ∷ visited) (ordered ++ span_id ∷ [])
    unfolding contains
    visit-Listed-step span_id visited ordered new here l = record {
      same = λ a. ground (arith, l.same a, contains-append dec a ordered (span_id ∷ []));
      distinct = concat-Distinct dec span_id ordered l.distinct (sym (l.same span_id) ∙ new);
      inside = λ a m. ground (arith, l.inside a, contains-append dec a ordered (span_id ∷ []));
    }

    abbrev lists_of : Option (List SpanId × List SpanId) → List SpanId × List SpanId
    lists_of none = ([], [])
    lists_of (some p) = p

    Listed-along :
        (visited ordered visited' ordered' : List SpanId)
        → Listed visited ordered
        → ◌≡◌ {A = Option (List SpanId × List SpanId)}
            (some (visited, ordered))
            (some (visited', ordered'))
        → Listed visited' ordered'
    Listed-along visited ordered visited' ordered' l e =
        subst (λ p. Listed p.0 p.1) (ap lists_of e) l

    visit-Listed :
        (fuel : ℕ) (children : List (SpanId × List SpanId)) (stack visited ordered : List SpanId)
        → Within dec spans children stack
        → Listed visited ordered
        → (visited' ordered' : List SpanId)
        → visit dec fuel children stack visited ordered ≡ some (visited', ordered')
        → Listed visited' ordered'
    unfolding visit contains
    visit-Listed zero children stack visited ordered w l visited' ordered' e = cc
    visit-Listed (suc fuel) children [] visited ordered w l visited' ordered' e =
        Listed-along visited ordered visited' ordered' l e
    visit-Listed (suc fuel) children (span_id ∷ stack) visited ordered w l visited' ordered' e =
        elim (Bool-cases (contains dec span_id visited)) [
          | inl seen ↦
              visit-Listed fuel children stack visited ordered
                (record {
                  of_roots = λ a m. w.of_roots a (contains-cons_of dec span_id a stack m);
                  of_children = w.of_children;
                })
                l visited' ordered' (rw (seen, visit) at e)
          | inr new ↦
              visit-Listed fuel children (children_of dec children span_id ++ stack)
                (span_id ∷ visited) (ordered ++ span_id ∷ [])
                (record {
                  of_roots = λ a m. ground (
                    arith,
                    w.of_roots a,
                    w.of_children span_id a,
                    contains-append dec a (children_of dec children span_id) stack,
                  );
                  of_children = w.of_children;
                })
                (visit-Listed-step span_id visited ordered new
                  (w.of_roots span_id (contains_self dec span_id stack)) l)
                visited' ordered' (rw (new, visit) at e)
        ]

    visit_rest-Listed :
        (rows : Rows SpanId) (visited ordered : List SpanId)
        → Subset dec (keys rows) spans
        → Listed visited ordered
        → Distinct dec (visit_rest dec rows visited ordered)
          × Subset dec (visit_rest dec rows visited ordered) spans
          × Subset dec ordered (visit_rest dec rows visited ordered)
          × Subset dec (keys rows) (visit_rest dec rows visited ordered)
    unfolding visit_rest contains
    visit_rest-Listed [] visited ordered sub l = (l.distinct, l.inside, λ a m. m, λ a m. cc)
    visit_rest-Listed ((span_id, parent) ∷ rows) visited ordered sub l =
        let sub' : Subset dec (keys rows) spans =
          λ a m. sub a (contains-cons_of dec span_id a (keys rows) m) in
        elim (Bool-cases (contains dec span_id visited)) [
          | inl seen ↦
              rw (seen, visit_rest)
                (let (d, i, o, k) = visit_rest-Listed rows visited ordered sub' l in
                  (d, i, o, λ a m. ground (arith, k a, o a, l.same a)))
          | inr new ↦
              rw (new, visit_rest)
                (let (d, i, o, k) =
                    visit_rest-Listed rows (span_id ∷ visited) (ordered ++ span_id ∷ []) sub' (
                      visit-Listed-step span_id visited ordered new
                        (sub span_id (contains_self dec span_id (keys rows))) l) in
                  (
                    d,
                    i,
                    λ a m. o a (ground (arith, contains-append dec a ordered (span_id ∷ []))),
                    λ a m. ground (arith, k a, o a, contains-append dec a ordered (span_id ∷ [])),
                  ))
        ]

  -- `topology_projection` of every trace comes to an end, and the order it gives lists exactly the
  -- spans of the trace, each of them once, whatever their parents are.
  pub topology_projection_complete :
      (topology : Rows SpanId)
      → (p : Projected SpanId) × (topology_projection dec topology ≡ some p)
        × Distinct dec p.ordered
        × ((a : SpanId) → contains dec a p.ordered ≡ contains dec a (keys topology))
  unfolding topology_projection contains
  topology_projection_complete topology =
      let spans = keys topology in
      let depths = (topology_layout dec topology).0 in
      let order = input_order dec 0 topology [] in
      let l =
        link_rows dec depths topology
          (record { children = []; roots = []; parents_with_children = [] }) in
      let roots = sort_by_key dec order l.roots in
      let children = sort_children dec order l.children in
      let (size, d) = sorted_size dec order depths topology in
      let w = sorted-Within dec spans order depths topology (λ a m. m) in
      elim (Option-cases (visit dec (suc (length topology)) children roots [] [])) [
        | inl e ↦
            absurd
              (visit_total (suc (length topology)) children roots [] [] d (omega (arith, size)) e)
        | inr ((visited, ordered), e) ↦
            let l =
              visit-Listed spans (suc (length topology)) children roots [] [] w
                (record { same = λ a. refl; distinct = tt; inside = λ a m. cc }) visited ordered
                e in
            let (d, i, o, k) = visit_rest-Listed spans topology visited ordered (λ a m. m) l in
            (
              record {
                ordered = visit_rest dec topology visited ordered;
                depths = depths;
                parents_with_children =
                    (link_rows dec depths topology (record {
                      children = [];
                      roots = [];
                      parents_with_children = [];
                    })).parents_with_children;
              },
              rw (e, topology_projection) refl,
              d,
              λ a. ground (arith, i a, k a),
            )
      ]
