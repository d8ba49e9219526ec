-- ===== src/Topology/Projection.antt =====
-- `topology_projection` of crates/perseval-store/src/workspace/topology.rs: the depth-first order in
-- which a finalized trace is shown.
pub mod Sizes
pub mod Members
pub mod Order
use perseval.Base.{
  ℕ, zero, suc, ◌+◌, ◌∷◌, ◌++◌, List, [], Option, none, some, Bool, true, false, leb, if◌then◌else◌,
  contains, include, get, put, length, saturating_add, u32_max, u64_max, ◌==◌,
}
use perseval.Topology.Layout.{Rows, topology_layout}

-- The maps and lists that the loop over the rows fills.
pub record Links (SpanId : Type 0) : Type 0 where
  pub children : List (SpanId × List SpanId)
  pub roots : List SpanId
  pub parents_with_children : List SpanId

pub record Projected (SpanId : Type 0) : Type 0 where
  pub ordered : List SpanId
  pub depths : List (SpanId × ℕ)
  pub parents_with_children : List SpanId

module _ {SpanId : Type 0} (dec : Discrete SpanId) where
  -- `enumerate` and `collect`: of two rows with one id the later index stays.
  unfoldable pub input_order : ℕ → Rows SpanId → List (SpanId × ℕ) → List (SpanId × ℕ)
  input_order index [] order = order
  input_order index ((id, _) ∷ rows) order = input_order (suc index) rows (put dec id index order)

  abbrev pub sort_key : List (SpanId × ℕ) → SpanId → ℕ
  sort_key order id = elim (get dec id order) [ none ↦ u64_max | some index ↦ index ]

  -- `sort_by_key` is stable; here as an insertion sort.
  unfoldable pub insert_by_key : List (SpanId × ℕ) → SpanId → List SpanId → List SpanId
  insert_by_key order id [] = id ∷ []
  insert_by_key order id (other ∷ rest) =
      let after = insert_by_key order id rest in
      if leb (sort_key order id) (sort_key order other) then id ∷ other ∷ rest else other ∷ after

  unfoldable pub sort_by_key : List (SpanId × ℕ) → List SpanId → List SpanId
  sort_by_key order [] = []
  sort_by_key order (id ∷ rest) = insert_by_key order id (sort_by_key order rest)

  unfoldable pub sort_children :
      List (SpanId × ℕ) → List (SpanId × List SpanId) → List (SpanId × List SpanId)
  sort_children order [] = []
  sort_children order ((parent, child_ids) ∷ rest) =
      (parent, sort_by_key order child_ids) ∷ sort_children order rest

  -- The parent counts only if it is exactly one level up.
  unfoldable pub valid_parent : List (SpanId × ℕ) → SpanId → Option SpanId → Option SpanId
  valid_parent depths span_id none = none
  valid_parent depths span_id (some parent) = elim (get dec parent depths) [
    | none ↦ none
    | some parent_depth ↦ elim (get dec span_id depths) [
      | none ↦ none
      | some depth ↦ if depth == saturating_add u32_max parent_depth 1 then some parent else none
    ]
  ]

  abbrev pub children_of : List (SpanId × List SpanId) → SpanId → List SpanId
  children_of children id = elim (get dec id children) [ none ↦ [] | some child_ids ↦ child_ids ]

  unfoldable pub link_row : Option SpanId → SpanId → Links SpanId → Links SpanId
  link_row none span_id l = record l { roots = l.roots ++ span_id ∷ [] }
  link_row (some parent) span_id l = record l {
    children = put dec parent (children_of l.children parent ++ span_id ∷ []) l.children;
    parents_with_children = include dec parent l.parents_with_children;
  }

  unfoldable pub link_rows : List (SpanId × ℕ) → Rows SpanId → Links SpanId → Links SpanId
  unfolding valid_parent link_row
  link_rows depths [] l = l
  link_rows depths ((span_id, parent) ∷ rows) l =
      link_rows depths rows (link_row (valid_parent depths span_id parent) span_id l)

  -- The loop over the stack, the top in front; a span that is popped again is skipped. `none` means
  -- that the fuel ran out.
  unfoldable pub visit :
      ℕ
      → List (SpanId × List SpanId)
      → List SpanId
      → List SpanId
      → List SpanId
      → Option (List SpanId × List SpanId)
  visit zero children stack visited ordered = none
  visit (suc fuel) children [] visited ordered = some (visited, ordered)
  visit (suc fuel) children (span_id ∷ stack) visited ordered =
      elim (contains dec span_id visited) [
        | true ↦ visit fuel children stack visited ordered
        | false ↦
            visit fuel children (children_of children span_id ++ stack) (span_id ∷ visited)
              (ordered ++ span_id ∷ [])
      ]

  -- The last loop: what the stack did not reach.
  unfoldable pub visit_rest : Rows SpanId → List SpanId → List SpanId → List SpanId
  visit_rest [] visited ordered = ordered
  visit_rest ((span_id, _) ∷ rows) visited ordered = elim (contains dec span_id visited) [
    | true ↦ visit_rest rows visited ordered
    | false ↦ visit_rest rows (span_id ∷ visited) (ordered ++ span_id ∷ [])
  ]

  -- The fuel is above the number of entries that the stack can ever get.
  unfoldable pub topology_projection : Rows SpanId → Option (Projected SpanId)
  unfolding link_rows visit visit_rest input_order sort_by_key insert_by_key sort_children
  topology_projection topology =
      let depths = (topology_layout dec topology).0 in
      let order = input_order 0 topology [] in
      let links =
        link_rows depths topology
          (record { children = []; roots = []; parents_with_children = [] }) in
      let roots = sort_by_key order links.roots in
      let children = sort_children order links.children in
      elim (visit (suc (length topology)) children roots [] []) [
        | none ↦ none
        | some (visited, ordered) ↦ some (record {
          ordered = visit_rest topology visited ordered;
          depths = depths;
          parents_with_children = links.parents_with_children;
        })
      ]
