-- ===== src/Topology/Live.antt =====
-- `LiveTopologyIndex` of crates/perseval-store/src/workspace/topology.rs: the topology of a trace
-- that still grows. A count of children is a natural number; the generation is a u64.
pub mod Counts
pub mod Fresh
pub mod Valid
use perseval.Base.{
  ℕ, ◌∷◌, List, [], Option, none, some, Bool, true, false, get, put, del, length, if◌then◌else◌,
  ltb, saturating_add, suc, ◌||◌, u32_max, wrapping_add, ◌+◌, ◌-◌, ◌==◌,
}
use perseval.Topology.Walk.{Walk, reached, cyclic, out_of_fuel, walk, next_depth}
use perseval.Topology.Layout.{Rows}

-- A cached depth stands with the generation it was found in.
abbrev pub DepthCache : Type 0 → Type 0
DepthCache SpanId = List (SpanId × (ℕ × ℕ))

pub record LiveTopologyIndex (SpanId : Type 0) : Type 0 where
  pub parents : Rows SpanId
  pub child_counts : List (SpanId × ℕ)
  pub depth_cache : DepthCache SpanId
  pub generation : ℕ

abbrev pub empty_index : {SpanId : Type 0} → LiveTopologyIndex SpanId
empty_index = record { parents = []; child_counts = []; depth_cache = []; generation = 0 }

-- A cache entry counts only at the current generation.
abbrev pub at_generation : ℕ → Option (ℕ × ℕ) → Option ℕ
at_generation generation none = none
at_generation generation (some (g, depth)) = if g == generation then some depth else none

-- `map(|(_, depth)| *depth).unwrap_or_default()`
abbrev pub cached : Option (ℕ × ℕ) → ℕ
cached none = 0
cached (some (_, depth)) = depth

module _ {SpanId : Type 0} (dec : Discrete SpanId) where
  -- `previous.as_ref() == Some(&parent_span_id)`
  unfoldable pub unchanged : Option (Option SpanId) → Option SpanId → Bool
  unchanged none parent = false
  unchanged (some none) none = true
  unchanged (some none) (some parent) = false
  unchanged (some (some previous)) none = false
  unchanged (some (some previous)) (some parent) = elim (dec previous parent) [
    | yes _ ↦ true
    | no _ ↦ false
  ]

  unfoldable pub lower_count : SpanId → Option ℕ → List (SpanId × ℕ) → List (SpanId × ℕ)
  lower_count previous_parent none counts = counts
  lower_count previous_parent (some count) counts =
      if count - 1 == 0
      then del dec previous_parent counts
      else put dec previous_parent (count - 1) counts

  -- The previous parent loses a child.
  unfoldable pub forget_parent : Option (Option SpanId) → List (SpanId × ℕ) → List (SpanId × ℕ)
  unfolding lower_count
  forget_parent none counts = counts
  forget_parent (some none) counts = counts
  forget_parent (some (some previous_parent)) counts =
      lower_count previous_parent (get dec previous_parent counts) counts

  -- `*self.child_counts.entry(parent_span_id).or_default() += 1`
  unfoldable pub count_parent : Option SpanId → List (SpanId × ℕ) → List (SpanId × ℕ)
  count_parent none counts = counts
  count_parent (some parent) counts = put dec parent (next_depth (get dec parent counts) + 1) counts

  -- One row of `apply`; the flag says whether the row changed anything.
  unfoldable pub apply_row :
      SpanId → Option SpanId → LiveTopologyIndex SpanId → LiveTopologyIndex SpanId × Bool
  unfolding unchanged forget_parent count_parent
  apply_row span_id parent index =
      let previous = get dec span_id index.parents in
      let parents = put dec span_id parent index.parents in
      if unchanged previous parent then (record index { parents = parents }, false) else (
        record index {
          parents = parents;
          child_counts = count_parent parent (forget_parent previous index.child_counts);
        },
        true,
      )

  unfoldable pub apply_rows :
      Rows SpanId → LiveTopologyIndex SpanId → Bool → LiveTopologyIndex SpanId × Bool
  unfolding apply_row
  apply_rows [] index changed = (index, changed)
  apply_rows ((span_id, parent) ∷ rows) index changed =
      let (next, here) = apply_row span_id parent index in apply_rows rows next (changed || here)

  unfoldable pub apply : Rows SpanId → LiveTopologyIndex SpanId → LiveTopologyIndex SpanId
  unfolding apply_rows
  apply rows index =
      let (next, changed) = apply_rows rows index false in
      if changed then record next { generation = wrapping_add next.generation 1 } else next

  unfoldable pub from_rows : Rows SpanId → LiveTopologyIndex SpanId
  unfolding apply
  from_rows rows = apply rows empty_index

  abbrev pub known_depth : LiveTopologyIndex SpanId → SpanId → Option ℕ
  known_depth index id = at_generation index.generation (get dec id index.depth_cache)

  unfoldable pub cache_flat : ℕ → List SpanId → DepthCache SpanId → DepthCache SpanId
  cache_flat generation [] cache = cache
  cache_flat generation (member ∷ path) cache =
      cache_flat generation path (put dec member (generation, 0) cache)

  unfoldable pub cache_path : ℕ → Option ℕ → List SpanId → DepthCache SpanId → DepthCache SpanId
  cache_path generation next [] cache = cache
  cache_path generation next (member ∷ path) cache =
      let depth = next_depth next in
      cache_path generation (some (saturating_add u32_max depth 1)) path
        (put dec member (generation, depth) cache)

  -- What `depth` does with the end of the loop.
  unfoldable pub cache_walk : ℕ → Walk SpanId → DepthCache SpanId → DepthCache SpanId
  unfolding cache_flat cache_path
  cache_walk generation (reached none path) cache = cache_path generation none path cache
  cache_walk generation (reached (some depth) path) cache =
      cache_path generation (some (saturating_add u32_max depth 1)) path cache
  cache_walk generation (cyclic path) cache = cache_flat generation path cache
  cache_walk generation out_of_fuel cache = cache

  -- The fuel is above the number of keys of `parents`.
  unfoldable pub depth : SpanId → LiveTopologyIndex SpanId → LiveTopologyIndex SpanId × ℕ
  unfolding cache_walk
  depth span_id index = elim (known_depth index span_id) [
    | some found ↦ (index, found)
    | none ↦
        let fuel = suc (length index.parents) in
        let end = walk dec (known_depth index) index.parents fuel span_id [] [] in
        let cache = cache_walk index.generation end index.depth_cache in
        (record index { depth_cache = cache }, cached (get dec span_id cache))
  ]

  unfoldable pub annotation :
      SpanId → LiveTopologyIndex SpanId → LiveTopologyIndex SpanId × (ℕ × Bool)
  unfolding depth
  annotation span_id index =
      let (next, found) = depth span_id index in
      (next, (found, ltb 0 (next_depth (get dec span_id next.child_counts))))
