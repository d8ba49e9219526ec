-- ===== src/Topology/Layout.antt =====
-- `topology_layout` of crates/perseval-store/src/workspace/topology.rs: the depth of every span of
-- a trace, and the spans that some span names as its parent.
pub mod Depth
pub mod Correct
use perseval.Base.{
  ℕ, suc, ◌∷◌, List, [], Option, none, some, contains, include, get, put, length, saturating_add,
  u32_max,
}
use perseval.Topology.Walk.{Walk, reached, cyclic, out_of_fuel, walk, next_depth, flatten, assign}

-- The rows of a trace: span ids with their parents.
abbrev pub Rows : Type 0 → Type 0
Rows SpanId = List (SpanId × Option SpanId)

module _ {SpanId : Type 0} (dec : Discrete SpanId) where
  -- `collect` into a hash map: of two rows with one id the later one stays.
  unfoldable pub collect : Rows SpanId → Rows SpanId → Rows SpanId
  collect [] parents = parents
  collect ((id, parent) ∷ rows) parents = collect rows (put dec id parent parents)

  unfoldable pub named_parents : Rows SpanId → List SpanId
  named_parents [] = []
  named_parents ((_, none) ∷ rows) = named_parents rows
  named_parents ((_, some parent) ∷ rows) = include dec parent (named_parents rows)

  -- What the loop does with the end of a walk; `known_parent_depth.map(|depth| depth + 1)`.
  unfoldable pub record_walk : Walk SpanId → List (SpanId × ℕ) → List (SpanId × ℕ)
  record_walk (reached none path) resolved = assign dec none path resolved
  record_walk (reached (some depth) path) resolved =
      assign dec (some (saturating_add u32_max depth 1)) path resolved
  record_walk (cyclic path) resolved = flatten dec path resolved
  record_walk out_of_fuel resolved = resolved

  -- The body of the loop over the rows. The fuel is above the number of keys of `parents`.
  unfoldable pub resolve_row : ℕ → Rows SpanId → SpanId → List (SpanId × ℕ) → List (SpanId × ℕ)
  unfolding record_walk
  resolve_row fuel parents id resolved = elim (get dec id resolved) [
    | some _ ↦ resolved
    | none ↦ record_walk (walk dec (λ a. get dec a resolved) parents fuel id [] []) resolved
  ]

  unfoldable pub resolve : ℕ → Rows SpanId → Rows SpanId → List (SpanId × ℕ) → List (SpanId × ℕ)
  unfolding resolve_row
  resolve fuel parents [] resolved = resolved
  resolve fuel parents ((id, _) ∷ rows) resolved =
      resolve fuel parents rows (resolve_row fuel parents id resolved)

  -- `resolved.get(id).copied().unwrap_or(0)` for each row.
  unfoldable pub collect_depths : Rows SpanId → List (SpanId × ℕ) → List (SpanId × ℕ)
  collect_depths [] resolved = []
  collect_depths ((id, _) ∷ rows) resolved =
      put dec id (next_depth (get dec id resolved)) (collect_depths rows resolved)

  unfoldable pub topology_layout : Rows SpanId → List (SpanId × ℕ) × List SpanId
  unfolding collect resolve collect_depths named_parents
  topology_layout topology =
      let parents = collect topology [] in
      let resolved = resolve (suc (length topology)) parents topology [] in
      (collect_depths topology resolved, named_parents topology)
