-- ===== src/Topology/Walk.antt =====
-- The loop over a chain of parents that `topology_layout` and `LiveTopologyIndex::depth` of
-- crates/perseval-store/src/workspace/topology.rs share. Span ids are any type with a decidable
-- equality; `known` is the lookup of a depth that an earlier walk found.
pub mod Chains
pub mod Depths
use perseval.Base.{
  ℕ, zero, suc, ◌∷◌, List, [], Option, none, some, Bool, true, false, contains, get, put,
  saturating_add, u32_max,
}

-- How the loop ends: at a known depth or at a root (`known_parent_depth`), or in a cycle. The path
-- is listed with the span that was pushed last in front.
pub data Walk (SpanId : Type 0) : Type 0 where
  reached : Option ℕ → List SpanId → Walk SpanId
  cyclic : List SpanId → Walk SpanId
  out_of_fuel : Walk SpanId

abbrev pub path_of : {SpanId : Type 0} → Walk SpanId → List SpanId
path_of (reached next path) = path
path_of (cyclic path) = path
path_of out_of_fuel = []

-- `next_depth.unwrap_or(0)`
abbrev pub next_depth : Option ℕ → ℕ
next_depth none = 0
next_depth (some depth) = depth

module _ {SpanId : Type 0} (dec : Discrete SpanId) where
  module _ (known : SpanId → Option ℕ) (parents : List (SpanId × Option SpanId)) where
    -- One round for each unit of fuel; `positions` holds the spans seen, `path` those pushed.
    unfoldable pub walk : ℕ → SpanId → List SpanId → List SpanId → Walk SpanId
    walk zero current positions path = out_of_fuel
    walk (suc fuel) current positions path = elim (known current) [
      | some depth ↦ reached (some depth) path
      | none ↦ elim (contains dec current positions) [
        | true ↦ cyclic path
        | false ↦ elim (get dec current parents) [
          | none ↦ reached none path
          | some none ↦ reached none (current ∷ path)
          | some (some parent) ↦ walk fuel parent (current ∷ positions) (current ∷ path)
        ]
      ]
    ]

  -- A cycle leaves every span of the path at root depth.
  unfoldable pub flatten : List SpanId → List (SpanId × ℕ) → List (SpanId × ℕ)
  flatten [] resolved = resolved
  flatten (node ∷ path) resolved = flatten path (put dec node 0 resolved)

  -- Otherwise each span of the path is one deeper than the one after it.
  unfoldable pub assign : Option ℕ → List SpanId → List (SpanId × ℕ) → List (SpanId × ℕ)
  assign next [] resolved = resolved
  assign next (node ∷ path) resolved =
      let depth = next_depth next in
      assign (some (saturating_add u32_max depth 1)) path (put dec node depth resolved)
