-- ===== src/Topology/Tests.antt =====
-- The topology of concrete traces.
use perseval.Topology.Walk.{assign, walk}
use perseval.Base.{
  include, del, put, ℕ, ◌≡◌, refl, [], ◌∷◌, none, some, true, false, ℕ_discrete, arith, Distinct,
  contains, get, keys, min, u32_max, ◌↔◌, ◌<◌,
}
use perseval.Topology.Walk.Chains.{Chain}
use perseval.Topology.Layout.{Rows, collect, topology_layout}
use perseval.Topology.Layout.Correct.{topology_layout_depth}
use perseval.Topology.Projection.{Projected, topology_projection}
use perseval.Topology.Projection.Order.{topology_projection_complete}
use perseval.Topology.Live.{LiveTopologyIndex, empty_index, apply, annotation}
use perseval.Topology.Live.Counts.{children_number}
use perseval.Topology.Live.Valid.{IsValid, empty_index-IsValid, apply-IsValid, annotation_right}

-- A root, two children, and a grandchild under the first.
abbrev subtrees : Rows ℕ
subtrees = (1, none) ∷ (2, some 1) ∷ (3, some 1) ∷ (4, some 2) ∷ []

-- `finalized_projection_is_depth_first_even_when_timestamps_interleave_subtrees`
order_test :
    topology_projection ℕ_discrete subtrees
    ≡ some (record {
      ordered = 1 ∷ 2 ∷ 4 ∷ 3 ∷ [];
      depths = (topology_layout ℕ_discrete subtrees).0;
      parents_with_children = 2 ∷ 1 ∷ [];
    })
unfolding topology_projection topology_layout get put ℕ_discrete del walk contains assign include
order_test = refl

topology_layout_depth_example :
    (d : ℕ) × (get ℕ_discrete 4 (topology_layout ℕ_discrete subtrees).0 ≡ some d)
    × ((e : ℕ) → Chain ℕ_discrete (collect ℕ_discrete subtrees []) 4 e → d ≡ min e u32_max)
unfolding contains ℕ_discrete
topology_layout_depth_example = topology_layout_depth ℕ_discrete subtrees 4 refl

topology_projection_complete_example :
    (p : Projected ℕ) × (topology_projection ℕ_discrete subtrees ≡ some p)
    × Distinct ℕ_discrete p.ordered
    × ((a : ℕ) → contains ℕ_discrete a p.ordered ≡ contains ℕ_discrete a (keys subtrees))
topology_projection_complete_example = topology_projection_complete ℕ_discrete subtrees

abbrev live : LiveTopologyIndex ℕ
live = apply ℕ_discrete subtrees empty_index

abbrev live-IsValid : IsValid ℕ_discrete live
live-IsValid =
    apply-IsValid ℕ_discrete subtrees empty_index (omega arith) (empty_index-IsValid ℕ_discrete)

live_test : (live.generation ≡ 1) × (get ℕ_discrete 2 live.parents ≡ some (some 1))
unfolding apply get put del ℕ_discrete
live_test = (refl, refl)

-- A span that moves takes its depth along.
annotation_test :
    (annotation ℕ_discrete 4 (apply ℕ_discrete ((2, some 3) ∷ []) live)).1 ≡ (3, false)
unfolding annotation apply get put ℕ_discrete del walk contains
annotation_test = refl

apply-IsValid_example : IsValid ℕ_discrete (apply ℕ_discrete ((2, some 3) ∷ []) live)
apply-IsValid_example =
    apply-IsValid ℕ_discrete ((2, some 3) ∷ []) live (omega (arith, live_test.0)) live-IsValid

annotation_right_example :
    let (next, (d, has_children)) = annotation ℕ_discrete 2 live in
    IsValid ℕ_discrete next
    × ((e : ℕ) → Chain ℕ_discrete live.parents 2 e → d ≡ min e u32_max)
    × ((has_children ≡ true) ↔ (0 < children_number ℕ_discrete 2 live.parents))
annotation_right_example =
    annotation_right ℕ_discrete 2 live live-IsValid (λ p. ground (arith, live_test.1))
