-- ===== src/Topology/Layout/Depth.antt =====
-- The layout is right: a span's depth is the length of its chain of parents.
use perseval.Base.{
  ℕ, ◌+◌, ◌≤◌, ◌≡◌, ◌≢◌, ◌⊎◌, inl, inr, ◌∷◌, List, [], none, some, true, arith, contains, get, put,
  keys, length, u32_max, saturating_add, contains-cons_cases, get-put, length-keys-put-le,
}
use perseval.Topology.Walk.{Walk, reached, cyclic, out_of_fuel, assign, path_of}
use perseval.Topology.Walk.Chains.{
  Chain-root, Chain-orphan, Chain-parent, Linked, Ends, at_known, at_missing, at_root, at_cycle,
}
use perseval.Topology.Walk.Depths.{Good, assign-Good, cycle-Good, assign-covers, flatten-covers}
use perseval.Topology.Layout.{Rows, collect, record_walk}

module _ {SpanId : Type 0} (dec : Discrete SpanId) where
  pub length-collect-le :
      (rows parents : Rows SpanId)
      → length (keys (collect dec rows parents)) ≤ length rows + length (keys parents)
  unfolding collect
  length-collect-le [] parents = omega arith
  length-collect-le ((id, parent) ∷ rows) parents = omega (
    arith,
    length-collect-le rows (put dec id parent parents),
    length-keys-put-le dec id parent parents,
  )

  -- Every id of the rows is in the map.
  collect-keeps :
      (rows parents : Rows SpanId) (a : SpanId)
      → get dec a parents ≢ none
      → get dec a (collect dec rows parents) ≢ none
  unfolding collect
  collect-keeps [] parents a h = h
  collect-keeps ((id, parent) ∷ rows) parents a h =
      collect-keeps rows (put dec id parent parents) a
        (λ n. ground (arith, get-put dec id a parent parents, h))

  pub collect-covers :
      (rows parents : Rows SpanId) (a : SpanId)
      → contains dec a (keys rows) ≡ true
      → get dec a (collect dec rows parents) ≢ none
  unfolding collect contains
  collect-covers [] parents a m = cc
  collect-covers ((id, parent) ∷ rows) parents a m =
      elim (contains-cons_cases dec id a (keys rows) m) [
        | inl p ↦
            collect-keeps rows (put dec id parent parents) a
              (λ n. ground (arith, get-put dec id a parent parents))
        | inr m' ↦ collect-covers rows (put dec id parent parents) a m'
      ]

  module _ (parents : Rows SpanId) where
    known_step :
        (current : SpanId) (path : List SpanId) (d : ℕ) (resolved : List (SpanId × ℕ))
        → get dec current resolved ≡ some d
        → Linked dec parents current path
        → Good dec parents resolved
        → Good dec parents (assign dec (some (saturating_add u32_max d 1)) path resolved)
    unfolding assign
    known_step current [] d resolved k l g = g
    known_step current (node ∷ path) d resolved k l g =
        assign-Good dec parents (some (saturating_add u32_max d 1)) node path resolved
          (λ n. ground (arith, l.0))
          (λ e c.
            let (e', eq, c') = Chain-parent dec parents current c l.0 (g.within current d k) in
            ground (arith, eq, g.sound current d e' k c'))
          l.1 g

    missing_step :
        (current : SpanId) (path : List SpanId) (resolved : List (SpanId × ℕ))
        → get dec current parents ≡ none
        → Linked dec parents current path
        → Good dec parents resolved
        → Good dec parents (assign dec none path resolved)
    unfolding assign
    missing_step current [] resolved m l g = g
    missing_step current (node ∷ path) resolved m l g =
        assign-Good dec parents none node path resolved (λ n. ground (arith, l.0))
          (λ e c. ground (arith, Chain-orphan dec parents current c l.0 m)) l.1 g

    pub record_walk-Good :
        (w : Walk SpanId) (resolved : List (SpanId × ℕ))
        → Ends dec parents (λ a. get dec a resolved) w
        → Good dec parents resolved
        → Good dec parents (record_walk dec w resolved)
    unfolding record_walk
    record_walk-Good _ resolved (at_known current path d k l) g =
        known_step current path d resolved k l g
    record_walk-Good _ resolved (at_missing current path m l) g =
        missing_step current path resolved m l g
    record_walk-Good _ resolved (at_root current path r l) g =
        assign-Good dec parents none current path resolved (λ n. ground arith)
          (λ e c. ground (arith, Chain-root dec parents c r)) l g
    record_walk-Good _ resolved (at_cycle current path closes l) g =
        cycle-Good dec parents current path resolved closes l g

    pub record_walk-covers :
        (w : Walk SpanId) (resolved : List (SpanId × ℕ)) (a : SpanId)
        → (contains dec a (path_of w) ≡ true) ⊎ (get dec a resolved ≢ none)
        → get dec a (record_walk dec w resolved) ≢ none
    unfolding record_walk contains
    record_walk-covers (reached none path) resolved a h =
        assign-covers dec parents none path resolved a h
    record_walk-covers (reached (some d) path) resolved a h =
        assign-covers dec parents (some (saturating_add u32_max d 1)) path resolved a h
    record_walk-covers (cyclic path) resolved a h = flatten-covers dec parents path resolved a h
    record_walk-covers out_of_fuel resolved a (inl m) = cc
    record_walk-covers out_of_fuel resolved a (inr h) = h
