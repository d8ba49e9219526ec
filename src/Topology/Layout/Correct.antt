-- ===== src/Topology/Layout/Correct.antt =====
-- `topology_layout` against the chains of parents.
use perseval.Base.{
  ℕ, suc, ◌<◌, ◌≡◌, ◌≢◌, ◌⊎◌, inl, inr, ◌∷◌, List, [], none, some, true, arith, contains, get, keys,
  length, Option-cases, min, u32_max, contains_self, get-put, contains-cons_of, contains-cons_cases,
}
use perseval.Topology.Walk.{walk, next_depth, path_of}
use perseval.Topology.Walk.Chains.{Chain, Ends, walk-Ends, walk-start, Ends-ended}
use perseval.Topology.Walk.Depths.{Good}
use perseval.Topology.Layout.{Rows, collect, resolve_row, resolve, collect_depths, topology_layout}
use perseval.Topology.Layout.Depth.{
  length-collect-le, collect-covers, record_walk-Good, record_walk-covers,
}

module _ {SpanId : Type 0} (dec : Discrete SpanId) where
  module _ (fuel : ℕ) (parents : Rows SpanId) (enough : length (keys parents) < fuel) where
    start-Ends :
        (id : SpanId) (resolved : List (SpanId × ℕ))
        → Ends dec parents
            (λ a. get dec a resolved)
            (walk dec (λ a. get dec a resolved) parents fuel id [] [])
    unfolding contains
    start-Ends id resolved =
        walk-Ends dec parents (λ a. get dec a resolved) fuel id [] tt (λ a m. cc) (omega arith) tt

    resolve_row-Good :
        (id : SpanId) (resolved : List (SpanId × ℕ))
        → Good dec parents resolved
        → Good dec parents (resolve_row dec fuel parents id resolved)
    unfolding resolve_row
    resolve_row-Good id resolved g = elim (Option-cases (get dec id resolved)) [
      | inr (d, e) ↦ rw (e, resolve_row) g
      | inl e ↦
          rw (e, resolve_row) (record_walk-Good dec parents _ resolved (start-Ends id resolved) g)
    ]

    -- The first round pushes the span itself.
    start_covers :
        (id : SpanId) (resolved : List (SpanId × ℕ))
        → get dec id resolved ≡ none
        → get dec id parents ≢ none
        → contains dec id (path_of (walk dec (λ a. get dec a resolved) parents fuel id [] []))
          ≡ true
    start_covers id resolved new present =
        walk-start dec parents (λ a. get dec a resolved) fuel id new present
          (Ends-ended dec parents (λ a. get dec a resolved) _ (start-Ends id resolved))

    resolve_row-covers :
        (id a : SpanId) (resolved : List (SpanId × ℕ))
        → get dec id parents ≢ none
        → (id ≡ a) ⊎ (get dec a resolved ≢ none)
        → get dec a (resolve_row dec fuel parents id resolved) ≢ none
    unfolding resolve_row
    resolve_row-covers id a resolved present h = elim (Option-cases (get dec id resolved)) [
      | inr (d, e) ↦ rw (e, resolve_row) (elim h [ inl p ↦ λ n. ground arith | inr k ↦ k ])
      | inl e ↦
          rw (e, resolve_row)
            (record_walk-covers dec parents _ resolved a (elim h [
              | inl p ↦ inl (rw (← p) (start_covers id resolved e present))
              | inr k ↦ inr k
            ]))
    ]

    resolve-Good :
        (rows : Rows SpanId) (resolved : List (SpanId × ℕ))
        → Good dec parents resolved
        → Good dec parents (resolve dec fuel parents rows resolved)
    unfolding resolve
    resolve-Good [] resolved g = g
    resolve-Good ((id, _) ∷ rows) resolved g =
        resolve-Good rows (resolve_row dec fuel parents id resolved)
          (resolve_row-Good id resolved g)

    resolve-covers :
        (rows : Rows SpanId) (a : SpanId) (resolved : List (SpanId × ℕ))
        → ((id : SpanId) → contains dec id (keys rows) ≡ true → get dec id parents ≢ none)
        → (contains dec a (keys rows) ≡ true) ⊎ (get dec a resolved ≢ none)
        → get dec a (resolve dec fuel parents rows resolved) ≢ none
    unfolding resolve contains
    resolve-covers [] a resolved present (inl m) = cc
    resolve-covers [] a resolved present (inr h) = h
    resolve-covers ((id, parent) ∷ rows) a resolved present h =
        resolve-covers rows a (resolve_row dec fuel parents id resolved)
          (λ b m. present b (contains-cons_of dec id b (keys rows) m))
          (elim h [
            | inr k ↦ inr (resolve_row-covers id a resolved here (inr k))
            | inl m ↦ elim (contains-cons_cases dec id a (keys rows) m) [
              | inl p ↦ inr (resolve_row-covers id a resolved here (inl p))
              | inr m' ↦ inl m'
            ]
          ])
      where
        here : get dec id parents ≢ none
        here = present id (contains_self dec id (keys rows))

  get-collect_depths :
      (rows : Rows SpanId) (resolved : List (SpanId × ℕ)) (a : SpanId)
      → contains dec a (keys rows) ≡ true
      → get dec a (collect_depths dec rows resolved) ≡ some (next_depth (get dec a resolved))
  unfolding collect_depths contains
  get-collect_depths [] resolved a m = cc
  get-collect_depths ((id, parent) ∷ rows) resolved a m = ground (
    arith,
    get-collect_depths rows resolved a,
    get-put dec id a (next_depth (get dec id resolved)) (collect_depths dec rows resolved),
  )

  -- Every span of the trace gets a depth, and where its parents end at a root or at a missing
  -- parent, that depth is their number, up to the largest 32-bit one.
  pub topology_layout_depth :
      (topology : Rows SpanId) (id : SpanId)
      → contains dec id (keys topology) ≡ true
      → (d : ℕ) × (get dec id (topology_layout dec topology).0 ≡ some d)
        × ((e : ℕ) → Chain dec (collect dec topology []) id e → d ≡ min e u32_max)
  unfolding topology_layout get
  topology_layout_depth topology id m =
      let parents = collect dec topology [] in
      let fuel = suc (length topology) in
      let enough : length (keys parents) < fuel =
        omega (arith, length-collect-le dec topology []) in
      let resolved = resolve dec fuel parents topology [] in
      let good : Good dec parents resolved =
        resolve-Good fuel parents enough topology []
          (record { sound = λ a d e h c. absurd (ground arith); within = λ a d h. cc }) in
      let present : get dec id resolved ≢ none =
        resolve-covers fuel parents enough topology id [] (λ a. collect-covers dec topology [] a)
          (inl m) in
      elim (Option-cases (get dec id resolved)) [
        | inl n ↦ absurd (present n)
        | inr (d, h) ↦ (
          d,
          ground (arith, get-collect_depths topology resolved id m),
          λ e c. good.sound id d e h c,
        )
      ]
