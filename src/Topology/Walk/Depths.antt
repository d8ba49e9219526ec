-- ===== src/Topology/Walk/Depths.antt =====
-- What the depths that a walk hands out are worth: the number of steps of the chain of parents.
use perseval.Base.{
  ℕ, ◌<◌, ◌≡◌, ◌≢◌, ◌⊎◌, inl, inr, ◌∷◌, List, [], Option, none, some, true, arith, contains, get,
  put, min, sym, saturating_add, u32_max, contains-cons_cases, contains_self, get-put,
  contains-cons_of,
}
use mathlib.Core.Path.{subst}
use perseval.Topology.Walk.{next_depth, flatten, assign}
use perseval.Topology.Walk.Chains.{Chain, Chain-parent, Chain-unique, Linked}

module _ {SpanId : Type 0} (dec : Discrete SpanId) (parents : List (SpanId × Option SpanId)) where
  -- A recorded depth is the length of the span's chain, where it has one, up to saturation.
  pub record Good (resolved : List (SpanId × ℕ)) : Type 0 where
    pub sound :
        (id : SpanId) (d e : ℕ)
        → get dec id resolved ≡ some d
        → Chain dec parents id e
        → d ≡ min e u32_max
    pub within : (id : SpanId) (d : ℕ) → get dec id resolved ≡ some d → get dec id parents ≢ none

  abbrev Right : ℕ → SpanId → Type 0
  Right depth node = (e : ℕ) → Chain dec parents node e → depth ≡ min e u32_max

  put-Good :
      (node : SpanId) (depth : ℕ) (resolved : List (SpanId × ℕ))
      → get dec node parents ≢ none
      → Right depth node
      → Good resolved
      → Good (put dec node depth resolved)
  put-Good node depth resolved present right g = record {
    sound = λ id d e h c. elim (dec node id) [
      | yes p ↦
          let value = right e (subst (λ q. Chain dec parents q e) (sym p) c) in
          ground (arith, get-put dec node id depth resolved)
      | no p ↦ g.sound id d e (ground (arith, get-put dec node id depth resolved)) c
    ];
    within = λ id d h. elim (dec node id) [
      | yes p ↦ subst (λ q. get dec q parents ≢ none) p present
      | no p ↦ g.within id d (ground (arith, get-put dec node id depth resolved))
    ];
  }

  step-Right :
      (node child : SpanId) (depth : ℕ)
      → get dec node parents ≢ none
      → get dec child parents ≡ some (some node)
      → Right depth node
      → Right (saturating_add u32_max depth 1) child
  step-Right node child depth present h right = λ e c.
      let (e', eq, c') = Chain-parent dec parents node c h present in
      ground (arith, eq, right e' c')

  pub assign-Good :
      (next : Option ℕ) (node : SpanId) (path : List SpanId) (resolved : List (SpanId × ℕ))
      → get dec node parents ≢ none
      → Right (next_depth next) node
      → Linked dec parents node path
      → Good resolved
      → Good (assign dec next (node ∷ path) resolved)
  unfolding assign
  assign-Good next node [] resolved present right l g =
      put-Good node (next_depth next) resolved present right g
  assign-Good next node (child ∷ path) resolved present right l g =
      assign-Good (some (saturating_add u32_max (next_depth next) 1)) child path
        (put dec node (next_depth next) resolved) (λ n. ground (arith, l.0))
        (step-Right node child (next_depth next) present l.0 right) l.1
        (put-Good node (next_depth next) resolved present right g)

  Linked-present :
      (current node : SpanId) (path : List SpanId)
      → contains dec node path ≡ true
      → Linked dec parents current path
      → get dec node parents ≢ none
  unfolding contains
  Linked-present current node [] m l = cc
  Linked-present current node (first ∷ path) m l =
      elim (contains-cons_cases dec first node path m) [
        | inl p ↦ subst (λ q. get dec q parents ≢ none) p (λ n. ground (arith, l.0))
        | inr m' ↦ Linked-present first node path m' l.1
      ]

  -- Along the path the chains get shorter.
  Linked-Chain :
      (current node : SpanId) (path : List SpanId) (e : ℕ)
      → get dec current parents ≢ none
      → contains dec node path ≡ true
      → Linked dec parents current path
      → Chain dec parents node e
      → (d : ℕ) × (d < e) × Chain dec parents current d
  unfolding contains
  Linked-Chain current node [] e present m l c = cc
  Linked-Chain current node (first ∷ path) e present m l c =
      elim (contains-cons_cases dec first node path m) [
        | inl p ↦
            let (d, eq, c') =
              Chain-parent dec parents current (subst (λ q. Chain dec parents q e) (sym p) c) l.0
                present in
            (d, omega (arith, eq), c')
        | inr m' ↦
            let (d, lt, c') = Linked-Chain first node path e (λ n. ground (arith, l.0)) m' l.1 c in
            let (d', eq, c'') = Chain-parent dec parents current c' l.0 present in
            (d', omega (arith, lt, eq), c'')
      ]

  -- No span of a path that closes a cycle has a chain.
  cycle-Chain :
      (current node : SpanId) (path : List SpanId) (e : ℕ)
      → contains dec current path ≡ true
      → contains dec node path ≡ true
      → Linked dec parents current path
      → ¬ Chain dec parents node e
  cycle-Chain current node path e closes m l c =
      let present = Linked-present current current path closes l in
      let (d, lt, c') = Linked-Chain current node path e present m l c in
      let (d', lt', c'') = Linked-Chain current current path d present closes l c' in
      absurd (omega (arith, lt', Chain-unique dec parents d' c' c''))

  flatten-Good :
      (path : List SpanId) (resolved : List (SpanId × ℕ))
      → ((node : SpanId) → contains dec node path ≡ true → get dec node parents ≢ none)
      → ((node : SpanId) (e : ℕ) → contains dec node path ≡ true → ¬ Chain dec parents node e)
      → Good resolved
      → Good (flatten dec path resolved)
  unfolding flatten
  flatten-Good [] resolved present none_has g = g
  flatten-Good (node ∷ path) resolved present none_has g =
      let here = contains_self dec node path in
      flatten-Good path (put dec node 0 resolved)
        (λ m h. present m (contains-cons_of dec node m path h))
        (λ m e h. none_has m e (contains-cons_of dec node m path h))
        (put-Good node 0 resolved (present node here) (λ e c. absurd (none_has node e here c)) g)

  pub cycle-Good :
      (current : SpanId) (path : List SpanId) (resolved : List (SpanId × ℕ))
      → contains dec current path ≡ true
      → Linked dec parents current path
      → Good resolved
      → Good (flatten dec path resolved)
  cycle-Good current path resolved closes l g =
      flatten-Good path resolved (λ node m. Linked-present current node path m l)
        (λ node e m. cycle-Chain current node path e closes m l) g

  covered :
      (node : SpanId) (depth : ℕ) (path : List SpanId) (resolved : List (SpanId × ℕ)) (a : SpanId)
      → (contains dec a (node ∷ path) ≡ true) ⊎ (get dec a resolved ≢ none)
      → (contains dec a path ≡ true) ⊎ (get dec a (put dec node depth resolved) ≢ none)
  covered node depth path resolved a (inl m) = elim (contains-cons_cases dec node a path m) [
    | inl p ↦ inr (λ n. ground (arith, get-put dec node a depth resolved))
    | inr m' ↦ inl m'
  ]
  covered node depth path resolved a (inr h) =
      inr (λ n. ground (arith, get-put dec node a depth resolved, h))

  -- Nothing is forgotten, and every span of the path gets a depth.
  pub assign-covers :
      (next : Option ℕ) (path : List SpanId) (resolved : List (SpanId × ℕ)) (a : SpanId)
      → (contains dec a path ≡ true) ⊎ (get dec a resolved ≢ none)
      → get dec a (assign dec next path resolved) ≢ none
  unfolding assign contains
  assign-covers next [] resolved a (inl m) = cc
  assign-covers next [] resolved a (inr h) = h
  assign-covers next (node ∷ path) resolved a h =
      assign-covers (some (saturating_add u32_max (next_depth next) 1)) path
        (put dec node (next_depth next) resolved) a
        (covered node (next_depth next) path resolved a h)

  pub flatten-covers :
      (path : List SpanId) (resolved : List (SpanId × ℕ)) (a : SpanId)
      → (contains dec a path ≡ true) ⊎ (get dec a resolved ≢ none)
      → get dec a (flatten dec path resolved) ≢ none
  unfolding flatten contains
  flatten-covers [] resolved a (inl m) = cc
  flatten-covers [] resolved a (inr h) = h
  flatten-covers (node ∷ path) resolved a h =
      flatten-covers path (put dec node 0 resolved) a (covered node 0 path resolved a h)
