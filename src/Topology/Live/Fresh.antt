-- ===== src/Topology/Live/Fresh.antt =====
-- The entries of the depth cache that are current, as a map of depths.
use perseval.Base.{
  ℕ, refl, List, [], ◌∷◌, Option, none, some, true, false, get, put, del, keys, Distinct, inl, inr,
  Option-cases, arith, get-put, Bool, put-Distinct, saturating_add, ◌<◌, ◌==◌, ◌≡◌,
  get-none_of_contains, u32_max, ◌∙◌, ◌≤◌, ap,
}
use perseval.Topology.Walk.{Walk, reached, cyclic, out_of_fuel, next_depth, flatten, assign}
use perseval.Topology.Layout.{record_walk}
use perseval.Topology.Live.{DepthCache, at_generation, cache_flat, cache_path, cache_walk}

module _ {SpanId : Type 0} (dec : Discrete SpanId) where
  abbrev keep_if : Bool → SpanId → ℕ → List (SpanId × ℕ) → List (SpanId × ℕ)
  keep_if true id depth rest = (id, depth) ∷ rest
  keep_if false id depth rest = rest

  unfoldable pub fresh : ℕ → DepthCache SpanId → List (SpanId × ℕ)
  fresh generation [] = []
  fresh generation ((id, (g, depth)) ∷ cache) =
      keep_if (g == generation) id depth (fresh generation cache)

  pub get-fresh :
      (generation : ℕ) (a : SpanId) (cache : DepthCache SpanId)
      → Distinct dec (keys cache)
      → get dec a (fresh generation cache) ≡ at_generation generation (get dec a cache)
  unfolding fresh get
  get-fresh generation a [] d = refl
  get-fresh generation a ((id, (g, depth)) ∷ cache) d =
      ground (arith, get-fresh generation a cache d.1, get-none_of_contains dec id cache d.0)

  fresh-del :
      (generation : ℕ) (a : SpanId) (cache : DepthCache SpanId)
      → fresh generation (del dec a cache) ≡ del dec a (fresh generation cache)
  unfolding fresh del
  fresh-del generation a [] = refl
  fresh-del generation a ((id, (g, depth)) ∷ cache) = ground (arith, fresh-del generation a cache)

  fresh-put :
      (generation depth : ℕ) (a : SpanId) (cache : DepthCache SpanId)
      → fresh generation (put dec a (generation, depth) cache)
        ≡ put dec a depth (fresh generation cache)
  unfolding fresh put
  fresh-put generation depth a cache = ground (arith, fresh-del generation a cache)

  fresh-flat :
      (generation : ℕ) (path : List SpanId) (cache : DepthCache SpanId)
      → fresh generation (cache_flat dec generation path cache)
        ≡ flatten dec path (fresh generation cache)
  unfolding cache_flat flatten
  fresh-flat generation [] cache = refl
  fresh-flat generation (a ∷ path) cache =
      fresh-flat generation path (put dec a (generation, 0) cache)
      ∙ ap (flatten dec path) (fresh-put generation 0 a cache)

  fresh-path :
      (generation : ℕ) (next : Option ℕ) (path : List SpanId) (cache : DepthCache SpanId)
      → fresh generation (cache_path dec generation next path cache)
        ≡ assign dec next path (fresh generation cache)
  unfolding cache_path assign
  fresh-path generation next [] cache = refl
  fresh-path generation next (a ∷ path) cache =
      let later = some (saturating_add u32_max (next_depth next) 1) in
      fresh-path generation later path (put dec a (generation, next_depth next) cache)
      ∙ ap (assign dec later path) (fresh-put generation (next_depth next) a cache)

  -- The cache records a walk as `topology_layout` records it.
  pub fresh-walk :
      (generation : ℕ) (w : Walk SpanId) (cache : DepthCache SpanId)
      → fresh generation (cache_walk dec generation w cache)
        ≡ record_walk dec w (fresh generation cache)
  unfolding cache_walk record_walk
  fresh-walk generation (reached none path) cache = fresh-path generation none path cache
  fresh-walk generation (reached (some depth) path) cache =
      fresh-path generation (some (saturating_add u32_max depth 1)) path cache
  fresh-walk generation (cyclic path) cache = fresh-flat generation path cache
  fresh-walk generation out_of_fuel cache = refl

  -- No entry is from a later generation than this.
  abbrev pub Aged : ℕ → DepthCache SpanId → Type 0
  Aged generation cache = (a : SpanId) (g d : ℕ) → get dec a cache ≡ some (g, d) → g ≤ generation

  put-Aged :
      (generation depth : ℕ) (a : SpanId) (cache : DepthCache SpanId)
      → Aged generation cache
      → Aged generation (put dec a (generation, depth) cache)
  put-Aged generation depth a cache old =
      λ b g d h. ground (arith, old b g d, get-put dec a b (generation, depth) cache)

  pub record Sound (generation : ℕ) (cache : DepthCache SpanId) : Type 0 where
    pub distinct : Distinct dec (keys cache)
    pub aged : Aged generation cache

  put-Sound :
      (generation depth : ℕ) (a : SpanId) (cache : DepthCache SpanId)
      → Sound generation cache
      → Sound generation (put dec a (generation, depth) cache)
  put-Sound generation depth a cache s = record {
    distinct = put-Distinct dec a (generation, depth) cache s.distinct;
    aged = put-Aged generation depth a cache s.aged;
  }

  flat-Sound :
      (generation : ℕ) (path : List SpanId) (cache : DepthCache SpanId)
      → Sound generation cache
      → Sound generation (cache_flat dec generation path cache)
  unfolding cache_flat
  flat-Sound generation [] cache s = s
  flat-Sound generation (a ∷ path) cache s =
      flat-Sound generation path (put dec a (generation, 0) cache)
        (put-Sound generation 0 a cache s)

  path-Sound :
      (generation : ℕ) (next : Option ℕ) (path : List SpanId) (cache : DepthCache SpanId)
      → Sound generation cache
      → Sound generation (cache_path dec generation next path cache)
  unfolding cache_path
  path-Sound generation next [] cache s = s
  path-Sound generation next (a ∷ path) cache s =
      path-Sound generation (some (saturating_add u32_max (next_depth next) 1)) path
        (put dec a (generation, next_depth next) cache)
        (put-Sound generation (next_depth next) a cache s)

  pub walk-Sound :
      (generation : ℕ) (w : Walk SpanId) (cache : DepthCache SpanId)
      → Sound generation cache
      → Sound generation (cache_walk dec generation w cache)
  unfolding cache_walk
  walk-Sound generation (reached none path) cache s = path-Sound generation none path cache s
  walk-Sound generation (reached (some depth) path) cache s =
      path-Sound generation (some (saturating_add u32_max depth 1)) path cache s
  walk-Sound generation (cyclic path) cache s = flat-Sound generation path cache s
  walk-Sound generation out_of_fuel cache s = s

  -- At a later generation nothing of the cache is current.
  pub fresh_later :
      (generation later : ℕ) (cache : DepthCache SpanId)
      → Sound generation cache
      → generation < later
      → (a : SpanId) → get dec a (fresh later cache) ≡ none
  fresh_later generation later cache s lt a =
      get-fresh later a cache s.distinct ∙ (elim (Option-cases (get dec a cache)) [
        | inl e ↦ rw e refl
        | inr ((g, d), e) ↦ let le = s.aged a g d e in rw e (ground arith)
      ])
