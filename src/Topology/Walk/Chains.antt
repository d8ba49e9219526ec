-- ===== src/Topology/Walk/Chains.antt =====
-- What a chain of parents is, and how the walk ends in terms of it.
use perseval.Base.{
  ℕ, zero, suc, ◌+◌, ◌<◌, ◌≡◌, refl, ◌≢◌, inl, inr, ◌∷◌, List, [], Option, none, some, true, arith,
  contains, get, keys, length, Distinct, Subset, Bool-cases, Option-cases, sym, contains-cons_of,
  length-le_of_Subset, cons-Subset, contains-keys-some, contains_self,
}
use mathlib.Core.Path.{subst}
use perseval.Topology.Walk.{Walk, reached, cyclic, out_of_fuel, walk, path_of}

module _ {SpanId : Type 0} (dec : Discrete SpanId) where
  module _ (parents : List (SpanId × Option SpanId)) where
    -- `Chain id d`: the parents of `id` end after `d` steps, at a span without a parent or at one
    -- whose parent is missing.
    pub data Chain : SpanId → ℕ → Type 0 where
      root : {id : SpanId} → get dec id parents ≡ some none → Chain id zero
      orphan :
          {id : SpanId} (parent : SpanId)
          → get dec id parents ≡ some (some parent)
          → get dec parent parents ≡ none
          → Chain id zero
      link :
          {id : SpanId} {d : ℕ} (parent : SpanId)
          → get dec id parents ≡ some (some parent)
          → Chain parent d
          → Chain id (suc d)

    -- A span with a chain is in the map.
    pub Chain-present : {id : SpanId} {d : ℕ} → Chain id d → get dec id parents ≢ none
    Chain-present (root e) = λ n. cc
    Chain-present (orphan p e m) = λ n. cc
    Chain-present (link p e c) = λ n. cc

    pub Chain-root : {id : SpanId} {d : ℕ} → Chain id d → get dec id parents ≡ some none → d ≡ zero
    Chain-root (root e) h = refl
    Chain-root (orphan p e m) h = refl
    Chain-root (link p e c) h = absurd (ground arith)

    pub Chain-orphan :
        {id : SpanId} {d : ℕ} (parent : SpanId)
        → Chain id d
        → get dec id parents ≡ some (some parent)
        → get dec parent parents ≡ none
        → d ≡ zero
    Chain-orphan parent (root e) h m = refl
    Chain-orphan parent (orphan p e m') h m = refl
    Chain-orphan parent (link p e c) h m =
        let same : p ≡ parent = ground arith in absurd (Chain-present c (rw same m))

    -- Below a span whose parent is in the map the chain goes on.
    pub Chain-parent :
        {id : SpanId} {d : ℕ} (parent : SpanId)
        → Chain id d
        → get dec id parents ≡ some (some parent)
        → get dec parent parents ≢ none
        → (e : ℕ) × (d ≡ suc e) × Chain parent e
    Chain-parent parent (root e) h m = absurd (ground arith)
    Chain-parent parent (orphan p e m') h m =
        let same : p ≡ parent = ground arith in absurd (m (rw same at m'))
    Chain-parent parent (link {d = d} p e c) h m =
        let same : p ≡ parent = ground arith in (d, refl, subst (λ q. Chain q d) same c)

    pub Chain-unique : {id : SpanId} {d : ℕ} (e : ℕ) → Chain id d → Chain id e → d ≡ e
    Chain-unique e (root h) c = sym (Chain-root c h)
    Chain-unique e (orphan p h m) c = sym (Chain-orphan p c h m)
    Chain-unique e (link p h c) c' =
        let (e', eq, c'') = Chain-parent p c' h (Chain-present c) in
        omega (arith, eq, Chain-unique e' c c'')

    -- Each span of the path has the one in front of it as its parent; `current` is the parent of
    -- the first.
    abbrev pub Linked : SpanId → List SpanId → Type 0
    Linked current [] = Unit
    Linked current (node ∷ path) = (get dec node parents ≡ some (some current)) × Linked node path

    pub data Ends (known : SpanId → Option ℕ) : Walk SpanId → Type 0 where
      at_known :
          (current : SpanId) (path : List SpanId) (d : ℕ)
          → known current ≡ some d
          → Linked current path
          → Ends known (reached (some d) path)
      at_missing :
          (current : SpanId) (path : List SpanId)
          → get dec current parents ≡ none
          → Linked current path
          → Ends known (reached none path)
      at_root :
          (current : SpanId) (path : List SpanId)
          → get dec current parents ≡ some none
          → Linked current path
          → Ends known (reached none (current ∷ path))
      at_cycle :
          (current : SpanId) (path : List SpanId)
          → contains dec current path ≡ true
          → Linked current path
          → Ends known (cyclic path)

    module _ (known : SpanId → Option ℕ) where
      -- With more fuel than there are keys outside the path, the walk ends by itself, at a known
      -- span, above a missing parent, at a root or in a cycle.
      pub walk-Ends :
          (fuel : ℕ) (current : SpanId) (path : List SpanId)
          → Distinct dec path
          → Subset dec path (keys parents)
          → length (keys parents) < fuel + length path
          → Linked current path
          → Ends known (walk dec known parents fuel current path path)
      unfolding walk
      walk-Ends zero current path d sub enough l =
          absurd (omega (arith, length-le_of_Subset dec path (keys parents) d sub))
      walk-Ends (suc fuel) current path d sub enough l = elim (Option-cases (known current)) [
        | inr (depth, e) ↦ rw (e, walk) (at_known current path depth e l)
        | inl e ↦
            rw (e, walk)
              (elim (Bool-cases (contains dec current path)) [
                | inl c ↦ rw c (at_cycle current path c l)
                | inr c ↦ rw c (elim (Option-cases (get dec current parents)) [
                  | inl g ↦ rw g (at_missing current path g l)
                  | inr (none, g) ↦ rw g (at_root current path g l)
                  | inr (some parent, g) ↦ rw g (
                      walk-Ends fuel parent (current ∷ path) (c, d)
                        (cons-Subset dec current path (keys parents)
                          (contains-keys-some dec current parents (some parent) g) sub)
                        (omega arith) (g, l))
                ])
              ])
      ]

      -- What was pushed stays on the path.
      pub walk-keeps :
          (fuel : ℕ) (current node : SpanId) (positions path : List SpanId)
          → contains dec node path ≡ true
          → walk dec known parents fuel current positions path ≢ out_of_fuel
          → contains dec node (path_of (walk dec known parents fuel current positions path)) ≡ true
      unfolding walk
      walk-keeps zero current node positions path h t = absurd (t refl)
      walk-keeps (suc fuel) current node positions path h t = elim (Option-cases (known current)) [
        | inr (depth, e) ↦ rw (e, walk) h
        | inl e ↦
            rw (e, walk)
              (elim (Bool-cases (contains dec current positions)) [
                | inl c ↦ rw c h
                | inr c ↦ rw c (elim (Option-cases (get dec current parents)) [
                  | inl g ↦ rw g h
                  | inr (none, g) ↦ rw g (contains-cons_of dec current node path h)
                  | inr (some parent, g) ↦ rw g (
                      walk-keeps fuel parent node (current ∷ positions) (current ∷ path)
                        (contains-cons_of dec current node path h)
                        (λ p. t (rw (e, walk) (rw c (rw g p)))))
                ])
              ])
      ]

      pub Ends-ended : (w : Walk SpanId) → Ends known w → w ≢ out_of_fuel
      Ends-ended _ (at_known current path d k l) = λ p. ground arith
      Ends-ended _ (at_missing current path m l) = λ p. ground arith
      Ends-ended _ (at_root current path r l) = λ p. ground arith
      Ends-ended _ (at_cycle current path c l) = λ p. ground arith

      -- A walk from a span that is in the map and not yet known pushes that span.
      pub walk-start :
          (fuel : ℕ) (id : SpanId)
          → known id ≡ none
          → get dec id parents ≢ none
          → walk dec known parents fuel id [] [] ≢ out_of_fuel
          → contains dec id (path_of (walk dec known parents fuel id [] [])) ≡ true
      unfolding walk contains
      walk-start zero id k present t = absurd (t refl)
      walk-start (suc fuel) id k present t = elim (Option-cases (get dec id parents)) [
        | inl g ↦ absurd (present g)
        | inr (none, g) ↦ rw (k, walk) (rw g (contains_self dec id []))
        | inr (some parent, g) ↦
            rw (k, walk)
              (rw g (
                walk-keeps fuel parent id (id ∷ []) (id ∷ []) (contains_self dec id [])
                  (λ p. t (rw (k, walk) (rw g p)))))
      ]
