-- ===== src/Topology/Live/Valid.antt =====
-- The live index answers for the parents that it was given.
use perseval.Base.{
  zero, ℕ, suc, refl, List, [], ◌∷◌, Option, none, true, false, get, put, inl, inr, sym,
  Option-cases, arith, get-put, Bool, ◌<◌, ◌≡◌, u64_max, ◌||◌, ◌∙◌, Bool-cases, contains,
  wrapping_add, ◌≢◌, length, min, ◌+◌, u32_max, ◌↔◌, length-keys, ltb,
}
use mathlib.Core.Path.{subst}
use perseval.Topology.Walk.{walk}
use perseval.Topology.Walk.Chains.{
  Chain, root, orphan, link, walk-Ends, walk-start, Ends-ended, Ends,
}
use perseval.Topology.Walk.Depths.{Good}
use perseval.Topology.Layout.{Rows}
use perseval.Topology.Layout.Depth.{record_walk-Good, record_walk-covers}
use perseval.Topology.Live.{
  LiveTopologyIndex, empty_index, apply_row, apply_rows, apply, cache_walk, depth, annotation,
  known_depth, cached, DepthCache, Walk, unchanged, next_depth,
}
use perseval.Topology.Live.Counts.{
  Consistent, children_number, apply_rows-Consistent, unchanged_same, as_count,
}
use perseval.Topology.Live.Fresh.{fresh, fresh-walk, get-fresh, fresh_later, Sound, walk-Sound}

module _ {SpanId : Type 0} (dec : Discrete SpanId) where
  -- The invariant of the index: the counts are right, and a current depth is the length of the
  -- span's chain.
  pub record IsValid (index : LiveTopologyIndex SpanId) : Type 0 where
    pub consistent : Consistent dec index
    pub sound : Sound dec index.generation index.depth_cache
    pub good : Good dec index.parents (fresh dec index.generation index.depth_cache)

  -- Chains and known depths depend on the lookups only.
  Chain-along :
      (parents parents' : Rows SpanId)
      → ((a : SpanId) → get dec a parents' ≡ get dec a parents)
      → {id : SpanId} {d : ℕ} → Chain dec parents id d
      → Chain dec parents' id d
  Chain-along parents parents' same (root {id = id} e) = root (same id ∙ e)
  Chain-along parents parents' same (orphan {id = id} p e m) = orphan p (same id ∙ e) (same p ∙ m)
  Chain-along parents parents' same (link {id = id} p e c) =
      link p (same id ∙ e) (Chain-along parents parents' same c)

  Good-along :
      (parents parents' : Rows SpanId) (resolved : List (SpanId × ℕ))
      → ((a : SpanId) → get dec a parents' ≡ get dec a parents)
      → Good dec parents resolved
      → Good dec parents' resolved
  Good-along parents parents' resolved same g = record {
    sound = λ id d e h c. g.sound id d e h (Chain-along parents' parents (λ a. sym (same a)) c);
    within = λ id d h. λ n. g.within id d h (sym (same id) ∙ n);
  }

  unchanged_row :
      (span_id : SpanId) (parent : Option SpanId) (index : LiveTopologyIndex SpanId)
      → (apply_row dec span_id parent index).1 ≡ false
      → (a : SpanId)
      → get dec a (apply_row dec span_id parent index).0.parents ≡ get dec a index.parents
  unfolding apply_row
  unchanged_row span_id parent index h a =
      elim (Bool-cases (unchanged dec (get dec span_id index.parents) parent)) [
        | inl same ↦
            let e = unchanged_same dec (get dec span_id index.parents) parent same in
            rw same (elim (dec span_id a) [
              | yes p ↦
                  subst
                    (λ b.
                      get dec b (put dec span_id parent index.parents) ≡ get dec b index.parents)
                    p (ground (arith, e, get-put dec span_id span_id parent index.parents))
              | no p ↦ ground (arith, get-put dec span_id a parent index.parents)
            ])
        | inr new ↦ absurd (ground arith)
      ]

  kept_row :
      (span_id : SpanId) (parent : Option SpanId) (index : LiveTopologyIndex SpanId)
      → let next = (apply_row dec span_id parent index).0 in
        (next.depth_cache ≡ index.depth_cache) × (next.generation ≡ index.generation)
  unfolding apply_row
  kept_row span_id parent index = ground arith

  kept_cache :
      (rows : Rows SpanId) (index : LiveTopologyIndex SpanId) (changed : Bool)
      → let next = (apply_rows dec rows index changed).0 in
        (next.depth_cache ≡ index.depth_cache) × (next.generation ≡ index.generation)
  unfolding apply_rows
  kept_cache [] index changed = (refl, refl)
  kept_cache ((span_id, parent) ∷ rows) index changed =
      let (next, here) = apply_row dec span_id parent index in
      let (c, g) = kept_cache rows next (changed || here) in
      let (c', g') = kept_row span_id parent index in (c ∙ c', g ∙ g')

  unchanged_rows :
      (rows : Rows SpanId) (index : LiveTopologyIndex SpanId) (changed : Bool)
      → (apply_rows dec rows index changed).1 ≡ false
      → (changed ≡ false)
        × ((a : SpanId)
            → get dec a (apply_rows dec rows index changed).0.parents ≡ get dec a index.parents)
  unfolding apply_rows
  unchanged_rows [] index changed h = (h, λ a. refl)
  unchanged_rows ((span_id, parent) ∷ rows) index changed h =
      let (next, here) = apply_row dec span_id parent index in
      let (c, same) = unchanged_rows rows next (changed || here) h in
      (ground arith, λ a. same a ∙ unchanged_row span_id parent index (ground arith) a)

  later-Sound :
      (generation : ℕ) (cache : DepthCache SpanId)
      → Sound dec generation cache
      → Sound dec (generation + 1) cache
  later-Sound generation cache s = record {
    distinct = s.distinct;
    aged = λ a g d h. omega (arith, s.aged a g d h);
  }

  later-Good :
      (generation : ℕ) (cache : DepthCache SpanId) (parents : Rows SpanId)
      → Sound dec generation cache
      → Good dec parents (fresh dec (generation + 1) cache)
  later-Good generation cache parents s =
      let nothing = fresh_later dec generation (generation + 1) cache s (omega arith) in
      record {
        sound = λ a d e h c. absurd (ground (arith, nothing a));
        within = λ a d h. absurd (ground (arith, nothing a));
      }

  pub empty_index-IsValid : IsValid empty_index
  unfolding get children_number fresh contains
  empty_index-IsValid = record {
    consistent = record { distinct = tt; counted = λ p. refl };
    sound = record { distinct = tt; aged = λ a g d h. cc };
    good = record { sound = λ a d e h c. cc; within = λ a d h. cc };
  }

  -- Below the last generation, applying rows keeps the invariant: each count of children is the
  -- number of the spans with that parent, and each depth that is cached at the current generation is
  -- the length of the span's chain of parents, where that ends.
  pub apply-IsValid :
      (rows : Rows SpanId) (index : LiveTopologyIndex SpanId)
      → index.generation < u64_max
      → IsValid index
      → IsValid (apply dec rows index)
  unfolding apply
  apply-IsValid rows index room v =
      let next = (apply_rows dec rows index false).0 in
      let consistent = apply_rows-Consistent dec rows index false v.consistent in
      let (c, g) = kept_cache rows index false in
      elim (Bool-cases (apply_rows dec rows index false).1) [
        | inl changed ↦
            let step : wrapping_add next.generation 1 ≡ index.generation + 1 = rw g (omega arith) in
            rw (changed, apply)
              (record {
                consistent = record {
                  distinct = consistent.distinct;
                  counted = consistent.counted;
                };
                sound = rw (c, step) (later-Sound index.generation index.depth_cache v.sound);
                good =
                    rw (c, step)
                      (later-Good index.generation index.depth_cache next.parents v.sound);
              })
        | inr same ↦
            rw (same, apply)
              (record {
                consistent = consistent;
                sound = rw (c, g) v.sound;
                good =
                    rw (c, g)
                      (Good-along index.parents next.parents _
                        (unchanged_rows rows index false same).1 v.good);
              })
      ]

  -- The walk of `depth`, with the current entries as its known depths.
  abbrev walk_fresh : SpanId → LiveTopologyIndex SpanId → Walk SpanId
  walk_fresh span_id index =
      walk dec (λ a. get dec a (fresh dec index.generation index.depth_cache)) index.parents
        (suc (length index.parents)) span_id [] []

  depth-new :
      (span_id : SpanId) (index : LiveTopologyIndex SpanId)
      → IsValid index
      → known_depth dec index span_id ≡ none
      → depth dec span_id index ≡ (
        record index {
          depth_cache =
              cache_walk dec index.generation (walk_fresh span_id index) index.depth_cache;
        },
        cached (
            get dec span_id
              (cache_walk dec index.generation (walk_fresh span_id index) index.depth_cache)),
      )
  unfolding depth
  depth-new span_id index v new =
      let same : (λ a. get dec a (fresh dec index.generation index.depth_cache))
          ≡ known_depth dec index =
        λ i. λ a. get-fresh dec index.generation a index.depth_cache v.sound.distinct i in
      rw (new, depth) (rw same refl)

  start-Ends :
      (span_id : SpanId) (index : LiveTopologyIndex SpanId)
      → Ends dec index.parents
          (λ a. get dec a (fresh dec index.generation index.depth_cache))
          (walk_fresh span_id index)
  unfolding contains
  start-Ends span_id index =
      walk-Ends dec index.parents _ (suc (length index.parents)) span_id [] tt (λ a m. cc)
        (omega (arith, length-keys index.parents)) tt

  depth_new :
      (span_id : SpanId) (index : LiveTopologyIndex SpanId)
      → IsValid index
      → get dec span_id index.parents ≢ none
      → known_depth dec index span_id ≡ none
      → let cache = cache_walk dec index.generation (walk_fresh span_id index) index.depth_cache in
        IsValid (record index { depth_cache = cache })
        × ((e : ℕ)
            → Chain dec index.parents span_id e
            → cached (get dec span_id cache) ≡ min e u32_max)
  depth_new span_id index v here new =
      let known = fresh dec index.generation index.depth_cache in
      let w = walk_fresh span_id index in
      let ends = start-Ends span_id index in
      let cache = cache_walk dec index.generation w index.depth_cache in
      let recorded = fresh-walk dec index.generation w index.depth_cache in
      let good : Good dec index.parents (fresh dec index.generation cache) =
        rw recorded (record_walk-Good dec index.parents w known ends v.good) in
      let sound = walk-Sound dec index.generation w index.depth_cache v.sound in
      let unknown : get dec span_id known ≡ none =
        get-fresh dec index.generation span_id index.depth_cache v.sound.distinct ∙ new in
      let on_path =
        walk-start dec index.parents (λ a. get dec a known) (suc (length index.parents)) span_id
          unknown here (Ends-ended dec index.parents (λ a. get dec a known) w ends) in
      let found : get dec span_id (fresh dec index.generation cache) ≢ none =
        rw recorded (record_walk-covers dec index.parents w known span_id (inl on_path)) in
      let current = get-fresh dec index.generation span_id cache sound.distinct in
      (
        record {
          consistent = record { distinct = v.consistent.distinct; counted = v.consistent.counted };
          sound = sound;
          good = good;
        },
        λ e c. elim (Option-cases (get dec span_id (fresh dec index.generation cache))) [
          | inl n ↦ absurd (found n)
          | inr (d, h) ↦ ground (arith, good.sound span_id d e h c, current, h)
        ],
      )

  -- `depth` keeps the invariant and changes the cache only; for a span of the trace whose parents
  -- end, at a root or at a missing parent, it is their number, up to the largest 32-bit one.
  pub depth_right :
      (span_id : SpanId) (index : LiveTopologyIndex SpanId)
      → IsValid index
      → get dec span_id index.parents ≢ none
      → let (next, d) = depth dec span_id index in
        IsValid next
        × (next.parents ≡ index.parents)
        × (next.child_counts ≡ index.child_counts)
        × ((e : ℕ) → Chain dec index.parents span_id e → d ≡ min e u32_max)
  unfolding depth
  depth_right span_id index v here = elim (Option-cases (known_depth dec index span_id)) [
    | inl new ↦
        let (valid, right) = depth_new span_id index v here new in
        rw (depth-new span_id index v new) (valid, refl, refl, right)
    | inr (d, known) ↦
        rw (known, depth)
          (
            v,
            refl,
            refl,
            λ e c.
                v.good.sound span_id d e
                  (get-fresh dec index.generation span_id index.depth_cache v.sound.distinct
                    ∙ known)
                  c,
          )
  ]

  count_positive : (n : ℕ) → (ltb 0 (next_depth (as_count n)) ≡ true) ↔ (0 < n)
  count_positive zero = ground arith
  count_positive (suc n) = ground arith

  -- For a span of the trace in a valid index, `annotation` keeps the invariant and tells whether any
  -- span has this one as its parent; and where the span's parents end, at a root or at a missing
  -- parent, its depth is their number, up to the largest 32-bit one.
  pub annotation_right :
      (span_id : SpanId) (index : LiveTopologyIndex SpanId)
      → IsValid index
      → get dec span_id index.parents ≢ none
      → let (next, (d, has_children)) = annotation dec span_id index in
        IsValid next
        × ((e : ℕ) → Chain dec index.parents span_id e → d ≡ min e u32_max)
        × ((has_children ≡ true) ↔ (0 < children_number dec span_id index.parents))
  unfolding annotation
  annotation_right span_id index v here =
      let (valid, parents, counts, right) = depth_right span_id index v here in
      (
        valid,
        right,
        rw (counts, v.consistent.counted span_id)
            (count_positive (children_number dec span_id index.parents)),
      )
