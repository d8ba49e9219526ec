-- ===== src/Topology/Live/Counts.antt =====
-- The counts of children follow the parents.
use mathlib.Core.Path.{subst, ap}
use perseval.Base.{
  ℕ, zero, suc, refl, List, [], ◌∷◌, Option, none, some, true, false, get, put, del, keys, Distinct,
  ite, inl, inr, sym, Option-cases, arith, get-put, get-del,
}
use perseval.Topology.Walk.{next_depth}
use perseval.Topology.Layout.{Rows}
use perseval.Topology.Live.{
  LiveTopologyIndex, unchanged, lower_count, forget_parent, count_parent, apply_row, apply_rows,
  List, Option, del, put, ℕ, get, none, some, apply,
}
use perseval.Base.{
  ◌≡◌, ite, suc, true, ◌+◌, arith, get-del, get-put, del_unlisted, ◌-◌, Bool, put-Distinct,
  Bool-cases, ◌||◌,
}

abbrev pub as_count : ℕ → Option ℕ
as_count zero = none
as_count (suc n) = some (suc n)

module _ {SpanId : Type 0} (dec : Discrete SpanId) where
  -- One where the given parent is `p`.
  abbrev pub one_if : SpanId → Option SpanId → ℕ
  one_if p none = 0
  one_if p (some parent) = ite (dec parent p) 1 0

  abbrev pub one_if_previous : SpanId → Option (Option SpanId) → ℕ
  one_if_previous p none = 0
  one_if_previous p (some parent) = one_if p parent

  -- The number of spans whose parent is `p`.
  unfoldable pub children_number : SpanId → Rows SpanId → ℕ
  children_number p [] = 0
  children_number p ((_, parent) ∷ rows) = one_if p parent + children_number p rows

  -- Each parent has its number of children as its count, and no count is zero.
  abbrev pub Counted : Rows SpanId → List (SpanId × ℕ) → Type 0
  Counted parents counts = (p : SpanId) → get dec p counts ≡ as_count (children_number p parents)

  children_number-del :
      (p span_id : SpanId) (rows : Rows SpanId)
      → Distinct dec (keys rows)
      → children_number p (del dec span_id rows) + one_if_previous p (get dec span_id rows)
        ≡ children_number p rows
  unfolding children_number del get
  children_number-del p span_id [] d = refl
  children_number-del p span_id ((id, parent) ∷ rows) d = elim (dec id span_id) [
    | yes e ↦ ground (arith, del_unlisted dec id rows d.0, e)
    | no e ↦ ground (arith, children_number-del p span_id rows d.1)
  ]

  children_number-put :
      (p span_id : SpanId) (parent : Option SpanId) (rows : Rows SpanId)
      → Distinct dec (keys rows)
      → children_number p (put dec span_id parent rows) + one_if_previous p (get dec span_id rows)
        ≡ children_number p rows + one_if p parent
  unfolding children_number put
  children_number-put p span_id parent rows d = omega (arith, children_number-del p span_id rows d)

  get-lower :
      (p q : SpanId) (counts : List (SpanId × ℕ)) (n m : ℕ)
      → get dec p counts ≡ as_count n
      → m + ite (dec q p) 1 0 ≡ n
      → get dec p (lower_count dec q (get dec q counts) counts) ≡ as_count m
  unfolding lower_count
  get-lower p q counts n m h e = elim (dec q p) [
    | yes same ↦
        let number : n ≡ suc m = ground arith in
        let found : get dec q counts ≡ as_count n =
          subst (λ a. get dec a counts ≡ as_count n) (sym same) h in
        lower_same m (subst (λ i. get dec q counts ≡ as_count i) number found) same
    | no other ↦ elim (Option-cases (get dec q counts)) [
      | inl none_yet ↦ rw none_yet (ground arith)
      | inr (count, found) ↦
          rw found (ground (arith, get-del dec q p counts, get-put dec q p (count - 1) counts))
    ]
  ]
    where
      lower_same :
          (m : ℕ)
          → get dec q counts ≡ as_count (suc m)
          → q ≡ p
          → get dec p (lower_count dec q (get dec q counts) counts) ≡ as_count m
      lower_same zero found same = rw found (ground (arith, get-del dec q p counts))
      lower_same (suc m) found same = rw found (ground (arith, get-put dec q p (suc m) counts))

  pub get-forget :
      (p : SpanId) (previous : Option (Option SpanId)) (counts : List (SpanId × ℕ)) (n m : ℕ)
      → get dec p counts ≡ as_count n
      → m + one_if_previous p previous ≡ n
      → get dec p (forget_parent dec previous counts) ≡ as_count m
  unfolding forget_parent
  get-forget p none counts n m h e = ground arith
  get-forget p (some none) counts n m h e = ground arith
  get-forget p (some (some q)) counts n m h e = get-lower p q counts n m h e

  pub get-count :
      (p : SpanId) (parent : Option SpanId) (counts : List (SpanId × ℕ)) (n : ℕ)
      → get dec p counts ≡ as_count n
      → get dec p (count_parent dec parent counts) ≡ as_count (n + one_if p parent)
  unfolding count_parent
  get-count p none counts n h = ground arith
  get-count p (some q) counts n h = elim (dec q p) [
    | yes same ↦ count_same n (subst (λ a. get dec a counts ≡ as_count n) (sym same) h) same
    | no other ↦ ground (arith, get-put dec q p (next_depth (get dec q counts) + 1) counts)
  ]
    where
      count_same :
          (n : ℕ)
          → get dec q counts ≡ as_count n
          → q ≡ p
          → get dec p (count_parent dec (some q) counts) ≡ as_count (n + one_if p (some q))
      count_same zero found same = rw found (ground (arith, get-put dec q p 1 counts))
      count_same (suc n) found same = rw found (ground (arith, get-put dec q p (suc n + 1) counts))

  pub unchanged_same :
      (previous : Option (Option SpanId)) (parent : Option SpanId)
      → unchanged dec previous parent ≡ true
      → previous ≡ some parent
  unfolding unchanged
  unchanged_same none parent h = cc
  unchanged_same (some none) none h = refl
  unchanged_same (some none) (some parent) h = cc
  unchanged_same (some (some q)) none h = cc
  unchanged_same (some (some q)) (some parent) h = ground arith

  -- What the rows leave true: one entry for each span, and the right counts.
  pub record Consistent (index : LiveTopologyIndex SpanId) : Type 0 where
    pub distinct : Distinct dec (keys index.parents)
    pub counted : Counted index.parents index.child_counts

  -- A row that gives a span the parent that it has keeps the counts.
  same_parent-Counted :
      (span_id : SpanId) (parent : Option SpanId) (parents : Rows SpanId)
      (counts : List (SpanId × ℕ))
      → Distinct dec (keys parents)
      → get dec span_id parents ≡ some parent
      → Counted parents counts
      → Counted (put dec span_id parent parents) counts
  same_parent-Counted span_id parent parents counts d same c = λ p.
      let size = children_number-put p span_id parent parents d in
      let number : children_number p (put dec span_id parent parents) ≡ children_number p parents =
        omega (arith, size, ap (one_if_previous p) same) in
      rw number (c p)

  new_parent-Counted :
      (span_id : SpanId) (parent : Option SpanId) (parents : Rows SpanId)
      (counts : List (SpanId × ℕ))
      → Distinct dec (keys parents)
      → Counted parents counts
      → Counted
          (put dec span_id parent parents)
          (count_parent dec parent (forget_parent dec (get dec span_id parents) counts))
  new_parent-Counted span_id parent parents counts d c = λ p.
      let previous = get dec span_id parents in
      let del_size = children_number-del p span_id parents d in
      let m = children_number p (del dec span_id parents) in
      let lowered : get dec p (forget_parent dec previous counts) ≡ as_count m =
        get-forget p previous counts (children_number p parents) m (c p) del_size in
      let number : children_number p (put dec span_id parent parents) ≡ m + one_if p parent =
        omega (arith, children_number-put p span_id parent parents d, del_size) in
      rw number (get-count p parent (forget_parent dec previous counts) m lowered)

  pub apply_row-Consistent :
      (span_id : SpanId) (parent : Option SpanId) (index : LiveTopologyIndex SpanId)
      → Consistent index
      → Consistent (apply_row dec span_id parent index).0
  unfolding apply_row
  apply_row-Consistent span_id parent index c =
      let distinct = put-Distinct dec span_id parent index.parents c.distinct in
      elim (Bool-cases (unchanged dec (get dec span_id index.parents) parent)) [
        | inl same ↦
            rw (same, apply_row)
              (record {
                distinct = distinct;
                counted =
                    same_parent-Counted span_id parent index.parents index.child_counts c.distinct
                      (unchanged_same _ parent same) c.counted;
              })
        | inr new ↦
            rw (new, apply_row)
              (record {
                distinct = distinct;
                counted =
                    new_parent-Counted span_id parent index.parents index.child_counts c.distinct
                      c.counted;
              })
      ]

  pub apply_rows-Consistent :
      (rows : Rows SpanId) (index : LiveTopologyIndex SpanId) (changed : Bool)
      → Consistent index
      → Consistent (apply_rows dec rows index changed).0
  unfolding apply_rows
  apply_rows-Consistent [] index changed c = c
  apply_rows-Consistent ((span_id, parent) ∷ rows) index changed c =
      apply_rows-Consistent rows (apply_row dec span_id parent index).0
        (changed || (apply_row dec span_id parent index).1)
        (apply_row-Consistent span_id parent index c)

  -- After any rows, a span has as its count the number of spans whose parent it is.
  pub apply-Consistent :
      (rows : Rows SpanId) (index : LiveTopologyIndex SpanId)
      → Consistent index
      → Consistent (apply dec rows index)
  unfolding apply
  apply-Consistent rows index c =
      let kept = apply_rows-Consistent rows index false c in
      elim (Bool-cases (apply_rows dec rows index false).1) [
        | inl changed ↦
            rw (changed, apply) (record { distinct = kept.distinct; counted = kept.counted })
        | inr same ↦ rw (same, apply) kept
      ]
