-- ===== src/Base/Tables.antt =====
-- A table of the program's SQL stores as the list of its rows, with the statements on it.
use Prim.Native.Nat.{ℕ, ◌+◌, ◌≤◌}
use Prim.Native.String.{String}
use mathlib.Core.Path.{◌≡◌, refl, subst, sym, ap, ◌∙◌}
use mathlib.Core.Bool.{Bool, true, false, ◌&&◌}
use mathlib.Core.Logic.{◌⊎◌, inl, inr}
use mathlib.Core.Option.{Option, none, some}
use mathlib.Core.Option
use mathlib.Core.List.{List, [], ◌∷◌, ◌++◌, map}
use native.Mathlib.Omega.{arith}
use perseval.Base.Tests.{if◌then◌else◌, leb, Bool-cases, Option-cases}
use perseval.Base.Lists.{find}
use perseval.Base.Sets.{contains, Distinct}
use perseval.Base.Texts.{same, text_dec}

-- A row as a number: one where the test holds.
abbrev pub bit : Bool → ℕ
bit true = 1
bit false = 0

module _ {Row : Type 0} where
  -- `UPDATE … SET f WHERE p`
  unfoldable pub update : (Row → Bool) → (Row → Row) → List Row → List Row
  update p f [] = []
  update p f (row ∷ rows) = (if p row then f row else row) ∷ update p f rows

  -- `SUM` of a column.
  unfoldable pub total : (Row → ℕ) → List Row → ℕ
  total weight [] = 0
  total weight (row ∷ rows) = weight row + total weight rows

  -- `COUNT(*) … WHERE p`
  unfoldable pub count : (Row → Bool) → List Row → ℕ
  unfolding total
  count p rows = total (λ row. bit (p row)) rows

  -- The row stands in the table.
  abbrev pub Member : Row → List Row → Type 0
  Member row [] = ⊥
  Member row (x ∷ rows) = (x ≡ row) ⊎ Member row rows

  pub find-Member :
      (p : Row → Bool) (rows : List Row) (row : Row)
      → find p rows ≡ some row
      → Member row rows × (p row ≡ true)
  unfolding find
  find-Member p [] row h = cc
  find-Member p (x ∷ rows) row h = elim (Bool-cases (p x)) [
    | inl e ↦ let same_row : x ≡ row = ground arith in (inl same_row, rw (← same_row) e)
    | inr e ↦ let (m, q) = find-Member p rows row (ground arith) in (inr m, q)
  ]

  pub count-append :
      (p : Row → Bool) (rows : List Row) (row : Row)
      → count p (rows ++ row ∷ []) ≡ count p rows + bit (p row)
  unfolding count total
  count-append p [] row = omega arith
  count-append p (x ∷ rows) row = ground (arith, count-append p rows row)

  pub count-find : (p : Row → Bool) (rows : List Row) → find p rows ≡ none → count p rows ≡ 0
  unfolding find count total
  count-find p [] h = refl
  count-find p (x ∷ rows) h = ground (arith, count-find p rows)

  -- Two columns that agree where the rows do not change, and on what they change to.
  pub total-update_same :
      (weight : Row → ℕ) (p : Row → Bool) (f : Row → Row) (rows : List Row)
      → ((row : Row) → p row ≡ true → weight (f row) ≡ weight row)
      → total weight (update p f rows) ≡ total weight rows
  unfolding total update
  total-update_same weight p f [] h = refl
  total-update_same weight p f (x ∷ rows) h =
      ground (arith, h x, total-update_same weight p f rows h)

  pub total-update_le :
      (weight : Row → ℕ) (p : Row → Bool) (f : Row → Row) (rows : List Row)
      → ((row : Row) → p row ≡ true → weight (f row) ≤ weight row)
      → total weight (update p f rows) ≤ total weight rows
  unfolding total update
  total-update_le weight p f [] h = omega arith
  total-update_le weight p f (x ∷ rows) h = ground (arith, h x, total-update_le weight p f rows h)

module _ {Row : Type 0} (key : Row → String) where
  -- The rows with a key: one at most, where it is the primary key.
  abbrev pub keyed : String → Row → Bool
  keyed k row = same (key row) k

  abbrev pub PrimaryKey : List Row → Type 0
  PrimaryKey rows = Distinct text_dec (map key rows)

  Member-contains :
      (row : Row) (rows : List Row)
      → Member row rows
      → contains text_dec (key row) (map key rows) ≡ true
  unfolding contains
  Member-contains row [] m = absurd m
  Member-contains row (x ∷ rows) (inl e) = ground arith
  Member-contains row (x ∷ rows) (inr m) = ground (arith, Member-contains row rows m)

  pub update_absent :
      (k : String) (f : Row → Row) (rows : List Row)
      → contains text_dec k (map key rows) ≡ false
      → update (keyed k) f rows ≡ rows
  unfolding update contains
  update_absent k f [] h = refl
  update_absent k f (x ∷ rows) h = ground (arith, update_absent k f rows)

  total-update_head :
      (weight : Row → ℕ) (f : Row → Row) (x : Row) (rows : List Row)
      → contains text_dec (key x) (map key rows) ≡ false
      → total weight (update (keyed (key x)) f (x ∷ rows)) + weight x
        ≡ total weight (x ∷ rows) + weight (f x)
  unfolding total update
  total-update_head weight f x rows h = ground (arith, update_absent (key x) f rows)

  -- An update by the primary key changes a sum by what it does to its one row.
  pub total-update_key :
      (weight : Row → ℕ) (f : Row → Row) (rows : List Row) (row : Row)
      → PrimaryKey rows
      → Member row rows
      → total weight (update (keyed (key row)) f rows) + weight row
        ≡ total weight rows + weight (f row)
  unfolding total update contains
  total-update_key weight f [] row d m = absurd m
  total-update_key weight f (x ∷ rows) row d (inl e) =
      subst
        (λ r.
          total weight (update (keyed (key r)) f (x ∷ rows)) + weight r
          ≡ total weight (x ∷ rows) + weight (f r))
        e (total-update_head weight f x rows d.0)
  total-update_key weight f (x ∷ rows) row d (inr m) =
      ground (arith, Member-contains row rows m, total-update_key weight f rows row d.1 m)

  -- Columns but the key may change.
  pub map-update :
      (p : Row → Bool) (f : Row → Row) (rows : List Row)
      → ((row : Row) → key (f row) ≡ key row)
      → map key (update p f rows) ≡ map key rows
  unfolding update
  map-update p f [] h = refl
  map-update p f (x ∷ rows) h = ground (arith, h x, map-update p f rows h)

  pub find-key :
      (rows : List Row) (row : Row)
      → PrimaryKey rows
      → Member row rows
      → find (keyed (key row)) rows ≡ some row
  unfolding find contains
  find-key [] row d m = absurd m
  find-key (x ∷ rows) row d (inl e) = ground arith
  find-key (x ∷ rows) row d (inr m) =
      ground (arith, Member-contains row rows m, find-key rows row d.1 m)

  pub find-update :
      (p : Row → Bool) (j : String) (f : Row → Row) (rows : List Row)
      → ((row : Row) → key (f row) ≡ key row)
      → find (keyed j) (update p f rows)
        ≡ Option.map (λ row. if p row then f row else row) (find (keyed j) rows)
  unfolding find update
  find-update p j f [] h = refl
  find-update p j f (x ∷ rows) h = ground (arith, h x, find-update p j f rows h)

  update-and_absent :
      (q : Row → Bool) (k : String) (f : Row → Row) (rows : List Row)
      → contains text_dec k (map key rows) ≡ false
      → update (λ r. keyed k r && q r) f rows ≡ rows
  unfolding update contains
  update-and_absent q k f [] h = refl
  update-and_absent q k f (x ∷ rows) h = ground (arith, update-and_absent q k f rows)

  update-and_head :
      (q : Row → Bool) (f : Row → Row) (x : Row) (rows : List Row)
      → contains text_dec (key x) (map key rows) ≡ false
      → q x ≡ true
      → update (λ r. keyed (key x) r && q r) f (x ∷ rows) ≡ update (keyed (key x)) f (x ∷ rows)
  unfolding update
  update-and_head q f x rows h e =
      ground (arith, update_absent (key x) f rows h, update-and_absent q (key x) f rows h)

  -- A further test that the row with the key meets changes nothing.
  pub update-key_and :
      (q : Row → Bool) (f : Row → Row) (rows : List Row) (row : Row)
      → PrimaryKey rows
      → Member row rows
      → q row ≡ true
      → update (λ r. keyed (key row) r && q r) f rows ≡ update (keyed (key row)) f rows
  unfolding update contains
  update-key_and q f [] row d m h = absurd m
  update-key_and q f (x ∷ rows) row d (inl e) h =
      subst
        (λ r.
          update (λ t. keyed (key r) t && q t) f (x ∷ rows) ≡ update (keyed (key r)) f (x ∷ rows))
        e (update-and_head q f x rows d.0 (rw e h))
  update-key_and q f (x ∷ rows) row d (inr m) h =
      ground (arith, Member-contains row rows m, update-key_and q f rows row d.1 m h)

  pub Member-update_other :
      (p : Row → Bool) (f : Row → Row) (rows : List Row) (row : Row)
      → Member row rows
      → p row ≡ false
      → Member row (update p f rows)
  unfolding update
  Member-update_other p f [] row m h = absurd m
  Member-update_other p f (x ∷ rows) row (inl e) h = inl (ground arith)
  Member-update_other p f (x ∷ rows) row (inr m) h = inr (Member-update_other p f rows row m h)

  pub Member-update :
      (p : Row → Bool) (f : Row → Row) (rows : List Row) (row : Row)
      → Member row rows
      → p row ≡ true
      → Member (f row) (update p f rows)
  unfolding update
  Member-update p f [] row m h = absurd m
  Member-update p f (x ∷ rows) row (inl e) h = inl (ground arith)
  Member-update p f (x ∷ rows) row (inr m) h = inr (Member-update p f rows row m h)

  -- Two rows of a table with one key are one row.
  pub Member-unique :
      (rows : List Row) (a b : Row)
      → PrimaryKey rows
      → Member a rows
      → Member b rows
      → key a ≡ key b
      → a ≡ b
  Member-unique rows a b d m n e =
      let found : some a ≡ some b =
        sym (find-key rows a d m) ∙ ap (λ k. find (keyed k) rows) e ∙ find-key rows b d n in
      cc

module _ {Row : Type 0} (number : Row → ℕ) where
  -- `WHERE p ORDER BY number DESC LIMIT 1`
  unfoldable pub latest : (Row → Bool) → List Row → Option Row
  latest p [] = none
  latest p (row ∷ rows) =
      let rest = latest p rows in
      if p row
      then (elim rest [
        | none ↦ some row
        | some other ↦ if leb (number other) (number row) then some row else some other
      ])
      else rest

  pub latest-Member :
      (p : Row → Bool) (rows : List Row) (row : Row) → latest p rows ≡ some row → Member row rows
  unfolding latest
  latest-Member p [] row h = cc
  latest-Member p (x ∷ rows) row h = elim (Option-cases (latest p rows)) [
    | inl e ↦ inl (ground arith)
    | inr (y, e) ↦
        let cases : (x ≡ row) ⊎ (y ≡ row) = elim (Bool-cases (p x)) [
          | inl q ↦ elim (Bool-cases (leb (number y) (number x))) [
            | inl r ↦ inl (ground arith)
            | inr r ↦ inr (ground arith)
          ]
          | inr q ↦ inr (ground arith)
        ] in
        elim cases [ inl q ↦ inl q | inr q ↦ inr (latest-Member p rows row (ground arith)) ]
  ]
