-- ===== src/Base/Rows.antt =====
-- Whether some row of a table meets a test, and what an insertion and an update make of that.
use Prim.Native.String.{String}
use mathlib.Core.Path.{◌≡◌, refl}
use mathlib.Core.Bool.{Bool, true, false}
use mathlib.Core.Logic.{inl, inr}
use mathlib.Core.List.{List, [], ◌∷◌, ◌++◌}
use native.Mathlib.Omega.{arith}
use perseval.Base.Lists.{any}
use perseval.Base.Tables.{Member, update}
use perseval.Base.Texts.{same, same_self}

pub eq→same : (a b : String) → a ≡ b → same a b ≡ true
eq→same a b h = rw (← h) (same_self a)

module _ {Row : Type 0} (p : Row → Bool) where
  pub any-Member :
      (rows : List Row) (row : Row) → Member row rows → p row ≡ true → any p rows ≡ true
  unfolding any
  any-Member [] row m h = absurd m
  any-Member (x ∷ rows) row (inl e) h = ground arith
  any-Member (x ∷ rows) row (inr m) h = ground (arith, any-Member rows row m h)

  pub any-none :
      (rows : List Row) → ((row : Row) → Member row rows → p row ≡ false) → any p rows ≡ false
  unfolding any
  any-none [] h = refl
  any-none (x ∷ rows) h =
      let first = h x (inl refl) in
      let rest = any-none rows (λ row m. h row (inr m)) in ground arith

  pub any-last : (rows : List Row) (row : Row) → p row ≡ true → any p (rows ++ row ∷ []) ≡ true
  unfolding any
  any-last [] row h = ground arith
  any-last (x ∷ rows) row h = ground (arith, any-last rows row h)

  pub any-append :
      (rows : List Row) (row : Row) → any p rows ≡ true → any p (rows ++ row ∷ []) ≡ true
  unfolding any
  any-append [] row h = cc
  any-append (x ∷ rows) row h = ground (arith, any-append rows row)

  -- An update that keeps the test.
  pub any-update :
      (q : Row → Bool) (f : Row → Row) (rows : List Row)
      → ((row : Row) → p (f row) ≡ p row)
      → any p (update q f rows) ≡ any p rows
  unfolding any update
  any-update q f [] keeps = refl
  any-update q f (x ∷ rows) keeps = ground (arith, keeps x, any-update q f rows keeps)
