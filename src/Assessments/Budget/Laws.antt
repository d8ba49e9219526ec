-- ===== src/Assessments/Budget/Laws.antt =====
-- What `reserve_budget` and `release_budget` do to the row of a project's day.
use Prim.Native.String.{String}
use mathlib.Core.Option
use perseval.Base.{
  ℕ, ◌≡◌, refl, List, [], ◌∷◌, Option, none, some, Bool, true, false, any, find, update, Bool-cases,
  arith, inl, inr,
}
use perseval.Assessments.State.{DailyBudget, Policy}
use perseval.Assessments.Budget.{of_day, ensure_day, fits, with_room, reserve_row}

pub update_none :
    (p : DailyBudget → Bool) (f : DailyBudget → DailyBudget) (rows : List DailyBudget)
    → any p rows ≡ false
    → update p f rows ≡ rows
unfolding any update
update_none p f [] h = refl
update_none p f (b ∷ rows) h = ground (arith, update_none p f rows)

module _ (project_id : String) (day : ℕ) where
  -- A project has one row for a day at most.
  abbrev pub OneRow : List DailyBudget → Type 0
  OneRow [] = Unit
  OneRow (b ∷ rows) =
      (of_day project_id day b ≡ true → any (of_day project_id day) rows ≡ false) × OneRow rows

  abbrev pub row_of : List DailyBudget → Option DailyBudget
  row_of rows = find (of_day project_id day) rows

  -- The columns of that row, zero where there is none.
  abbrev pub reserved_at : List DailyBudget → ℕ
  reserved_at rows = elim (row_of rows) [ none ↦ 0 | some b ↦ b.reserved_micros ]

  abbrev pub charged_at : List DailyBudget → ℕ
  charged_at rows = elim (row_of rows) [ none ↦ 0 | some b ↦ b.charged_micros ]

  pub ensure_day-OneRow :
      (rows : List DailyBudget) → OneRow rows → OneRow (ensure_day project_id day rows)
  unfolding ensure_day
  ensure_day-OneRow rows h = ground arith

  any-find :
      (p : DailyBudget → Bool) (rows : List DailyBudget) → any p rows ≡ false → find p rows ≡ none
  unfolding any find
  any-find p [] h = refl
  any-find p (b ∷ rows) h = ground (arith, any-find p rows)

  pub ensure_day-reserved :
      (rows : List DailyBudget)
      → (reserved_at (ensure_day project_id day rows) ≡ reserved_at rows)
        × (charged_at (ensure_day project_id day rows) ≡ charged_at rows)
  unfolding ensure_day find
  ensure_day-reserved rows = elim (Bool-cases (any (of_day project_id day) rows)) [
    | inl there ↦ ground arith
    | inr new ↦ ground (arith, any-find (of_day project_id day) rows new)
  ]

  -- An update of rows of the day keeps one row.
  update-any :
      (p : DailyBudget → Bool) (f : DailyBudget → DailyBudget) (rows : List DailyBudget)
      → ((b : DailyBudget) → of_day project_id day (f b) ≡ of_day project_id day b)
      → any (of_day project_id day) (update p f rows) ≡ any (of_day project_id day) rows
  unfolding any update
  update-any p f [] h = refl
  update-any p f (b ∷ rows) h = ground (arith, h b, update-any p f rows h)

  pub update-OneRow :
      (p : DailyBudget → Bool) (f : DailyBudget → DailyBudget) (rows : List DailyBudget)
      → ((b : DailyBudget) → of_day project_id day (f b) ≡ of_day project_id day b)
      → OneRow rows
      → OneRow (update p f rows)
  unfolding update
  update-OneRow p f [] h d = tt
  update-OneRow p f (b ∷ rows) h d =
      ground (arith, h b, update-any p f rows h, update-OneRow p f rows h d.1)

  -- No row of the day, none that has room.
  no_room :
      (policy : Policy) (reserve : ℕ) (rows : List DailyBudget)
      → any (of_day project_id day) rows ≡ false
      → any (with_room project_id day policy reserve) rows ≡ false
  unfolding any
  no_room policy reserve [] h = refl
  no_room policy reserve (b ∷ rows) h = ground (arith, no_room policy reserve rows)

  -- Where a row has room, it is the row of the day, and the reservation goes to it.
  pub room-found :
      (policy : Policy) (reserve : ℕ) (rows : List DailyBudget)
      → OneRow rows
      → any (with_room project_id day policy reserve) rows ≡ true
      → (b : DailyBudget) × (row_of rows ≡ some b)
        × (fits policy reserve b ≡ true)
        × (row_of (update (with_room project_id day policy reserve) (reserve_row reserve) rows)
            ≡ some (reserve_row reserve b))
  unfolding any find update
  room-found policy reserve [] d h = cc
  room-found policy reserve (b ∷ rows) d h = elim (Bool-cases (of_day project_id day b)) [
    | inl here ↦ (
      b,
      ground arith,
      ground (arith, no_room policy reserve rows),
      ground (arith, no_room policy reserve rows),
    )
    | inr there ↦
        let (c, e, f, g) = room-found policy reserve rows d.1 (ground arith) in
        (c, ground arith, f, ground arith)
  ]

  -- A release goes to the row of the day.
  pub release-found :
      (f : DailyBudget → DailyBudget) (rows : List DailyBudget)
      → ((b : DailyBudget) → of_day project_id day (f b) ≡ of_day project_id day b)
      → row_of (update (of_day project_id day) f rows) ≡ Option.map f (row_of rows)
  unfolding find update
  release-found f [] h = refl
  release-found f (b ∷ rows) h = ground (arith, h b, release-found f rows h)
