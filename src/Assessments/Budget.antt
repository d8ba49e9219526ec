-- ===== src/Assessments/Budget.antt =====
-- `reserve_budget`, `release_budget` and `utc_day` of
-- crates/perseval-store/src/workspace/assessments.rs. A clock reads milliseconds since the epoch.
pub mod Laws
pub mod Spending
use Prim.Native.String.{String}
use perseval.Base.{
  ℕ, List, ◌∷◌, Bool, if◌then◌else◌, ◌+◌, ◌-◌, ◌/◌, leb, ◌==◌, ◌&&◌, any, same, update,
}
use perseval.Assessments.State.{DailyBudget, Policy}

abbrev pub utc_day : ℕ → ℕ
utc_day now = now / 86400000

-- `WHERE project_id = ?1 AND utc_day = ?2`
abbrev pub of_day : String → ℕ → DailyBudget → Bool
of_day project_id day budget = same budget.project_id project_id && (budget.utc_day == day)

-- `INSERT OR IGNORE` of an empty row.
unfoldable pub ensure_day : String → ℕ → List DailyBudget → List DailyBudget
ensure_day project_id day budgets =
    if any (of_day project_id day) budgets
    then budgets
    else record { project_id = project_id; utc_day = day; reserved_micros = 0; charged_micros = 0 }
      ∷ budgets

abbrev pub fits : Policy → ℕ → DailyBudget → Bool
fits policy reserve budget =
    leb (budget.reserved_micros + budget.charged_micros + reserve) policy.daily_budget_micros

-- The row that has room.
abbrev pub with_room : String → ℕ → Policy → ℕ → DailyBudget → Bool
with_room project_id day policy reserve budget =
    of_day project_id day budget && fits policy reserve budget

abbrev pub reserve_row : ℕ → DailyBudget → DailyBudget
reserve_row reserve b = record b { reserved_micros = b.reserved_micros + reserve }

-- The rows, and whether one was changed.
unfoldable pub reserve_budget : String → Policy → ℕ → ℕ → List DailyBudget → List DailyBudget × Bool
unfolding ensure_day
reserve_budget project_id policy reserve now budgets =
    let rows = ensure_day project_id (utc_day now) budgets in
    let chosen = with_room project_id (utc_day now) policy reserve in
    (update chosen (reserve_row reserve) rows, any chosen rows)

abbrev pub release_row : ℕ → ℕ → DailyBudget → DailyBudget
release_row reserved charged b = record b {
  reserved_micros = b.reserved_micros - reserved;
  charged_micros = b.charged_micros + charged;
}

unfoldable pub release_budget : String → ℕ → ℕ → ℕ → List DailyBudget → List DailyBudget
release_budget project_id reserved charged now budgets =
    if (reserved == 0) && (charged == 0)
    then budgets
    else update (of_day project_id (utc_day now)) (release_row reserved charged) budgets
