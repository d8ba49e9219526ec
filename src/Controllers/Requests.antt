-- ===== src/Controllers/Requests.antt =====
-- `ScopedRequestTracker` of apps/perseval-app/src/controllers/query.rs. A generation is a number.
pub mod Laws
use perseval.Base.{
  ℕ, Option, none, some, Bool, true, false, List, [], ◌==◌, if◌then◌else◌, u64_max, saturating_add,
  get, put, del,
}

pub record Tracker (K : Type 0) : Type 0 where
  pub next : ℕ
  pub active : List (K × ℕ)

abbrev pub default : {K : Type 0} → Tracker K
default = record { next = 0; active = [] }

module _ {K : Type 0} (dec : Discrete K) where
  unfoldable pub begin : K → Tracker K → Tracker K × ℕ
  begin key t =
      let generation = saturating_add u64_max t.next 1 in
      (record { next = generation; active = put dec key generation t.active }, generation)

  unfoldable pub is_current : K → ℕ → Tracker K → Bool
  is_current key generation t = elim (get dec key t.active) [
    | none ↦ false
    | some g ↦ g == generation
  ]

  unfoldable pub finish : K → ℕ → Tracker K → Tracker K × Bool
  unfolding is_current
  finish key generation t =
      if is_current key generation t
      then (record t { active = del dec key t.active }, true)
      else (t, false)

  unfoldable pub cancel : K → Tracker K → Tracker K
  cancel key t = record t { active = del dec key t.active }

unfoldable pub clear : {K : Type 0} → Tracker K → Tracker K
clear t = record t { active = [] }
