-- ===== src/Controllers/Tests.antt =====
-- The controllers on concrete caches, requests and streams.
use perseval.Base.{
  discard, get, del, put, ℕ, ◌≡◌, refl, [], ◌∷◌, some, true, false, ℕ_discrete, arith, ◌≢◌, ◌+◌,
}
use perseval.Controllers.Cache.{Cache, new, insert, fetch, contains_key}
use perseval.Controllers.Cache.Valid.{IsValid, new-IsValid, insert-IsValid}
use perseval.Controllers.Cache.Evicts.{insert-Evicts, Evicts}
use perseval.Controllers.Requests.{default, begin, is_current, finish}
use perseval.Controllers.Requests.Laws.{run, superseded_refused, begin-finish, cancelling}
use perseval.Controllers.Sequence.{from_snapshot, observe, in_order, duplicate, gap}
use perseval.Controllers.Sequence.Laws.{
  observe_all, observe_all_accounts, largest, advances, skipped,
}

abbrev one_page : Cache ℕ ℕ
one_page = (insert ℕ_discrete 1 10 (new 2)).0

abbrev two_pages : Cache ℕ ℕ
two_pages = (insert ℕ_discrete 2 20 one_page).0

abbrev one_page-IsValid : IsValid ℕ_discrete one_page
one_page-IsValid = insert-IsValid ℕ_discrete 1 10 (new 2) (new-IsValid ℕ_discrete 2)

abbrev two_pages-IsValid : IsValid ℕ_discrete two_pages
two_pages-IsValid = insert-IsValid ℕ_discrete 2 20 one_page one_page-IsValid

-- `least_recently_used_page_is_evicted`
evicts_test : (insert ℕ_discrete 3 30 (fetch ℕ_discrete 1 two_pages).0).1 ≡ some (2, 20)
unfolding insert fetch new put del get ℕ_discrete discard
evicts_test = refl

insert-IsValid_example : IsValid ℕ_discrete (insert ℕ_discrete 3 30 two_pages).0
insert-IsValid_example = insert-IsValid ℕ_discrete 3 30 two_pages two_pages-IsValid

insert-Evicts_example : Evicts ℕ_discrete 3 30 two_pages
unfolding insert new contains_key put del ℕ_discrete get
insert-Evicts_example = insert-Evicts ℕ_discrete 3 30 two_pages two_pages-IsValid refl refl

-- `stale_results_cannot_finish_a_newer_request`
superseded_refused_example :
    let (t₁, old) = begin ℕ_discrete 7 default in
    let u = run ℕ_discrete (cancelling 8 ∷ []) (begin ℕ_discrete 7 t₁).0 in
    (is_current ℕ_discrete 7 old u ≡ false) × (finish ℕ_discrete 7 old u ≡ (u, false))
superseded_refused_example =
    superseded_refused ℕ_discrete 7 default (cancelling 8 ∷ []) (omega arith)

begin-finish_example :
    let (t₁, g) = begin ℕ_discrete 7 default in
    let (t₂, accepted) = finish ℕ_discrete 7 g t₁ in
    (is_current ℕ_discrete 7 g t₁ ≡ true)
    × (accepted ≡ true)
    × ((finish ℕ_discrete 7 g t₂).1 ≡ false)
    × (◌≢◌ {A = ℕ} 7 8 → is_current ℕ_discrete 8 1 t₂ ≡ is_current ℕ_discrete 8 1 default)
begin-finish_example = begin-finish ℕ_discrete 7 8 1 default

-- `duplicates_and_gaps_are_explicit`
observe_test :
    (observe_all (10 ∷ 11 ∷ 14 ∷ []) (from_snapshot 10)).1 ≡ duplicate ∷ in_order ∷ gap 12 14 ∷ []
unfolding observe_all observe from_snapshot
observe_test = refl

observe_all_accounts_example :
    let (u, statuses) = observe_all (10 ∷ 11 ∷ 14 ∷ []) (from_snapshot 10) in
    (u.last_committed ≡ largest 10 (10 ∷ 11 ∷ 14 ∷ []))
    × (u.last_committed ≡ 10 + advances statuses + skipped statuses)
unfolding from_snapshot
observe_all_accounts_example =
    observe_all_accounts (10 ∷ 11 ∷ 14 ∷ []) (from_snapshot 10)
      (omega arith, (omega arith, (omega arith, tt)))
