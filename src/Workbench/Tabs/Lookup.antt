-- ===== src/Workbench/Tabs/Lookup.antt =====
-- What finding, changing and keeping tabs does to their ids.

use perseval.Base.{
  List, [], ◌∷◌, ◌++◌, none, some, Bool, true, false, find, any, retain, contains, text_dec, All,
  Distinct, inl, inr, refl, arith, Bool-cases, ◌≡◌, ap, contains_self, ◌≢◌,
}
use mathlib.Core.Path.{subst}
use perseval.Workbench.Tabs.{has_id, ids, update_first}
use perseval.Workbench.State.{EditorTabState, EditorId}

pub any-has_id :
    (id : EditorId) (tabs : List EditorTabState)
    → any (has_id id) tabs ≡ contains text_dec id (ids tabs)
unfolding any contains
any-has_id id [] = refl
any-has_id id (tab ∷ tabs) = ground (arith, any-has_id id tabs)

-- What is found stands in the list, and satisfies the test.
pub find-some :
    (p : EditorTabState → Bool) (tabs : List EditorTabState) (tab : EditorTabState)
    → find p tabs ≡ some tab
    → (p tab ≡ true) × (contains text_dec tab.id (ids tabs) ≡ true)
unfolding find contains
find-some p [] tab e = cc
find-some p (t ∷ tabs) tab e = elim (Bool-cases (p t)) [
  | inl h ↦
      let same : t ≡ tab = ground arith in
      (
        ground arith,
        subst (λ u. contains text_dec u.id (ids (t ∷ tabs)) ≡ true) same
            (contains_self text_dec t.id (ids tabs)),
      )
  | inr h ↦ let (q, m) = find-some p tabs tab (ground arith) in (q, ground arith)
]

pub find-any :
    (p : EditorTabState → Bool) (tabs : List EditorTabState)
    → any p tabs ≡ true
    → (tab : EditorTabState) × (find p tabs ≡ some tab)
unfolding find any
find-any p [] h = cc
find-any p (t ∷ tabs) h = elim (Bool-cases (p t)) [
  | inl e ↦ (t, rw e refl)
  | inr e ↦ let (tab, f) = find-any p tabs (ground arith) in (tab, rw e f)
]

pub find-none :
    (p : EditorTabState → Bool) (tabs : List EditorTabState)
    → find p tabs ≡ none
    → All (λ tab. p tab ≡ false) tabs
unfolding find
find-none p [] e = tt
find-none p (t ∷ tabs) e = elim (Bool-cases (p t)) [
  | inl h ↦ absurd (ground arith)
  | inr h ↦ (h, find-none p tabs (ground arith))
]

pub find_unlisted :
    (id : EditorId) (tabs : List EditorTabState)
    → find (has_id id) tabs ≡ none
    → contains text_dec id (ids tabs) ≡ false
unfolding find contains
find_unlisted id [] e = refl
find_unlisted id (t ∷ tabs) e = ground (arith, find_unlisted id tabs)

pub ids-update_first :
    (p : EditorTabState → Bool) (f : EditorTabState → EditorTabState) (tabs : List EditorTabState)
    → ((t : EditorTabState) → (f t).id ≡ t.id)
    → ids (update_first p f tabs) ≡ ids tabs
unfolding update_first
ids-update_first p f [] h = refl
ids-update_first p f (t ∷ tabs) h = elim (Bool-cases (p t)) [
  | inl e ↦ rw e (ap (◌∷ (ids tabs)) (h t))
  | inr e ↦ rw e (ap (◌∷◌ t.id) (ids-update_first p f tabs h))
]

pub All-update_first {κ} :
    (P : EditorTabState → Type κ) (p : EditorTabState → Bool) (f : EditorTabState → EditorTabState)
    (tabs : List EditorTabState)
    → ((t : EditorTabState) → p t ≡ true → P t → P (f t))
    → All P tabs
    → All P (update_first p f tabs)
unfolding update_first
All-update_first P p f [] h a = tt
All-update_first P p f (t ∷ tabs) h a = elim (Bool-cases (p t)) [
  | inl e ↦ rw e (h t e a.0, a.1)
  | inr e ↦ rw e (a.0, All-update_first P p f tabs h a.1)
]

pub All-retain {κ} :
    (P : EditorTabState → Type κ) (p : EditorTabState → Bool) (tabs : List EditorTabState)
    → All P tabs
    → All P (retain p tabs)
unfolding retain
All-retain P p [] a = tt
All-retain P p (t ∷ tabs) a = elim (Bool-cases (p t)) [
  | inl e ↦ rw e (a.0, All-retain P p tabs a.1)
  | inr e ↦ rw e (All-retain P p tabs a.1)
]

pub retain-All :
    (p : EditorTabState → Bool) (tabs : List EditorTabState) → All (λ t. p t ≡ true) (retain p tabs)
unfolding retain
retain-All p [] = tt
retain-All p (t ∷ tabs) = elim (Bool-cases (p t)) [
  | inl e ↦ rw e (e, retain-All p tabs)
  | inr e ↦ rw e (retain-All p tabs)
]

pub All-append {κ} :
    (P : EditorTabState → Type κ) (tabs : List EditorTabState) (t : EditorTabState)
    → All P tabs
    → P t
    → All P (tabs ++ t ∷ [])
All-append P [] t a h = (h, tt)
All-append P (u ∷ tabs) t a h = (a.0, All-append P tabs t a.1 h)

pub ids-append :
    (tabs : List EditorTabState) (t : EditorTabState) → ids (tabs ++ t ∷ []) ≡ ids tabs ++ t.id ∷ []
ids-append [] t = refl
ids-append (u ∷ tabs) t = ap (◌∷◌ u.id) (ids-append tabs t)

-- Keeping tabs adds no id.
pub contains-retain :
    (p : EditorTabState → Bool) (id : EditorId) (tabs : List EditorTabState)
    → contains text_dec id (ids tabs) ≡ false
    → contains text_dec id (ids (retain p tabs)) ≡ false
unfolding retain contains
contains-retain p id [] h = refl
contains-retain p id (t ∷ tabs) h = ground (arith, contains-retain p id tabs)

pub retain-Distinct :
    (p : EditorTabState → Bool) (tabs : List EditorTabState)
    → Distinct text_dec (ids tabs)
    → Distinct text_dec (ids (retain p tabs))
unfolding retain
retain-Distinct p [] d = tt
retain-Distinct p (t ∷ tabs) d = elim (Bool-cases (p t)) [
  | inl e ↦ rw e (contains-retain p t.id tabs d.0, retain-Distinct p tabs d.1)
  | inr e ↦ rw e (retain-Distinct p tabs d.1)
]

-- A tab of the id that the test lets through stays.
pub contains-retain_kept :
    (p : EditorTabState → Bool) (id : EditorId) (tabs : List EditorTabState)
    → ((t : EditorTabState) → t.id ≡ id → p t ≡ true)
    → contains text_dec id (ids (retain p tabs)) ≡ contains text_dec id (ids tabs)
unfolding retain contains
contains-retain_kept p id [] h = refl
contains-retain_kept p id (t ∷ tabs) h = ground (arith, contains-retain_kept p id tabs h, h t)

-- A new id takes the place of another.
pub contains-update_new :
    (p : EditorTabState → Bool) (new : EditorTabState) (id : EditorId) (tabs : List EditorTabState)
    → contains text_dec id (ids tabs) ≡ false
    → new.id ≢ id
    → contains text_dec id (ids (update_first p (λ _. new) tabs)) ≡ false
unfolding update_first contains
contains-update_new p new id [] h n = refl
contains-update_new p new id (t ∷ tabs) h n = ground (arith, contains-update_new p new id tabs)

pub update_new-Distinct :
    (p : EditorTabState → Bool) (new : EditorTabState) (tabs : List EditorTabState)
    → contains text_dec new.id (ids tabs) ≡ false
    → Distinct text_dec (ids tabs)
    → Distinct text_dec (ids (update_first p (λ _. new) tabs))
unfolding update_first contains
update_new-Distinct p new [] h d = tt
update_new-Distinct p new (t ∷ tabs) h d = elim (Bool-cases (p t)) [
  | inl e ↦ rw e (ground arith, d.1)
  | inr e ↦ rw e (
    contains-update_new p new t.id tabs d.0 (λ q. ground arith),
    update_new-Distinct p new tabs (ground arith) d.1,
  )
]

pub contains-update_there :
    (p : EditorTabState → Bool) (new : EditorTabState) (tabs : List EditorTabState)
    → any p tabs ≡ true
    → contains text_dec new.id (ids (update_first p (λ _. new) tabs)) ≡ true
unfolding update_first contains any
contains-update_there p new [] h = cc
contains-update_there p new (t ∷ tabs) h = elim (Bool-cases (p t)) [
  | inl e ↦ rw e (contains_self text_dec new.id (ids tabs))
  | inr e ↦ rw e (ground (arith, contains-update_there p new tabs))
]

pub any_of_find :
    (p : EditorTabState → Bool) (tabs : List EditorTabState) (tab : EditorTabState)
    → find p tabs ≡ some tab
    → any p tabs ≡ true
unfolding find any
any_of_find p [] tab e = cc
any_of_find p (t ∷ tabs) tab e = ground (arith, any_of_find p tabs tab)
