-- ===== src/Workbench/Navigation/Valid.antt =====
-- The history stays in bounds, and moves only to editors that are available.

use perseval.Base.{
  ℕ, zero, suc, ◌+◌, ◌≤◌, ◌<◌, List, [], ◌∷◌, ◌++◌, Option, none, some, true, false, refl, arith,
  length, get_elem?, take, retain, not, inl, inr, Bool-cases, Option-cases, length-append,
  length-retain-le, ◌≡◌, ℕ_discrete, ◌⊎◌, ap, last?, ◌-◌, ltb, ◌∙◌,
}
use perseval.Workbench.State.{EditorId, EditorTabState}
use perseval.Workbench.Navigation.{
  EditorNavigation, current, is_current, record_editor, back, available_at, search_back,
  search_forward, move, next_index, remember_closed, reopen, max_closed_editors, without_first,
  has_id,
}

-- The cursor is at an entry, and not too many closed tabs are kept.
pub record IsValid (n : EditorNavigation) : Type 0 where
  pub inside : (cursor : ℕ) → n.cursor ≡ some cursor → cursor < length n.entries
  pub bounded : length n.closed ≤ max_closed_editors

-- What `search_back` finds is an available entry before the cursor, the nearest one.
search_back-found :
    (available entries : List EditorId) (cursor found : ℕ)
    → search_back available entries cursor ≡ some found
    → (found < cursor)
      × (available_at available entries found ≡ true)
      × ((i : ℕ) → found < i → i < cursor → available_at available entries i ≡ false)
unfolding search_back
search_back-found available entries zero found e = cc
search_back-found available entries (suc cursor) found e =
    elim (Bool-cases (available_at available entries cursor)) [
      | inl here ↦
          let same : cursor ≡ found = ground arith in
          (omega (arith, same), rw (← same) here, λ i lt le. absurd (omega (arith, same)))
      | inr no_entry ↦
          let (lt, h, nearest) = search_back-found available entries cursor found (ground arith) in
          (
            omega (arith, lt),
            h,
            λ i gt le. elim (ℕ_discrete i cursor) [
              | yes p ↦ rw p no_entry
              | no p ↦ nearest i gt (omega (arith, p))
            ],
          )
    ]

-- Where it finds nothing, no entry before the cursor is available.
search_back-none :
    (available entries : List EditorId) (cursor i : ℕ)
    → search_back available entries cursor ≡ none
    → i < cursor
    → available_at available entries i ≡ false
unfolding search_back
search_back-none available entries zero i e lt = absurd (omega arith)
search_back-none available entries (suc cursor) i e lt =
    elim (Bool-cases (available_at available entries cursor)) [
      | inl here ↦ absurd (ground arith)
      | inr no_entry ↦ elim (ℕ_discrete i cursor) [
        | yes p ↦ rw p no_entry
        | no p ↦ search_back-none available entries cursor i (ground arith) (omega (arith, p))
      ]
    ]

search_forward-found :
    (available entries : List EditorId) (rounds cursor found : ℕ)
    → search_forward available entries rounds cursor ≡ some found
    → (cursor < found)
      × (found ≤ cursor + rounds)
      × (available_at available entries found ≡ true)
      × ((i : ℕ) → cursor < i → i < found → available_at available entries i ≡ false)
unfolding search_forward
search_forward-found available entries zero cursor found e = cc
search_forward-found available entries (suc rounds) cursor found e =
    elim (Bool-cases (available_at available entries (cursor + 1))) [
      | inl here ↦
          let same : cursor + 1 ≡ found = ground arith in
          (
            omega (arith, same),
            omega (arith, same),
            rw (← same) here,
            λ i lt le. absurd (omega (arith, same)),
          )
      | inr no_entry ↦
          let (lt, le, h, nearest) =
            search_forward-found available entries rounds (cursor + 1) found (ground arith) in
          (
            omega (arith, lt),
            omega (arith, le),
            h,
            λ i gt lt'. elim (ℕ_discrete i (cursor + 1)) [
              | yes p ↦ rw p no_entry
              | no p ↦ nearest i (omega (arith, p)) lt'
            ],
          )
    ]

-- `back` goes to the nearest available entry before the cursor, and returns it; it returns nothing
-- only where no entry before the cursor is available, and then it changes nothing.
pub back_nearest :
    (available : List EditorId) (n : EditorNavigation) (cursor : ℕ)
    → n.cursor ≡ some cursor
    → let (next, editor) = back available n in
      ((next ≡ n)
        × (editor ≡ none)
        × ((i : ℕ) → i < cursor → available_at available n.entries i ≡ false))
      ⊎ ((found : ℕ) × (found < cursor)
          × (next ≡ record n { cursor = some found })
          × (editor ≡ current next)
          × (available_at available n.entries found ≡ true)
          × ((i : ℕ) → found < i → i < cursor → available_at available n.entries i ≡ false))
unfolding back move current
back_nearest available n cursor e = elim (Option-cases (search_back available n.entries cursor)) [
  | inl none_found ↦
      rw (e, back)
        (rw none_found (
          inl (
            ap (λ x. record n { cursor = x }) e,
            refl,
            λ i lt. search_back-none available n.entries cursor i none_found lt,
          )))
  | inr (found, f) ↦
      let (lt, h, nearest) = search_back-found available n.entries cursor found f in
      rw (e, back) (rw f (inr (found, lt, refl, refl, h, nearest)))
]

get_elem-append :
    (xs : List EditorId) (x : EditorId) → get_elem? (xs ++ x ∷ []) (length xs) ≡ some x
get_elem-append [] x = refl
get_elem-append (y ∷ xs) x = get_elem-append xs x

is_current-eq :
    (editor : EditorId) (found : Option EditorId)
    → is_current editor found ≡ true
    → found ≡ some editor
unfolding is_current
is_current-eq editor none h = cc
is_current-eq editor (some id) h = ground arith

last-append : (xs : List EditorTabState) (x : EditorTabState) → last? (xs ++ x ∷ []) ≡ some x
last-append [] x = refl
last-append (y ∷ []) x = refl
last-append (y ∷ z ∷ xs) x = last-append (z ∷ xs) x

last-without_first :
    (xs : List EditorTabState) → 1 < length xs → last? (without_first xs) ≡ last? xs
last-without_first [] h = absurd (omega arith)
last-without_first (x ∷ []) h = absurd (omega arith)
last-without_first (x ∷ y ∷ xs) h = refl

length-without_first : (xs : List EditorTabState) → length (without_first xs) ≡ length xs - 1
length-without_first [] = omega arith
length-without_first (x ∷ xs) = omega arith

-- Recording an editor makes it the current one, and keeps the history in bounds.
pub record_editor-current :
    (editor : EditorId) (n : EditorNavigation)
    → IsValid n
    → (current (record_editor editor n) ≡ some editor) × IsValid (record_editor editor n)
unfolding record_editor current is_current
record_editor-current editor n v = elim (Bool-cases (is_current editor (current n))) [
  | inl same ↦ rw (same, record_editor) (is_current-eq editor (current n) same, v)
  | inr other ↦
      let kept = take (next_index n.cursor) n.entries in
      let size = length-append kept (editor ∷ []) in
      let last_index : length (kept ++ editor ∷ []) - 1 ≡ length kept = omega (arith, size) in
      rw (other, record_editor)
        (rw last_index (
          get_elem-append kept editor,
          record { inside = λ cursor e. ground (arith, size); bounded = v.bounded },
        ))
]

-- However many editors are closed, at most 32 are kept, and the last one closed is the one that
-- `reopen` gives back.
pub remember_closed-reopen :
    (tab : EditorTabState) (n : EditorNavigation)
    → IsValid n
    → IsValid (remember_closed tab n) × ((reopen (remember_closed tab n)).1 ≡ some tab)
unfolding remember_closed reopen
remember_closed-reopen tab n v =
    let kept = retain (λ c. not (has_id tab.id c)) n.closed in
    let closed = kept ++ tab ∷ [] in
    let size = length-append kept (tab ∷ []) in
    let fewer = length-retain-le (λ c. not (has_id tab.id c)) n.closed in
    elim (Bool-cases (ltb max_closed_editors (length closed))) [
      | inl over ↦
          rw (over, remember_closed)
            (
              record {
                inside = v.inside;
                bounded = omega (arith, length-without_first closed, size, fewer, v.bounded);
              },
              last-without_first closed (ground arith) ∙ last-append kept tab,
            )
      | inr fits ↦
          rw (fits, remember_closed)
            (record { inside = v.inside; bounded = ground arith }, last-append kept tab)
    ]
