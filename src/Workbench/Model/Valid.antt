-- ===== src/Workbench/Model/Valid.antt =====
-- The invariant of the open editors, and that every action keeps it.

use perseval.Base.{
  List, [], ◌∷◌, ◌++◌, Option, some, Bool, true, false, find, contains, text_dec, All, Distinct,
  inl, inr, refl, arith, Bool-cases, Option-cases, ◌||◌, ◌≡◌, concat-Distinct, not, contains-append,
}
use perseval.Workbench.Tabs.{has_id, ids}
use perseval.Workbench.Tabs.Lookup.{
  find-some, find_unlisted, ids-update_first, All-update_first, All-append, ids-append,
  update_new-Distinct, contains-update_there, any_of_find,
}
use perseval.Workbench.Model.{opened}
use perseval.Workbench.State.{EditorTabState, EditorId, EditorResource, for_resource, new_tab}

-- Each tab has the key of its resource as its id.
abbrev pub Key : EditorTabState → Type 0
Key tab = tab.id ≡ for_resource tab.resource

abbrev pub Keyed : List EditorTabState → Type 0
Keyed = All Key

-- The editors of a state: keyed, no id twice, and the active one open.
pub record IsValid (editors : List EditorTabState) (active : Option EditorId) : Type 0 where
  pub keyed : Keyed editors
  pub distinct : Distinct text_dec (ids editors)
  pub listed : (id : EditorId) → active ≡ some id → contains text_dec id (ids editors) ≡ true

pub has_id-eq : (id : EditorId) (tab : EditorTabState) → has_id id tab ≡ true → tab.id ≡ id
has_id-eq id tab h = ground arith

pub append-IsValid :
    (editors : List EditorTabState) (resource : EditorResource) (pinned : Bool)
    → Keyed editors
    → Distinct text_dec (ids editors)
    → contains text_dec (for_resource resource) (ids editors) ≡ false
    → IsValid (editors ++ new_tab resource pinned ∷ []) (some (for_resource resource))
unfolding contains
append-IsValid editors resource pinned k d new = record {
  keyed = All-append Key editors (new_tab resource pinned) k refl;
  distinct = rw ids-append (concat-Distinct text_dec (for_resource resource) (ids editors) d new);
  listed = λ id e.
      rw ids-append
        (ground (arith, contains-append text_dec id (ids editors) (for_resource resource ∷ [])));
}

pub opened-IsValid :
    (resource : EditorResource) (pinned : Bool) (editors : List EditorTabState)
    → Keyed editors
    → Distinct text_dec (ids editors)
    → IsValid (opened resource pinned editors) (some (for_resource resource))
unfolding opened
opened-IsValid resource pinned editors k d =
    let id = for_resource resource in
    elim (Option-cases (find (has_id id) editors)) [
      | inr (tab, e) ↦
          let same =
            ids-update_first (has_id id)
              (λ tab. record tab { pinned = tab.pinned || pinned; resource = resource }) editors
              (λ t. refl) in
          rw (e, opened)
            (record {
              keyed = All-update_first Key (has_id id) _ editors (λ t h a. has_id-eq id t h) k;
              distinct = rw same d;
              listed = λ i q. rw same (
                  ground (
                    arith,
                    (find-some (has_id id) editors tab e).1,
                    has_id-eq id tab (find-some (has_id id) editors tab e).0,
                  ));
            })
      | inl e ↦
          let new = find_unlisted id editors e in
          elim (Bool-cases pinned) [
            | inl h ↦ rw (e, opened) (rw h (append-IsValid editors resource true k d new))
            | inr h ↦
                rw (e, opened)
                  (rw h (elim (Option-cases (find (λ tab. not tab.pinned) editors)) [
                    | inl q ↦ rw q (append-IsValid editors resource false k d new)
                    | inr (tab, q) ↦ rw q (record {
                      keyed =
                          All-update_first Key (λ tab. not tab.pinned) _ editors (λ t u a. refl) k;
                      distinct =
                          update_new-Distinct (λ tab. not tab.pinned) (new_tab resource false)
                            editors new d;
                      listed = λ i p. ground (
                        arith,
                        contains-update_there (λ tab. not tab.pinned) (new_tab resource false)
                            editors (any_of_find (λ tab. not tab.pinned) editors tab q),
                      );
                    })
                  ]))
          ]
    ]
