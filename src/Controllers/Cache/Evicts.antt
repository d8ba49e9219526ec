-- ===== src/Controllers/Cache/Evicts.antt =====
-- Which page a full cache gives up, and what a lookup finds afterwards.
use perseval.Base.{
  ◌<◌, ◌≡◌, refl, ◌∙◌, sym, ap, ◌∷◌, ◌++◌, List, [], none, some, true, false, get, ite, length, put,
  arith, contains, ◌⊎◌, contains-keys-none, get-put, get_of_contains, leb, contains_self, inl, suc,
  del_absent, get-del, inr, Option-cases, discard_absent,
}
use perseval.Controllers.Cache.{Cache, insert, evict, peek, contains_key}
use perseval.Controllers.Cache.Valid.{IsValid, length-recency, length-put_present, length-put-le}

module _ {K V : Type 0} (dec : Discrete K) where
  length-put_fits :
      (key : K) (value : V) (c : Cache K V)
      → IsValid dec c
      → (length c.pages < c.capacity) ⊎ (contains_key dec key c ≡ true)
      → leb (length (put dec key value c.pages)) c.capacity ≡ true
  unfolding contains_key
  length-put_fits key value c v (inl room) = ground (arith, length-put-le dec key value c.pages)
  length-put_fits key value c v (inr present) = elim (Option-cases (get dec key c.pages)) [
    | inl miss ↦ absurd (ground arith)
    | inr (old, hit) ↦
        ground (
          arith,
          length-put_present dec key value c.pages v.tracks.distinct_pages old hit,
          v.bounded,
        )
  ]

  -- Storing a key that is present, or with room left, gives up no page, and changes that page only.
  pub insert_fits :
      (key : K) (value : V) (c : Cache K V)
      → IsValid dec c
      → (length c.pages < c.capacity) ⊎ (contains_key dec key c ≡ true)
      → ((insert dec key value c).1 ≡ none)
        × ((j : K)
            → peek dec j (insert dec key value c).0 ≡ ite (dec key j) (some value) (peek dec j c))
  unfolding insert peek
  insert_fits key value c v h =
      let fits = length-put_fits key value c v h in
      (rw fits refl, λ j. rw fits (get-put dec key j value c.pages))

  -- The least recently used page `oldest` is given up, the new key becomes the newest, and every
  -- other page stays.
  abbrev pub Evicts : K → V → Cache K V → Type 0
  Evicts key value c =
      (oldest : K) × (rest : List K) × (old : V) × (c.recency ≡ oldest ∷ rest)
      × (peek dec oldest c ≡ some old)
      × ((insert dec key value c).1 ≡ some (oldest, old))
      × ((insert dec key value c).0.recency ≡ rest ++ key ∷ [])
      × ((j : K)
          → peek dec j (insert dec key value c).0
            ≡ ite (dec oldest j) none (ite (dec key j) (some value) (peek dec j c)))

  insert-evict :
      (key : K) (value : V) (c : Cache K V) (oldest : K) (rest : List K)
      → IsValid dec c
      → length c.pages ≡ c.capacity
      → get dec key c.pages ≡ none
      → c.recency ≡ oldest ∷ rest
      → insert dec key value c
        ≡ evict dec oldest (record {
          capacity = c.capacity;
          pages = (key, value) ∷ c.pages;
          recency = rest ++ key ∷ [];
        })
  unfolding insert put
  insert-evict key value c oldest rest v full absent e =
      let unseen : contains dec key c.recency ≡ false =
        sym (v.tracks.same key) ∙ contains-keys-none dec key c.pages absent in
      let over : leb (suc (length c.pages)) c.capacity ≡ false = ground arith in
      rw (del_absent dec key c.pages absent, discard_absent dec key c.recency unseen, e, over) refl

  -- A full cache that stores a new key gives up its least recently used page, and only that one.
  pub insert-Evicts :
      (key : K) (value : V) (c : Cache K V)
      → IsValid dec c
      → length c.pages ≡ c.capacity
      → contains_key dec key c ≡ false
      → Evicts key value c
  unfolding evict peek contains_key get
  insert-Evicts key value c v full new = go c.recency refl
    where
      absent : get dec key c.pages ≡ none
      absent = ground arith

      go : (queue : List K) → c.recency ≡ queue → Evicts key value c
      go [] e = absurd (omega (arith, ap length e, length-recency dec c v, v.positive))
      go (oldest ∷ rest) e =
          let (old, found) =
            get_of_contains dec oldest c.pages
              (v.tracks.same oldest ∙ ap (contains dec oldest) e ∙ contains_self dec oldest rest) in
          let step = insert-evict key value c oldest rest v full absent e in
          (
            oldest,
            rest,
            old,
            e,
            found,
            rw step (ground arith),
            rw step refl,
            λ j. rw step (ground (arith, get-del dec oldest j ((key, value) ∷ c.pages))),
          )
