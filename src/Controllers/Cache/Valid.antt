-- ===== src/Controllers/Cache/Valid.antt =====
-- The invariant of the page cache, and that every method keeps it.
use perseval.Base.{
  ℕ, ◌≤◌, ◌≡◌, refl, ◌∷◌, ◌++◌, List, [], true, arith, length, discard, contains, Distinct, keys,
  contains-discard, contains-append, discard-Distinct, ite, concat-Distinct, contains-discard_self,
  ap, length-eq_of_same, put, Bool-cases, keys-del, ◌+◌, ◌<◌, del, get, leb, length-discard-le, inl,
  length-discard_present, inr, leb→le, ◌∙◌, contains-keys-some, contains_self, Option, none, some,
  length-keys,
}
use perseval.Controllers.Cache.{Cache, new, clear, evict_front, fetch, fetch_found, insert}

module _ {K : Type 0} (dec : Discrete K) where
  -- The recency queue lists each cached key once and no other key.
  pub record Tracks (pages recency : List K) : Type 0 where
    pub distinct_pages : Distinct dec pages
    pub distinct_recency : Distinct dec recency
    pub same : (k : K) → contains dec k pages ≡ contains dec k recency

  contains-touched :
      (a b : K) (xs : List K)
      → contains dec b (discard dec a xs ++ a ∷ []) ≡ ite (dec a b) true (contains dec b xs)
  unfolding contains
  contains-touched a b xs =
      ground (arith, contains-append dec b (discard dec a xs) (a ∷ []), contains-discard dec a b xs)

  touched-Distinct :
      (a : K) (xs : List K) → Distinct dec xs → Distinct dec (discard dec a xs ++ a ∷ [])
  touched-Distinct a xs h =
      concat-Distinct dec a (discard dec a xs) (discard-Distinct dec a xs h)
        (contains-discard_self dec a xs)

  -- A hit moves its key to the back of the queue.
  Tracks-touch :
      (key : K) (pages recency : List K)
      → Tracks pages recency
      → contains dec key pages ≡ true
      → Tracks pages (discard dec key recency ++ key ∷ [])
  Tracks-touch key pages recency t h = record {
    distinct_pages = t.distinct_pages;
    distinct_recency = touched-Distinct key recency t.distinct_recency;
    same = λ k. ground (arith, contains-touched key k recency, t.same k);
  }

  Tracks-insert :
      (key : K) (pages recency : List K)
      → Tracks pages recency
      → Tracks (key ∷ discard dec key pages) (discard dec key recency ++ key ∷ [])
  unfolding contains
  Tracks-insert key pages recency t = record {
    distinct_pages =
        (contains-discard_self dec key pages, discard-Distinct dec key pages t.distinct_pages);
    distinct_recency = touched-Distinct key recency t.distinct_recency;
    same = λ k.
        ground (arith, contains-touched key k recency, contains-discard dec key k pages, t.same k);
  }

  Tracks-evict :
      (oldest : K) (pages rest : List K)
      → Tracks pages (oldest ∷ rest)
      → Tracks (discard dec oldest pages) rest
  unfolding contains
  Tracks-evict oldest pages rest t = record {
    distinct_pages = discard-Distinct dec oldest pages t.distinct_pages;
    distinct_recency = t.distinct_recency.1;
    same = λ k. ground (arith, contains-discard dec oldest k pages, t.same k, t.distinct_recency.0);
  }

module _ {K V : Type 0} (dec : Discrete K) where
  pub record IsValid (c : Cache K V) : Type 0 where
    pub tracks : Tracks dec (keys c.pages) c.recency
    pub positive : 1 ≤ c.capacity
    pub bounded : length c.pages ≤ c.capacity

  pub new-IsValid : (capacity : ℕ) → IsValid (new capacity)
  unfolding new contains
  new-IsValid capacity = record {
    tracks = record { distinct_pages = tt; distinct_recency = tt; same = λ k. refl };
    positive = omega arith;
    bounded = omega arith;
  }

  pub clear-IsValid : (c : Cache K V) → IsValid c → IsValid (clear c)
  unfolding clear contains
  clear-IsValid c v = record {
    tracks = record { distinct_pages = tt; distinct_recency = tt; same = λ k. refl };
    positive = v.positive;
    bounded = omega arith;
  }

  keys-put :
      (key : K) (value : V) (m : List (K × V))
      → keys (put dec key value m) ≡ key ∷ discard dec key (keys m)
  unfolding put
  keys-put key value m = ap (◌∷◌ key) (keys-del dec key m)

  -- A valid cache has as many keys in its queue as it has pages.
  pub length-recency : (c : Cache K V) → IsValid c → length c.recency ≡ length c.pages
  length-recency c v = omega (
    arith,
    length-keys c.pages,
    length-eq_of_same dec (keys c.pages) c.recency v.tracks.distinct_pages v.tracks.distinct_recency
        v.tracks.same,
  )

  pub length-put-le :
      (key : K) (value : V) (m : List (K × V)) → length (put dec key value m) ≤ length m + 1
  length-put-le key value m = omega (
    arith,
    length-keys (put dec key value m),
    ap length (keys-put key value m),
    length-discard-le dec key (keys m),
    length-keys m,
  )

  pub length-put_present :
      (key : K) (value : V) (m : List (K × V))
      → Distinct dec (keys m)
      → (old : V) → get dec key m ≡ some old
      → length (put dec key value m) ≡ length m
  length-put_present key value m d old hit = omega (
    arith,
    length-keys (put dec key value m),
    ap length (keys-put key value m),
    length-discard_present dec key (keys m) d (contains-keys-some dec key m old hit),
    length-keys m,
  )

  pub Tracks-put :
      (key : K) (value : V) (m : List (K × V)) (recency : List K)
      → Tracks dec (keys m) recency
      → Tracks dec (keys (put dec key value m)) (discard dec key recency ++ key ∷ [])
  Tracks-put key value m recency t = rw keys-put (Tracks-insert dec key (keys m) recency t)

  evict_front-IsValid :
      (queue : List K) (c : Cache K V)
      → c.recency ≡ queue
      → Tracks dec (keys c.pages) queue
      → 1 ≤ c.capacity
      → c.capacity < length c.pages
      → length c.pages ≤ c.capacity + 1
      → IsValid (evict_front dec queue c).0
  unfolding evict_front
  evict_front-IsValid [] c e t p full b = absurd (
      omega (
        arith,
        length-keys c.pages,
        length-eq_of_same dec (keys c.pages) [] t.distinct_pages t.distinct_recency t.same,
      ))
  evict_front-IsValid (oldest ∷ rest) c e t p full b = record {
    tracks = rw keys-del (Tracks-evict dec oldest (keys c.pages) rest t);
    positive = p;
    bounded = omega (
      arith,
      length-keys (del dec oldest c.pages),
      length-keys c.pages,
      ap length (keys-del dec oldest c.pages),
      length-discard_present dec oldest (keys c.pages) t.distinct_pages
          (t.same oldest ∙ contains_self dec oldest rest),
    );
  }

  -- Storing a page keeps the invariant: the cache never holds more pages than its capacity.
  pub insert-IsValid :
      (key : K) (value : V) (c : Cache K V) → IsValid c → IsValid (insert dec key value c).0
  unfolding insert
  insert-IsValid key value c v =
      let m = put dec key value c.pages in
      let t = Tracks-put key value c.pages c.recency v.tracks in
      elim (Bool-cases (leb (length m) c.capacity)) [
        | inl fits ↦
            rw fits (record { tracks = t; positive = v.positive; bounded = leb→le _ _ fits })
        | inr full ↦ rw full (
            evict_front-IsValid (discard dec key c.recency ++ key ∷ [])
              (record c { pages = m; recency = discard dec key c.recency ++ key ∷ [] }) refl t
              v.positive (ground arith) (omega (arith, v.bounded, length-put-le key value c.pages)))
      ]

  fetch_found-IsValid :
      (key : K) (found : Option V) (c : Cache K V)
      → get dec key c.pages ≡ found
      → IsValid c
      → IsValid (fetch_found dec key found c).0
  unfolding fetch_found
  fetch_found-IsValid key none c e v = v
  fetch_found-IsValid key (some value) c e v = record {
    tracks =
        Tracks-touch dec key (keys c.pages) c.recency v.tracks
          (contains-keys-some dec key c.pages value e);
    positive = v.positive;
    bounded = v.bounded;
  }

  -- Reading a page keeps the invariant.
  pub fetch-IsValid : (key : K) (c : Cache K V) → IsValid c → IsValid (fetch dec key c).0
  unfolding fetch
  fetch-IsValid key c v = fetch_found-IsValid key (get dec key c.pages) c refl v
