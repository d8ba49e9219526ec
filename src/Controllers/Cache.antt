-- ===== src/Controllers/Cache.antt =====
-- `BoundedPageCache` of apps/perseval-app/src/controllers/bounded_cache.rs. The hash map is an
-- association list, the recency queue a list with the oldest key first. A method returns the new
-- cache beside its result.
pub mod Valid
pub mod Evicts
use perseval.Base.{
  ℕ, ◌≤◌, max, ◌∷◌, ◌++◌, List, [], Option, none, some, Bool, true, false, leb, if◌then◌else◌,
  length, discard, contains, keys, get, put, del, map,
}

pub record Cache (K V : Type 0) : Type 0 where
  pub capacity : ℕ
  pub pages : List (K × V)
  pub recency : List K

module _ {K V : Type 0} where
  unfoldable pub new : ℕ → Cache K V
  new capacity = record { capacity = max capacity 1; pages = []; recency = [] }

  unfoldable pub clear : Cache K V → Cache K V
  clear c = record c { pages = []; recency = [] }

  unfoldable pub len : Cache K V → ℕ
  len c = length c.pages

  -- `values`, in the order of the association list; the hash map's own order is unspecified.
  unfoldable pub values : Cache K V → List V
  values c = map (λ e. e.1) c.pages

module _ {K V : Type 0} (dec : Discrete K) where
  unfoldable pub touch : K → Cache K V → Cache K V
  touch key c = record c { recency = discard dec key c.recency ++ key ∷ [] }

  -- `self.pages.remove(&evicted_key).map(|value| (evicted_key, value))`
  unfoldable pub evict : K → Cache K V → Cache K V × Option (K × V)
  evict key c = (
    record c { pages = del dec key c.pages },
    elim (get dec key c.pages) [ none ↦ none | some value ↦ some (key, value) ],
  )

  -- `self.recency.pop_front()?`, and the removal of that page.
  unfoldable pub evict_front : List K → Cache K V → Cache K V × Option (K × V)
  unfolding evict
  evict_front [] c = (c, none)
  evict_front (oldest ∷ rest) c = evict oldest (record c { recency = rest })

  unfoldable pub insert : K → V → Cache K V → Cache K V × Option (K × V)
  unfolding touch evict_front
  insert key value c =
      let t = touch key c in
      let u = record t { pages = put dec key value t.pages } in
      if leb (length u.pages) u.capacity then (u, none) else evict_front u.recency u

  unfoldable pub peek : K → Cache K V → Option V
  peek key c = get dec key c.pages

  unfoldable pub contains_key : K → Cache K V → Bool
  contains_key key c = elim (get dec key c.pages) [ none ↦ false | some _ ↦ true ]

  unfoldable pub fetch_found : K → Option V → Cache K V → Cache K V × Option V
  unfolding touch
  fetch_found key none c = (c, none)
  fetch_found key (some value) c = (touch key c, some value)

  -- `get` of the source.
  unfoldable pub fetch : K → Cache K V → Cache K V × Option V
  unfolding fetch_found
  fetch key c = fetch_found key (get dec key c.pages) c
