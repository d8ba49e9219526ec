-- ===== src/Base/Maps.antt =====
-- The program's hash maps and B-tree maps: an association list under a decidable equality of keys.
use mathlib.Core.Path.{◌≡◌, refl, ap}
use mathlib.Core.Bool.{true, false}
use mathlib.Core.Logic.{ite}
use mathlib.Core.Option.{Option, none, some}
use mathlib.Core.List.{List, [], ◌∷◌, map}
use native.Mathlib.Omega.{arith}
use Prim.Native.Nat.{◌+◌, ◌≤◌, suc}
use perseval.Base.Lists.{length}
use perseval.Base.Sets.{
  contains, discard, length-discard-le, Distinct, contains-discard_self, discard-Distinct,
}

module _ {K V : Type 0} where
  abbrev pub keys : List (K × V) → List K
  keys = map (λ e. e.0)

  pub length-keys : (m : List (K × V)) → length (keys m) ≡ length m
  length-keys [] = refl
  length-keys (e ∷ m) = ap suc (length-keys m)

module _ {K V : Type 0} (dec : Discrete K) where
  unfoldable pub get : K → List (K × V) → Option V
  get k [] = none
  get k ((j, v) ∷ m) = ite (dec j k) (some v) (get k m)

  -- `remove`
  unfoldable pub del : K → List (K × V) → List (K × V)
  del k [] = []
  del k ((j, v) ∷ m) = let rest = del k m in ite (dec j k) rest ((j, v) ∷ rest)

  -- `insert`
  unfoldable pub put : K → V → List (K × V) → List (K × V)
  put k v m = (k, v) ∷ del k m

  pub get-del : (k j : K) (m : List (K × V)) → get j (del k m) ≡ ite (dec k j) none (get j m)
  unfolding get del
  get-del k j [] = ground arith
  get-del k j ((i, v) ∷ m) = ground (arith, get-del k j m)

  pub get-put :
      (k j : K) (v : V) (m : List (K × V)) → get j (put k v m) ≡ ite (dec k j) (some v) (get j m)
  unfolding put get
  get-put k j v m = ground (arith, get-del k j m)

  pub keys-del : (k : K) (m : List (K × V)) → keys (del k m) ≡ discard dec k (keys m)
  unfolding del discard
  keys-del k [] = refl
  keys-del k ((i, v) ∷ m) = ground (arith, keys-del k m)

  -- A key is bound exactly if it is among the keys.
  pub contains-keys-none :
      (k : K) (m : List (K × V)) → get k m ≡ none → contains dec k (keys m) ≡ false
  unfolding get contains
  contains-keys-none k [] h = refl
  contains-keys-none k ((i, v) ∷ m) h = ground (arith, contains-keys-none k m)

  pub contains-keys-some :
      (k : K) (m : List (K × V)) (v : V) → get k m ≡ some v → contains dec k (keys m) ≡ true
  unfolding get contains
  contains-keys-some k [] v h = cc
  contains-keys-some k ((i, w) ∷ m) v h = ground (arith, contains-keys-some k m v)

  pub del_absent : (k : K) (m : List (K × V)) → get k m ≡ none → del k m ≡ m
  unfolding get del
  del_absent k [] h = refl
  del_absent k ((i, v) ∷ m) h = ground (arith, del_absent k m)

  pub get_of_contains :
      (k : K) (m : List (K × V)) → contains dec k (keys m) ≡ true → (v : V) × (get k m ≡ some v)
  unfolding get contains
  get_of_contains k [] h = cc
  get_of_contains k ((i, w) ∷ m) h = elim (dec i k) [
    | yes p ↦ (w, ground arith)
    | no p ↦ let (v, e) = get_of_contains k m (ground arith) in (v, ground arith)
  ]

  pub length-keys-put-le :
      (k : K) (v : V) (m : List (K × V)) → length (keys (put k v m)) ≤ length (keys m) + 1
  unfolding put
  length-keys-put-le k v m =
      omega (arith, ap length (keys-del k m), length-discard-le dec k (keys m))

  pub get-none_of_contains :
      (k : K) (m : List (K × V)) → contains dec k (keys m) ≡ false → get k m ≡ none
  unfolding get contains
  get-none_of_contains k [] h = refl
  get-none_of_contains k ((i, w) ∷ m) h = ground (arith, get-none_of_contains k m)

  pub del_unlisted : (k : K) (m : List (K × V)) → contains dec k (keys m) ≡ false → del k m ≡ m
  del_unlisted k m h = del_absent k m (get-none_of_contains k m h)

  pub put-Distinct :
      (k : K) (v : V) (m : List (K × V)) → Distinct dec (keys m) → Distinct dec (keys (put k v m))
  unfolding put
  put-Distinct k v m d =
      rw keys-del (contains-discard_self dec k (keys m), discard-Distinct dec k (keys m) d)
