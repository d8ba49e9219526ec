-- ===== src/Base/Sets.antt =====
-- The program's hash sets and B-tree sets: a list of members under a decidable equality.
use mathlib.Core.Path.{◌≡◌, refl}
use mathlib.Core.Bool.{Bool, true, false}
use mathlib.Core.Logic.{ite, ◌⊎◌, inl, inr}
use mathlib.Core.List.{List, [], ◌∷◌, ◌++◌}
use Prim.Native.Nat.{◌+◌, ◌≤◌}
use native.Mathlib.Omega.{arith}
use perseval.Base.Tests.{if◌then◌else◌}
use perseval.Base.Lists.{length}

module _ {A : Type 0} (dec : Discrete A) where
  unfoldable pub contains : A → List A → Bool
  contains a [] = false
  contains a (x ∷ xs) = ite (dec x a) true (contains a xs)

  -- Every occurrence goes.
  unfoldable pub discard : A → List A → List A
  discard a [] = []
  discard a (x ∷ xs) = let rest = discard a xs in ite (dec x a) rest (x ∷ rest)

  -- `insert`: a member that is present stays where it is.
  unfoldable pub include : A → List A → List A
  include a xs = if contains a xs then xs else a ∷ xs

  pub contains_self : (a : A) (xs : List A) → contains a (a ∷ xs) ≡ true
  unfolding contains
  contains_self a xs = ground arith

  pub contains-append :
      (b : A) (xs ys : List A)
      → contains b (xs ++ ys) ≡ (if contains b xs then true else contains b ys)
  unfolding contains
  contains-append b [] ys = refl
  contains-append b (x ∷ xs) ys = ground (arith, contains-append b xs ys)

  pub contains-discard :
      (a b : A) (xs : List A) → contains b (discard a xs) ≡ ite (dec a b) false (contains b xs)
  unfolding contains discard
  contains-discard a b [] = ground arith
  contains-discard a b (x ∷ xs) = ground (arith, contains-discard a b xs)

  pub contains-include :
      (a b : A) (xs : List A) → contains b (include a xs) ≡ ite (dec a b) true (contains b xs)
  unfolding include contains
  contains-include a b xs = ground arith

  pub discard_absent : (a : A) (xs : List A) → contains a xs ≡ false → discard a xs ≡ xs
  unfolding contains discard
  discard_absent a [] h = refl
  discard_absent a (x ∷ xs) h = ground (arith, discard_absent a xs)

  pub length-discard-le : (a : A) (xs : List A) → length (discard a xs) ≤ length xs
  unfolding discard
  length-discard-le a [] = omega arith
  length-discard-le a (x ∷ xs) = ground (arith, length-discard-le a xs)

  pub length-discard_present_le :
      (a : A) (xs : List A) → contains a xs ≡ true → length (discard a xs) + 1 ≤ length xs
  unfolding contains discard
  length-discard_present_le a [] h = cc
  length-discard_present_le a (x ∷ xs) h =
      ground (arith, length-discard-le a xs, length-discard_present_le a xs)

  -- No member is listed twice.
  abbrev pub Distinct : List A → Type 0
  Distinct [] = Unit
  Distinct (x ∷ xs) = (contains x xs ≡ false) × Distinct xs

  pub discard-Distinct : (a : A) (xs : List A) → Distinct xs → Distinct (discard a xs)
  unfolding discard
  discard-Distinct a [] h = tt
  discard-Distinct a (x ∷ xs) h = ground (arith, contains-discard a x xs, discard-Distinct a xs h.1)

  pub length-discard_present :
      (a : A) (xs : List A)
      → Distinct xs
      → contains a xs ≡ true
      → length (discard a xs) + 1 ≡ length xs
  unfolding contains discard
  length-discard_present a [] h m = cc
  length-discard_present a (x ∷ xs) h m =
      ground (arith, discard_absent a xs, length-discard_present a xs h.1)

  pub contains-discard_self : (a : A) (xs : List A) → contains a (discard a xs) ≡ false
  contains-discard_self a xs = ground (arith, contains-discard a a xs)

  pub concat-Distinct :
      (a : A) (xs : List A) → Distinct xs → contains a xs ≡ false → Distinct (xs ++ a ∷ [])
  unfolding contains
  concat-Distinct a [] h n = (refl, tt)
  concat-Distinct a (x ∷ xs) h n =
      ground (arith, contains-append x xs (a ∷ []), concat-Distinct a xs h.1)

  -- Two lists without repetition that have the same members have the same length.
  pub length-eq_of_same :
      (xs ys : List A)
      → Distinct xs
      → Distinct ys
      → ((a : A) → contains a xs ≡ contains a ys)
      → length xs ≡ length ys
  unfolding contains
  length-eq_of_same [] [] h k same = refl
  length-eq_of_same [] (y ∷ ys) h k same = absurd (ground (arith, same y))
  length-eq_of_same (x ∷ xs) ys h k same = ground (
    arith,
    same x,
    discard-Distinct x ys k,
    length-discard_present x ys k,
    length-eq_of_same xs (discard x ys) h.1 (discard-Distinct x ys k)
        (λ a. ground (arith, same a, contains-discard x a ys)),
  )

  pub contains-cons_of : (a b : A) (xs : List A) → contains b xs ≡ true → contains b (a ∷ xs) ≡ true
  unfolding contains
  contains-cons_of a b xs h = ground arith

  abbrev pub Subset : List A → List A → Type 0
  Subset xs ys = (a : A) → contains a xs ≡ true → contains a ys ≡ true

  pub length-le_of_Subset : (xs ys : List A) → Distinct xs → Subset xs ys → length xs ≤ length ys
  unfolding contains
  length-le_of_Subset [] ys h sub = omega arith
  length-le_of_Subset (x ∷ xs) ys h sub =
      let rest : Subset xs (discard x ys) =
        λ a m. ground (arith, sub a, h.0, contains-discard x a ys) in
      let here : contains x ys ≡ true = sub x (contains_self x xs) in
      omega
        (arith, length-le_of_Subset xs (discard x ys) h.1 rest, length-discard_present_le x ys here)

  pub cons-Subset :
      (a : A) (xs ys : List A) → contains a ys ≡ true → Subset xs ys → Subset (a ∷ xs) ys
  unfolding contains
  cons-Subset a xs ys h sub = λ b m. ground (arith, sub b)

  pub contains-cons_cases :
      (a b : A) (xs : List A) → contains b (a ∷ xs) ≡ true → (a ≡ b) ⊎ (contains b xs ≡ true)
  unfolding contains
  contains-cons_cases a b xs h = elim (dec a b) [ yes p ↦ inl p | no p ↦ inr (ground arith) ]
