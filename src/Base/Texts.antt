-- ===== src/Base/Texts.antt =====
-- Texts: decidable equality, and numbers as Rust's formatting prints them.
use Prim.Native.Char.{code}
use Prim.Native.String.{[], ◌∷◌}
use Prim.Native.String.{String, ◌++◌ as append}
use text.Mathlib.Text.{◌==◌ as str_eq}
use text.Mathlib.TextEquality.{eq_iff}
use native.Mathlib.Omega.{arith}
use Prim.Native.Nat.{ℕ, zero, suc, ◌/◌, ◌%◌}
use mathlib.Core.Bool.{Bool, true, false}
use mathlib.Core.Logic.{ite}
use mathlib.Core.Path.{◌≡◌, refl}
use perseval.Base.Tests.{ltb, ◌==◌, if◌then◌else◌}

abbrev decide : (s t : String) (b : Bool) → str_eq s t ≡ b → Dec (s ≡ t)
decide s t true e = yes ((eq_iff s t).0 e)
decide s t false e = no (λ p. let h = (eq_iff s t).1 p in cc)

unfoldable pub text_dec : Discrete String
text_dec s t = decide s t (str_eq s t) refl

abbrev digit : ℕ → String
digit n =
    if n == 0
    then "0"
    else if n == 1
    then "1"
    else if n == 2
    then "2"
    else if n == 3
    then "3"
    else if n == 4
    then "4"
    else if n == 5
    then "5"
    else if n == 6
    then "6"
    else if n == 7
    then "7"
    else if n == 8
    then "8"
    else "9"

-- The fuel is the number of digits that are printed at most.
unfoldable pub decimal : ℕ → ℕ → String
decimal zero n = ""
decimal (suc fuel) n =
    let before = decimal fuel (n / 10) in
    if ltb n 10 then digit n else append before (digit (n % 10))

-- The character at a place, as its number.
abbrev pub code_at : ℕ → String → ℕ
code_at n [] = 0
code_at zero (c ∷ s) = code c
code_at (suc n) (c ∷ s) = code_at n s

-- `==` of two texts.
abbrev pub same : String → String → Bool
same s t = ite (text_dec s t) true false

pub same→eq : (s t : String) → same s t ≡ true → s ≡ t
same→eq s t h = ground arith

pub same_self : (s : String) → same s s ≡ true
same_self s = ground arith
