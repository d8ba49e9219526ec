-- ===== src/Base/Words.antt =====
-- Unsigned 64-bit arithmetic as Rust's methods have it. A value is a plain number below `u64_mod`.
use Prim.Native.Nat.{ℕ, ◌+◌, ◌%◌}
use mathlib.Core.Option.{Option, none, some}
use perseval.Base.Tests.{ltb, if◌then◌else◌}

abbrev pub u64_mod : ℕ
u64_mod = 18446744073709551616

abbrev pub u64_max : ℕ
u64_max = 18446744073709551615

abbrev pub u32_max : ℕ
u32_max = 4294967295

-- `saturating_add` of an integer type whose largest value is `most`.
abbrev pub saturating_add : ℕ → ℕ → ℕ → ℕ
saturating_add most a b = if ltb most (a + b) then most else a + b

-- `wrapping_add` on u64.
abbrev pub wrapping_add : ℕ → ℕ → ℕ
wrapping_add a b = (a + b) % u64_mod

-- `checked_add` of an integer type whose largest value is `most`.
abbrev pub checked_add : ℕ → ℕ → ℕ → Option ℕ
checked_add most a b = if ltb most (a + b) then none else some (a + b)

abbrev pub i64_max : ℕ
i64_max = 9223372036854775807
