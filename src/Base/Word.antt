-- ===== src/Base/Word.antt =====
-- Unsigned machine words as native numbers with their bounds, and the standard library's
-- saturating and checked arithmetic on them.
use Prim.Native.Nat.{ℕ, ◌+◌, ◌-◌, ◌*◌, ◌/◌, ◌%◌, ◌^◌, ◌≤◌, ◌<◌, min}
use mathlib.Core.Path.{◌≡◌}
use mathlib.Core.Logic.{◌⊎◌, inl, inr}
use mathlib.Core.Option.{Option, none, some}
use malleus_rtos.Base.Tests.{ltb, ◌==◌, if◌then◌else◌, ==_iff, Bool-cases}
use native.Mathlib.Omega.{arith}
use native.Mathlib.Nat.{pow-suc}

-- Linear arithmetic with powers that are halved or doubled.
pub ruleset powers = (arith, pow-suc)

abbrev pub u8_max : ℕ
u8_max = 2 ^ 8 - 1

abbrev pub u16_max : ℕ
u16_max = 2 ^ 16 - 1

abbrev pub u32_max : ℕ
u32_max = 2 ^ 32 - 1

abbrev pub u64_max : ℕ
u64_max = 2 ^ 64 - 1

abbrev pub saturating_add_u64 : ℕ → ℕ → ℕ
saturating_add_u64 a b = min (a + b) u64_max

abbrev pub saturating_mul_u64 : ℕ → ℕ → ℕ
saturating_mul_u64 a b = min (a * b) u64_max

abbrev pub saturating_add_u32 : ℕ → ℕ → ℕ
saturating_add_u32 a b = min (a + b) u32_max

abbrev pub saturating_mul_u16 : ℕ → ℕ → ℕ
saturating_mul_u16 a b = min (a * b) u16_max

-- `checked_mul` on `u64`: `none` where the product does not fit.
abbrev pub checked_mul_u64 : ℕ → ℕ → Option ℕ
checked_mul_u64 a b = if ltb u64_max (a * b) then none else some (a * b)

-- `div_ceil`, for a divisor that is not zero (the source panics on zero).
unfoldable pub div_ceil : ℕ → ℕ → ℕ
div_ceil a b = if a % b == 0 then a / b else a / b + 1

-- The rounded quotient, with the remainder that decides it.
div_ceil_cases :
    (a b : ℕ) → ((a % b ≡ 0) × (div_ceil a b ≡ a / b)) ⊎ ((0 < a % b) × (div_ceil a b ≡ a / b + 1))
unfolding div_ceil
div_ceil_cases a b = elim (Bool-cases (a % b == 0)) [
  | inl e ↦ inl ((==_iff (a % b) 0).0 e, rw e)
  | inr e ↦ inr (ground arith, rw e)
]

-- The quotient rounded up: the least number of `b`s that reach `a`.
pub div_ceil_reaches : (a b : ℕ) → 0 < b → a ≤ div_ceil a b * b
div_ceil_reaches a b h = grind (arith, div_ceil_cases a b)

pub div_ceil_within : (a b : ℕ) → 0 < b → div_ceil a b * b < a + b
div_ceil_within a b h = grind (arith, div_ceil_cases a b)

pub div_ceil_least : (a b k : ℕ) → 0 < b → a ≤ k * b → div_ceil a b ≤ k
div_ceil_least a b k h r = grind (arith, div_ceil_within a b h)

pub div_ceil_mono : (a a' b : ℕ) → 0 < b → a ≤ a' → div_ceil a b ≤ div_ceil a' b
div_ceil_mono a a' b h r =
    div_ceil_least a b (div_ceil a' b) h (omega (arith, div_ceil_reaches a' b h))
