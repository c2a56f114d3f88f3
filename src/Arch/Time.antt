-- ===== src/Arch/Time.antt =====
-- crates/malleus-arch/src/time.rs: instants in ticks, and the tick rate of a board's timer.
pub mod Rounding
mod Examples
use malleus_rtos.Base.{ℕ, ◌-◌, ◌≤◌, ◌<◌, ltb, if◌then◌else◌, Option, none, some}
use malleus_rtos.Base.{u32_max, u64_max, saturating_add_u64, saturating_mul_u64, div_ceil}

-- The newtype over `u64`.
pub record Instant : Type 0 where
  pub ticks : ℕ

abbrev pub IsInstant : Instant → Type 0
IsInstant t = t.ticks ≤ u64_max

abbrev pub zero_instant : Instant
zero_instant = record { ticks = 0 }

abbrev pub from_ticks : ℕ → Instant
from_ticks n = record { ticks = n }

abbrev pub as_ticks : Instant → ℕ
as_ticks t = t.ticks

-- `saturating_sub`, which stops at 0 as subtraction here does.
abbrev pub saturating_since : Instant → Instant → ℕ
saturating_since t earlier = t.ticks - earlier.ticks

abbrev pub saturating_add_ticks : Instant → ℕ → Instant
saturating_add_ticks t n = record { ticks = saturating_add_u64 t.ticks n }

-- The newtype over `u32`.
pub record TickRate : Type 0 where
  pub hz : ℕ

-- The constructor lets only positive rates through.
abbrev pub IsTickRate : TickRate → Type 0
IsTickRate r = (0 < r.hz) × (r.hz ≤ u32_max)

-- `none` is the panic of the assertion.
unfoldable pub from_hz : ℕ → Option TickRate
from_hz hz = if ltb 0 hz then some (record { hz = hz }) else none

abbrev pub as_hz : TickRate → ℕ
as_hz r = r.hz

unfoldable pub ticks_from_micros : TickRate → ℕ → ℕ
ticks_from_micros r micros = div_ceil (saturating_mul_u64 micros r.hz) 1_000_000
