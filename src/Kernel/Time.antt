-- ===== src/Kernel/Time.antt =====
-- crates/malleusrt/src/time.rs: timeouts, and the activation schedule of a periodic task.
pub mod Activation
pub mod Schedule
pub mod Delay
mod Examples
use malleus_rtos.Base.{ℕ, ◌+◌, ◌-◌, ◌*◌, ◌/◌, ◌%◌, ◌^◌, ltb, ◌==◌, if◌then◌else◌, Bool, true, false}
use malleus_rtos.Base.{
  Option, none, some, u32_max, saturating_add_u32, saturating_mul_u64, div_ceil,
}
use malleus_rtos.Arch.Time.{Instant, saturating_add_ticks, saturating_since}

-- `immediate` is the source's `None`.
pub data Timeout : Type 0 where
  immediate : Timeout
  ticks : ℕ → Timeout
  until : Instant → Timeout
  forever : Timeout

unfoldable pub deadline_from : Timeout → Instant → Option Instant
deadline_from immediate now = some now
deadline_from (ticks t) now = some (saturating_add_ticks now t)
deadline_from (until i) now = some i
deadline_from forever now = none

unfoldable pub is_immediate : Timeout → Bool
is_immediate immediate = true
is_immediate _ = false

pub record Period : Type 0 where
  pub next : Instant
  pub interval : ℕ
  pub missed : ℕ

unfoldable pub starting_at : Instant → ℕ → Period
starting_at start interval_ticks = record {
  next = saturating_add_ticks start interval_ticks;
  interval = interval_ticks;
  missed = 0;
}

abbrev pub next_activation : Period → Instant
next_activation p = p.next

abbrev pub missed_activations : Period → ℕ
missed_activations p = p.missed

-- The periods to skip when the new target lies `behind` ticks in the past.
unfoldable pub skipped_periods : ℕ → ℕ → ℕ
skipped_periods behind interval = if interval == 0 then 1 else div_ceil behind interval

-- The skip count as a `u32`, saturated.
unfoldable pub skipped_count : ℕ → ℕ
skipped_count skipped = if ltb u32_max skipped then u32_max else skipped

-- The catch-up of a target that lies before `now`.
unfoldable pub catch_up : Period → Instant → Period
unfolding skipped_periods skipped_count
catch_up p now =
    let skipped = skipped_periods (saturating_since now p.next) p.interval in
    record p {
      missed = saturating_add_u32 p.missed (skipped_count skipped);
      next = saturating_add_ticks p.next (saturating_mul_u64 skipped p.interval);
    }

-- The new state; the result of the source's call is its `next`.
unfoldable pub advance : Period → Instant → Period
unfolding catch_up
advance p now =
    let stepped : Period = record p { next = saturating_add_ticks p.next p.interval } in
    if ltb stepped.next.ticks now.ticks then catch_up stepped now else stepped
