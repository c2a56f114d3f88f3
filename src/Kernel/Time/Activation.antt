-- ===== src/Kernel/Time/Activation.antt =====
-- What `Period::advance` guarantees.
use native.Mathlib.Decide.{dec_lt}
use malleus_rtos.Base.{ℕ, suc, ◌+◌, ◌-◌, ◌*◌, ◌≤◌, ◌<◌, ◌≡◌, min, arith, u32_max, u64_max, div_ceil}
use malleus_rtos.Base.{lt→ltb, le→ltb, ◌⊎◌, saturating_add_u64, refl}
use malleus_rtos.Base.Word.{div_ceil_reaches, div_ceil_within, div_ceil_least}
use malleus_rtos.Arch.Time.{Instant, IsInstant}
use malleus_rtos.Kernel.Time.{Period, advance}

-- The interval is positive and every field fits its width.
pub record IsPeriod (p : Period) : Type 0 where
  pub positive : 0 < p.interval
  pub in_range : p.interval ≤ u64_max
  pub target : p.next.ticks ≤ u64_max
  pub counter : p.missed ≤ u32_max

-- The target one interval on.
abbrev stepped : Period → ℕ
stepped p = saturating_add_u64 p.next.ticks p.interval

skips : Period → Instant → ℕ
skips p now = div_ceil (now.ticks - stepped p) p.interval

advance_on_time :
    (p : Period) (now : Instant)
    → now.ticks ≤ stepped p
    → ((advance p now).next.ticks ≡ stepped p) × ((advance p now).missed ≡ p.missed)
unfolding advance
advance_on_time p now h = rw (le→ltb now.ticks (stepped p) h) (refl, refl)

advance_late :
    (p : Period) (now : Instant)
    → 0 < p.interval
    → stepped p < now.ticks
    → ((advance p now).next.ticks
        ≡ min (stepped p + min (skips p now * p.interval) u64_max) u64_max)
      × ((advance p now).missed ≡ min (p.missed + min (skips p now) u32_max) u32_max)
unfolding advance skips
advance_late p now pos h = rw (lt→ltb (stepped p) now.ticks h) (ground arith, ground arith)

skips_lem :
    (p : Period) (now : Instant)
    → 0 < p.interval
    → stepped p < now.ticks
    → (now.ticks ≤ stepped p + skips p now * p.interval)
      × (stepped p + skips p now * p.interval < now.ticks + p.interval)
unfolding skips
skips_lem p now pos h = (
  omega (arith, div_ceil_reaches (now.ticks - stepped p) p.interval pos),
  omega (arith, div_ceil_within (now.ticks - stepped p) p.interval pos),
)

-- For a valid schedule with a positive interval, the new target does not lie before `now`; and it
-- is one interval on, up to the end of the timeline, or less than one interval beyond `now`.
pub advance_target :
    (p : Period) (now : Instant)
    → IsPeriod p
    → IsInstant now
    → (now.ticks ≤ (advance p now).next.ticks)
      × (((advance p now).next.ticks ≡ saturating_add_u64 p.next.ticks p.interval)
          ⊎ ((advance p now).next.ticks < now.ticks + p.interval))
advance_target p now v hn = elim (dec_lt (stepped p) now.ticks) [
  | yes late ↦ omega (arith, advance_late p now v.positive late, skips_lem p now v.positive late)
  | no early ↦ omega (arith, advance_on_time p now (omega arith))
]

-- The skip count, seen from the target before the call.
skips_grid : (n i s : ℕ) → n + i + s * i ≡ n + suc s * i
skips_grid n i s = omega arith

-- Away from the end of the timeline the new target is the first activation instant of the
-- original grid `next + (k + 1) * interval` that is not before `now`, and exactly the `k`
-- instants skipped are added to the count of missed activations, up to `u32::MAX`.
pub advance_grid :
    (p : Period) (now : Instant)
    → IsPeriod p
    → p.next.ticks + p.interval ≤ u64_max
    → now.ticks + p.interval ≤ u64_max
    → (k : ℕ) × ((advance p now).next.ticks ≡ p.next.ticks + suc k * p.interval)
      × ((advance p now).missed ≡ min (p.missed + k) u32_max)
      × (now.ticks ≤ p.next.ticks + suc k * p.interval)
      × ((j : ℕ) → now.ticks ≤ p.next.ticks + suc j * p.interval → k ≤ j)
advance_grid p now v room now_room = elim (dec_lt (stepped p) now.ticks) [
  | yes late ↦
      let eqs = advance_late p now v.positive late in
      let bounds = skips_lem p now v.positive late in
      (
        skips p now,
        omega arith,
        omega arith,
        omega arith,
        λ j h.
            unfold skips in
            div_ceil_least (now.ticks - stepped p) p.interval j v.positive (omega arith),
      )
  | no early ↦
      let eqs = advance_on_time p now (omega arith) in
      (0, omega arith, omega arith, omega arith, λ j h. omega arith)
]

pub advance-interval : (p : Period) (now : Instant) → (advance p now).interval ≡ p.interval
unfolding advance
advance-interval p now = ground arith

-- Advancing keeps a valid schedule valid, and the count of missed activations never falls.
pub advance-IsPeriod :
    (p : Period) (now : Instant)
    → IsPeriod p
    → IsPeriod (advance p now) × (p.missed ≤ (advance p now).missed)
advance-IsPeriod p now v = elim (dec_lt (stepped p) now.ticks) [
  | yes late ↦ omega (arith, advance-interval p now, advance_late p now v.positive late)
  | no early ↦ omega (arith, advance-interval p now, advance_on_time p now (omega arith))
]
