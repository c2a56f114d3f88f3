-- ===== src/Arch/Time/Examples.antt =====
-- Tests and instances of the theorems on tick rates.
use malleus_rtos.Base.{◌*◌, ◌≤◌, ◌≡◌, ◌↔◌, refl, div_ceil}
use malleus_rtos.Arch.Time.{TickRate, ticks_from_micros}
use malleus_rtos.Arch.Time.Rounding.{longest_product, ticks_from_micros-reaches_iff}

abbrev gigahertz : TickRate
gigahertz = record { hz = 1_000_000_000 }

abbrev crystal : TickRate
crystal = record { hz = 32_768 }

-- Six hours at a gigahertz come out as a little over five.
six_hours : ticks_from_micros gigahertz 21_600_000_000 ≡ 18_446_744_073_710
unfolding ticks_from_micros div_ceil
six_hours = refl

ticks_from_micros-reaches_iff_example :
    (21_600_000_000 * 1_000_000_000 ≤ ticks_from_micros gigahertz 21_600_000_000 * 1_000_000)
    ↔ (21_600_000_000 * 1_000_000_000 ≤ longest_product)
ticks_from_micros-reaches_iff_example = ticks_from_micros-reaches_iff gigahertz 21_600_000_000
