-- ===== src/Kernel/Time/Examples.antt =====
-- Tests and instances of the theorems on timeouts and periods.
use malleus_rtos.Base.{leb, if◌then◌else◌, Option, none, some, ◌↔◌, true, u64_max}
use malleus_rtos.Base.Results.{ok, err}
use malleus_rtos.Arch.Errors.{deadline_out_of_range}
use malleus_rtos.Arch.Time.{ticks_from_micros, saturating_since, saturating_add_ticks}
use malleus_rtos.Arch.Timer.{MonotonicTimer, IsLawful, is_due}
use malleus_rtos.Kernel.Time.{Timeout, deadline_from}
use malleus_rtos.Kernel.Time.Delay.{later, delay_exact}
use malleus_rtos.Base.{ℕ, suc, ◌+◌, ◌*◌, ◌≤◌, ◌≡◌, min, refl, arith, u32_max}
use malleus_rtos.Base.{div_ceil}
use malleus_rtos.Arch.Time.{from_ticks}
use malleus_rtos.Kernel.Time.{Period, starting_at, advance}
use malleus_rtos.Kernel.Time.Schedule.{advance_all, Keeps, advance_all_grid, count_after}
use malleus_rtos.Base.{List, [], ◌∷◌}
use malleus_rtos.Arch.Time.{Instant}
use malleus_rtos.Kernel.Time.Activation.{IsPeriod}

abbrev every_ten : Period
every_ten = record { next = from_ticks 10; interval = 10; missed = 0 }

starts : starting_at (from_ticks 0) 10 ≡ every_ten
unfolding starting_at
starts = refl

-- The cases of the source's tests.
no_drift : (advance every_ten (from_ticks 13)).next ≡ from_ticks 20
unfolding advance
no_drift = refl

one_missed :
    advance every_ten (from_ticks 30) ≡ record { next = from_ticks 30; interval = 10; missed = 1 }
unfolding advance div_ceil
one_missed = refl

huge_overrun :
    (advance
      (record { next = from_ticks 1; interval = 1; missed = 0 })
      (from_ticks 4294967298)).missed
    ≡ u32_max
unfolding advance div_ceil
huge_overrun = refl

every_ten-IsPeriod : IsPeriod every_ten
every_ten-IsPeriod = omega arith

abbrev stuck : Period
stuck = record { next = from_ticks 5; interval = 0; missed = 2 }

two_charged : count_after 5 (from_ticks 9 ∷ from_ticks 4 ∷ from_ticks 30 ∷ []) ≡ 2
unfolding count_after
two_charged = refl

-- On time, then 23 ticks late, then early.
abbrev completions : List Instant
completions = from_ticks 13 ∷ from_ticks 53 ∷ from_ticks 54 ∷ []

three_missed :
    advance_all every_ten completions ≡ record { next = from_ticks 70; interval = 10; missed = 3 }
unfolding advance_all advance div_ceil
three_missed = refl

advance_all_grid_example :
    (k : ℕ) × ((advance_all every_ten completions).next.ticks ≡ 10 + (3 + k) * 10)
    × ((advance_all every_ten completions).missed ≡ min (0 + k) u32_max)
    × Keeps (10 + suc k * 10) 10 completions
    × ((j : ℕ) → Keeps (10 + suc j * 10) 10 completions → k ≤ j)
advance_all_grid_example =
    advance_all_grid every_ten completions 54 every_ten-IsPeriod (omega arith) (omega arith)
      (omega arith)

-- A timer that counts in ten bits of a tick at 32768 Hz, and its alarm.
record Counter : Type 0 where
  time : Instant
  wake : Option Instant

abbrev counter : MonotonicTimer Counter
counter = record {
  tick_rate = record { hz = 32_768 };
  now = λ s. s.time;
  set_alarm = λ d s.
      if leb (saturating_since d s.time) 1023
      then (record s { wake = some d }, ok tt)
      else (s, err deadline_out_of_range);
  clear_alarm = λ s. record s { wake = none };
  max_alarm_ticks = 1023;
}

abbrev count : Counter → Counter
count s = record s { time = saturating_add_ticks s.time 1 }

counter-IsLawful : IsLawful counter count (λ s. s.wake)
counter-IsLawful = record {
  counts = λ s. refl;
  waits = λ s. refl;
  unmoved = λ d s. ground arith;
  accepts = λ d s h. (ground arith, ground arith);
  refuses = λ d s h. ground arith;
  clears = λ s. refl;
}

abbrev early : Counter
early = record { time = from_ticks 100; wake = none }

-- Ten milliseconds are 328 ticks.
ten_millis :
    deadline_from
      (Timeout.ticks (ticks_from_micros (record { hz = 32_768 }) 10_000))
      (from_ticks 100)
    ≡ some (from_ticks 428)
unfolding deadline_from ticks_from_micros div_ceil
ten_millis = refl

ten_millis_short : ticks_from_micros (record { hz = 32_768 }) 10_000 ≤ 1023
unfolding ticks_from_micros div_ceil
ten_millis_short = omega arith

delay_exact_example :
    let (s', result) = counter.set_alarm (from_ticks 428) early in
    (result ≡ ok tt)
    × ((n : ℕ)
        → 100 + n ≤ u64_max
        → (is_due ((later count n s').wake) ((later count n s').time) ≡ true)
          ↔ (10_000 * 32_768 ≤ n * 1_000_000))
delay_exact_example =
    delay_exact counter count (λ s. s.wake) counter-IsLawful 10_000 early (from_ticks 428)
      (omega arith) (omega (arith, ten_millis_short)) ten_millis_short ten_millis
