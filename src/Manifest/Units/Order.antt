-- ===== src/Manifest/Units/Order.antt =====
-- The order of durations and of their ticks.
use native.Mathlib.Decide.{dec_lt}
use native.Mathlib.Nat.{mul-le-mul_right}
use malleus_rtos.Base.{ℕ, suc, ◌+◌, ◌*◌, ◌/◌, ◌%◌, ◌≤◌, ◌<◌, ◌≡◌, arith, min, u64_max, div_ceil}
use malleus_rtos.Base.Word.{div_ceil_mono, div_ceil_least}
use malleus_rtos.Manifest.Units.{Duration, to_ticks, second_nanos}

-- The ticks of the part that is less than a second, cut at the largest `u64` before the rounding.
abbrev part_ticks : ℕ → ℕ → ℕ
part_ticks r hz = div_ceil (min (r * hz) u64_max) second_nanos

part_mono : (r s hz : ℕ) → r ≤ s → part_ticks r hz ≤ part_ticks s hz
part_mono r s hz h =
    div_ceil_mono _ _ second_nanos (omega arith) (omega (arith, mul-le-mul_right hz h))

-- They are no more than those of a second.
part_short : (r hz : ℕ) → r < second_nanos → part_ticks r hz ≤ hz
part_short r hz h =
    let le : r ≤ second_nanos = omega arith in
    div_ceil_least _ second_nanos hz (omega arith) (omega (arith, mul-le-mul_right hz le))

to_ticks_split :
    (d : Duration) (hz : ℕ)
    → 0 < hz
    → to_ticks d hz
      ≡ min
          (min (d.nanos / second_nanos * hz) u64_max + part_ticks (d.nanos % second_nanos) hz)
          u64_max
unfolding to_ticks
to_ticks_split d hz pos = ground arith

-- At every positive tick rate, `to_ticks` keeps the order of durations, also where it saturates.
pub to_ticks_mono :
    (d e : Duration) (hz : ℕ) → 0 < hz → d.nanos ≤ e.nanos → to_ticks d hz ≤ to_ticks e hz
to_ticks_mono d e hz pos h =
    let q = d.nanos / second_nanos in
    let q' = e.nanos / second_nanos in
    elim (dec_lt q q') [
      | yes less ↦
          let seconds = mul-le-mul_right {m = suc q} {n = q'} hz less in
          omega (
            arith,
            to_ticks_split d hz pos,
            to_ticks_split e hz pos,
            part_short (d.nanos % second_nanos) hz (omega arith),
          )
      | no same ↦
          let seconds = mul-le-mul_right {m = q} {n = q'} hz (omega arith) in
          omega (
            arith,
            to_ticks_split d hz pos,
            to_ticks_split e hz pos,
            part_mono (d.nanos % second_nanos) (e.nanos % second_nanos) hz (omega arith),
          )
    ]
