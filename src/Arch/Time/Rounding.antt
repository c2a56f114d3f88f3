-- ===== src/Arch/Time/Rounding.antt =====
-- The rounding of `ticks_from_micros`.
use malleus_rtos.Base.{ℕ, ◌*◌, ◌≤◌, ◌≡◌, ◌↔◌, min, arith, u64_max, div_ceil}
use malleus_rtos.Base.Word.{div_ceil_reaches, div_ceil_least, div_ceil_within}
use malleus_rtos.Arch.Time.{TickRate, ticks_from_micros}

-- The product up to which the ticks are not too few: the largest `u64`, rounded up to a second.
abbrev pub longest_product : ℕ
longest_product = 18_446_744_073_710_000_000

rounded_reaches_iff :
    (product : ℕ)
    → (product ≤ div_ceil (min product u64_max) 1_000_000 * 1_000_000) ↔ (product ≤ longest_product)
rounded_reaches_iff product =
    let cut = min product u64_max in
    let reaches = div_ceil_reaches cut 1_000_000 (omega arith) in
    let within = div_ceil_within cut 1_000_000 (omega arith) in
    ((λ h. omega arith), (λ h. omega arith))

-- A delay is not shorter than asked exactly where the product of the microseconds and the rate does
-- not exceed the largest `u64`, rounded up to a multiple of a million.
pub ticks_from_micros-reaches_iff :
    (r : TickRate) (micros : ℕ)
    → (micros * r.hz ≤ ticks_from_micros r micros * 1_000_000) ↔ (micros * r.hz ≤ longest_product)
unfolding ticks_from_micros
ticks_from_micros-reaches_iff r micros = rounded_reaches_iff (micros * r.hz)

-- Where the product does not exceed the largest `u64`, the ticks are the least number that is not
-- shorter than asked.
pub ticks_from_micros-least :
    (r : TickRate) (micros ticks : ℕ)
    → micros * r.hz ≤ u64_max
    → (ticks_from_micros r micros ≤ ticks) ↔ (micros * r.hz ≤ ticks * 1_000_000)
unfolding ticks_from_micros
ticks_from_micros-least r micros ticks fits =
    let uncut : min (micros * r.hz) u64_max ≡ micros * r.hz = omega arith in
    let reaches = div_ceil_reaches (micros * r.hz) 1_000_000 (omega arith) in
    rw uncut
      ((λ h. omega arith), (λ h. div_ceil_least (micros * r.hz) 1_000_000 ticks (omega arith) h))
