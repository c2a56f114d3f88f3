-- ===== src/Manifest/Units/Ticks.antt =====
-- Durations in ticks: the rounding of `to_ticks`, and what `is_tick_aligned` tests.
use native.Mathlib.Nat.{mul-div_cancel, mul-mod_left}
use malleus_rtos.Base.{
  ℕ, ◌+◌, ◌*◌, ◌/◌, ◌%◌, ◌≤◌, ◌<◌, ◌≡◌, ◌≢◌, ◌↔◌, refl, sym, ap, ◌∙◌, arith, min, u64_max, div_ceil,
  true,
}
use malleus_rtos.Manifest.Units.{Duration, to_ticks, is_tick_aligned, second_nanos}

-- The largest tick rate at which a part of a second does not saturate.
abbrev pub exact_rate : ℕ
exact_rate = u64_max / second_nanos

-- The ticks of the part that is less than a second.
part_bound : (r hz : ℕ) → r < 1_000_000_000 → hz ≤ 18_446_744_073 → r * hz ≤ u64_max
part_bound r hz hr hh = grind arith

to_ticks_parts :
    (d : Duration) (hz : ℕ)
    → 0 < hz
    → hz ≤ exact_rate
    → to_ticks d hz
      ≡ min
          (d.nanos / second_nanos * hz + div_ceil (d.nanos % second_nanos * hz) second_nanos)
          u64_max
unfolding to_ticks
to_ticks_parts d hz pos le =
    let small = part_bound (d.nanos % second_nanos) hz (omega arith) (omega arith) in
    let exact : min (d.nanos % second_nanos * hz) u64_max ≡ d.nanos % second_nanos * hz =
      omega arith in
    rw exact (ground arith)

-- Whole seconds pass through the rounding.
div_ceil_shift :
    (k a : ℕ) → div_ceil (k * second_nanos + a) second_nanos ≡ k + div_ceil a second_nanos
unfolding div_ceil
div_ceil_shift k a = ground arith

split_product :
    (n q r hz : ℕ) → n ≡ q * 1_000_000_000 + r → n * hz ≡ q * hz * 1_000_000_000 + r * hz
split_product n q r hz e = rw e (omega arith)

-- At a positive tick rate of at most `u64::MAX / 1_000_000_000`, `to_ticks` gives the duration in
-- ticks rounded up, cut at the largest `u64`.
pub to_ticks-ceil :
    (d : Duration) (hz : ℕ)
    → 0 < hz
    → hz ≤ exact_rate
    → to_ticks d hz ≡ min (div_ceil (d.nanos * hz) second_nanos) u64_max
to_ticks-ceil d hz pos le =
    let q = d.nanos / second_nanos in
    let r = d.nanos % second_nanos in
    let whole : d.nanos * hz ≡ q * hz * second_nanos + r * hz =
      split_product d.nanos q r hz (omega arith) in
    to_ticks_parts d hz pos le
    ∙ ap (λ x. min x u64_max) (sym (div_ceil_shift (q * hz) (r * hz)))
    ∙ ap (λ x. min (div_ceil x second_nanos) u64_max) (sym whole)

aligned_iff :
    (d : Duration) (hz q : ℕ)
    → 0 < hz
    → second_nanos / hz ≡ q
    → 0 < q
    → (is_tick_aligned d hz ≡ true) ↔ (d.nanos % q ≡ 0)
unfolding is_tick_aligned
aligned_iff d hz q pos e h = ground arith

whole_ticks : (n q hz k : ℕ) → n ≡ q * k → q * hz ≡ 1_000_000_000 → n * hz ≡ k * 1_000_000_000
whole_ticks n q hz k e cycle = rw e (omega (arith, ap (λ (t : ℕ). k * t) cycle))

aligned_multiple : (n q hz k : ℕ) → 0 < hz → 0 < q → n * hz ≡ k * (q * hz) → n % q ≡ 0
aligned_multiple n q hz k pos hq e =
    let regrouped : n * hz ≡ k * q * hz = e ∙ omega arith in
    let same : n ≡ k * q =
      sym (mul-div_cancel n pos) ∙ ap (λ x. x / hz) regrouped ∙ mul-div_cancel (k * q) pos in
    rw same (mul-mod_left k q)

-- At a positive tick rate that divides a second into whole nanoseconds, `is_tick_aligned` holds
-- exactly for the durations that are a whole number of ticks.
pub is_tick_aligned_iff :
    (d : Duration) (hz : ℕ)
    → 0 < hz
    → second_nanos % hz ≡ 0
    → (is_tick_aligned d hz ≡ true) ↔ ((k : ℕ) × (d.nanos * hz ≡ k * second_nanos))
is_tick_aligned_iff d hz pos divides = (
  (λ h. (d.nanos / q, whole_ticks d.nanos q hz (d.nanos / q) (omega (arith, test.0 h)) cycle)),
  (λ h.
      test.1 (
        aligned_multiple d.nanos q hz h.0 pos positive
          (h.1 ∙ ap (λ (x : ℕ). h.0 * x) (sym cycle)))),
)
  where
    q : ℕ
    q = second_nanos / hz

    cycle : q * hz ≡ second_nanos
    cycle = grind arith

    positive : 0 < q
    positive = grind arith

    test : (is_tick_aligned d hz ≡ true) ↔ (d.nanos % q ≡ 0)
    test = aligned_iff d hz q pos refl positive

-- At a tick rate of at most one tick per nanosecond that does not divide a second into whole
-- nanoseconds, the test of `is_tick_aligned` is wrong: the truncated tick length passes it, and is
-- no whole number of ticks.
pub is_tick_aligned_truncates :
    (hz : ℕ)
    → 0 < hz
    → hz ≤ second_nanos
    → second_nanos % hz ≢ 0
    → let d : Duration = record { nanos = second_nanos / hz } in
      (is_tick_aligned d hz ≡ true) × ((k : ℕ) → d.nanos * hz ≢ k * second_nanos)
is_tick_aligned_truncates hz pos le indivisible = (
  (aligned_iff _ hz (second_nanos / hz) pos refl positive).1 (grind arith),
  λ k e. between k (omega arith) (omega arith),
)
  where
    positive : 0 < second_nanos / hz
    positive = grind arith

    long : second_nanos / hz * hz < second_nanos
    long = grind arith

    short : 0 < second_nanos / hz * hz
    short = grind arith

    between : (k : ℕ) → 0 < k * 1_000_000_000 → k * 1_000_000_000 < 1_000_000_000 → ⊥
    between k lo hi = omega arith
