-- ===== src/Analyzer/Schedule/Sporadic/Arrivals.antt =====
-- The work that streams of jobs bring into a window.
use native.Mathlib.Nat.{mul-le-mul_right}
use malleus_rtos.Base.{
  ℕ, zero, suc, ◌+◌, ◌*◌, ◌≤◌, ◌<◌, ◌≡◌, refl, arith, if◌then◌else◌, List, [], ◌∷◌, All, div_ceil,
}
use malleus_rtos.Analyzer.ResponseTime.Recurrence.{interference, Positive}
use malleus_rtos.Base.Word.{div_ceil_reaches}
use malleus_rtos.Base.{true, ◌⊎◌, inl, inr, Bool-cases}
use malleus_rtos.Analyzer.Schedule.Sporadic.{Stream, tasks_of, arrived, IsSporadic}

-- The work that arrives at one tick, and in a window.
abbrev pub influx : List Stream → ℕ → ℕ
influx [] t = 0
influx (s ∷ ss) t = (if s.arrives t then s.task.wcet else 0) + influx ss t

abbrev pub flow : List Stream → ℕ → ℕ → ℕ
flow [] from n = 0
flow (s ∷ ss) from n = arrived s.arrives from n * s.task.wcet + flow ss from n

one_more :
    (s : Stream) (from n : ℕ)
    → arrived s.arrives from (suc n) * s.task.wcet
      ≡ arrived s.arrives from n * s.task.wcet + (if s.arrives (from + n) then s.task.wcet else 0)
unfolding arrived
one_more s from n = grind arith

pub flow-suc :
    (ss : List Stream) (from n : ℕ) → flow ss from (suc n) ≡ flow ss from n + influx ss (from + n)
flow-suc [] from n = refl
flow-suc (s ∷ ss) from n = omega (arith, one_more s from n, flow-suc ss from n)

pub flow-zero : (ss : List Stream) (from : ℕ) → flow ss from 0 ≡ 0
unfolding arrived
flow-zero [] from = refl
flow-zero (s ∷ ss) from = omega (arith, flow-zero ss from)

-- The last of the arrivals in a window, and how late it is.
record Last (s : Stream) (from n count : ℕ) : Type 0 where
  tick : ℕ
  arrived : s.arrives tick ≡ true
  within : tick < from + n
  late : from + count * s.task.period ≤ tick

one_period_on :
    (s : Stream) (from n count : ℕ)
    → IsSporadic s
    → s.arrives (from + n) ≡ true
    → Last s from n count
    → from + suc count * s.task.period ≤ from + n
one_period_on s from n count h e l = omega (arith, h l.tick (from + n) l.arrived e l.within)

arrived-Last :
    (s : Stream) (from n : ℕ)
    → IsSporadic s
    → (arrived s.arrives from n ≡ 0)
      ⊎ ((count : ℕ) × (arrived s.arrives from n ≡ suc count) × Last s from n count)
unfolding arrived
arrived-Last s from zero h = inl refl
arrived-Last s from (suc n) h = elim (Bool-cases (s.arrives (from + n))) [
  | inl e ↦ elim (arrived-Last s from n h) [
    | inl none_yet ↦ inr (
      0,
      rw e (omega arith),
      record { tick = from + n; arrived = e; within = omega arith; late = omega arith },
    )
    | inr (count, counted, last) ↦ inr (
      suc count,
      rw e (omega arith),
      record {
        tick = from + n;
        arrived = e;
        within = omega arith;
        late = one_period_on s from n count h e last;
      },
    )
  ]
  | inr e ↦ elim (arrived-Last s from n h) [
    | inl none_yet ↦ inl (rw e (omega arith))
    | inr (count, counted, last) ↦ inr (
      count,
      rw e (omega arith),
      record { tick = last.tick; arrived = last.arrived; within = omega arith; late = last.late },
    )
  ]
]

fewer : (count d p n : ℕ) → count * p < n → n ≤ d * p → suc count ≤ d
fewer count d p n h k = grind arith

-- No window holds more arrivals than periods that begin in it.
arrived-le :
    (s : Stream) (from n : ℕ)
    → 0 < s.task.period
    → IsSporadic s
    → arrived s.arrives from n ≤ div_ceil n s.task.period
arrived-le s from n pos h = elim (arrived-Last s from n h) [
  | inl none_yet ↦ omega arith
  | inr (count, counted, last) ↦
      let few =
        fewer count (div_ceil n s.task.period) s.task.period n (omega arith)
          (div_ceil_reaches n s.task.period pos) in
      omega arith
]

pub flow_bound :
    (ss : List Stream) (from n : ℕ)
    → Positive (tasks_of ss)
    → All IsSporadic ss
    → flow ss from n ≤ interference (tasks_of ss) n
flow_bound [] from n pos h = omega arith
flow_bound (s ∷ ss) from n (p, pos) (h, hs) =
    omega
      (arith, mul-le-mul_right s.task.wcet (arrived-le s from n p h), flow_bound ss from n pos hs)
