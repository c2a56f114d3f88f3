-- ===== src/Dispatch/Bounds.antt =====
-- The device against the processor of the streams, tick by tick.
use native.Mathlib.Decide.{dec_lt}
use malleus_rtos.Base.{ℕ, zero, suc, ◌+◌, ◌-◌, ◌≤◌, ◌≡◌, ap, arith, List}
use malleus_rtos.Kernel.Sched.Priority.{IsPriority}
use malleus_rtos.Analyzer.Schedule.{Backlog, serve}
use malleus_rtos.Analyzer.Schedule.Waiting.{waiting, serve-busy, serve-free}
use malleus_rtos.Analyzer.Schedule.Sporadic.{Stream, admit, before, after}
use malleus_rtos.Analyzer.Schedule.Sporadic.Arrivals.{influx}
use malleus_rtos.Analyzer.Schedule.Sporadic.Backlogs.{admit-waiting, before-sources}
use malleus_rtos.Analyzer.Schedule.Sporadic.Response.{after-sources}
use malleus_rtos.Dispatch.{Activity, at_level, above, run}
use malleus_rtos.Dispatch.Totals.{released_at, AllPriorities, idle-pending}
use malleus_rtos.Dispatch.Progress.{left, due, run-urgent_first}

pub serve-waiting : (bs : List Backlog) (own : ℕ) → waiting (serve bs own).backlogs ≡ waiting bs - 1
serve-waiting bs own = elim (dec_lt 0 (waiting bs)) [
  | yes more ↦ omega (arith, (serve-busy bs own more).1)
  | no nothing ↦ omega (arith, (serve-free bs own (omega arith)).1)
]

-- What is pending above a level is at most what the streams leave, where they carry its work.
module _ (level : ℕ) (acts : List Activity) (ss : List Stream)
    (hl : IsPriority (record { raw = level })) (valid : AllPriorities acts)
    (carries : (t : ℕ) → released_at (above level) t acts ≤ influx ss t) where
  pub before-bounds : (t : ℕ) → left (above level) t acts ≤ waiting (before t ss)
  unfolding before
  before-bounds zero = unfold run in omega (arith, idle-pending (above level) acts)
  before-bounds (suc t) =
      let bs = before t ss in
      let admitted = admit-waiting t ss bs (before-sources t ss) in
      let served = serve-waiting (admit t ss bs) 0 in
      omega (arith, (run-urgent_first level t acts hl valid).0, before-bounds t, carries t)

  -- One tick keeps the device ahead of the processor of the streams.
  pub step_bounds :
      (t at k work : ℕ)
      → t ≡ at + k
      → left (above level) t acts ≤ waiting (after k at ss work).backlogs
      → due (at_level level) t acts ≤ (after k at ss work).own
      → (left (above level) (suc t) acts ≤ waiting (after (suc k) at ss work).backlogs)
        × (left (at_level level) (suc t) acts ≤ (after (suc k) at ss work).own)
  unfolding after
  step_bounds t at k work e h o =
      let c = after k at ss work in
      let admitted = admit-waiting (at + k) ss c.backlogs (after-sources k at ss work) in
      let brought : influx ss t ≡ influx ss (at + k) = ap (influx ss) e in
      let bs = admit (at + k) ss c.backlogs in
      let served = serve-waiting bs c.own in
      let (fewer, busy, free) = run-urgent_first level t acts hl valid in
      (
        omega (arith, carries t),
        elim (dec_lt 0 (waiting bs)) [
          | yes more ↦ elim (dec_lt 0 (due (above level) t acts)) [
            | yes d ↦ omega (arith, busy d, (serve-busy bs c.own more).0)
            | no d ↦ omega (arith, free (omega arith), (serve-busy bs c.own more).0)
          ]
          | no nothing ↦
              let none_due : due (above level) t acts ≡ 0 = omega (arith, carries t) in
              omega (arith, free none_due, (serve-free bs c.own (omega arith)).0)
        ],
      )
