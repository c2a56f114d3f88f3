-- ===== src/Dispatch/Shared.antt =====
-- Tasks that share a priority on the device, which crates/malleus-analyzer/src/response_time.rs
-- leaves out of one another's interference.
use native.Mathlib.Decide.{dec_lt}
use malleus_rtos.Base.{
  ℕ, zero, suc, ◌+◌, ◌-◌, ◌≤◌, ◌<◌, ◌≡◌, ap, ◌∙◌, arith, inr, some, List, [], ◌∷◌, u64_max,
  saturating_add_u64,
}
use malleus_rtos.Kernel.Sched.Priority.{IsPriority}
use malleus_rtos.Analyzer.ResponseTime.{
  TaskTiming, pass, gathered, or_else, collect, settle, solve, respond, verdict_for, max_iterations,
}
use malleus_rtos.Analyzer.ResponseTime.Preemption.{nobody, harmless, collect_complete}
use malleus_rtos.Analyzer.ResponseTime.Verdicts.{verdict_for-respond}
use malleus_rtos.Dispatch.{Activity, urgency, priority_of, at_level, above}
use malleus_rtos.Dispatch.Totals.{released_at, AllPriorities}
use malleus_rtos.Dispatch.Progress.{left, due, run-urgent_first}
use malleus_rtos.Dispatch.Streams.{timings}

-- A level loses at most one tick of its work at each tick.
drains :
    (level t : ℕ) (acts : List Activity)
    → IsPriority (record { raw = level })
    → AllPriorities acts
    → due (at_level level) t acts ≤ left (at_level level) (suc t) acts + 1
drains level t acts hl valid =
    let (fewer, busy, free) = run-urgent_first level t acts hl valid in
    elim (dec_lt 0 (due (above level) t acts)) [
      | yes d ↦ omega (arith, busy d)
      | no d ↦ omega (arith, free (omega arith))
    ]

-- The work that is released at the start is still pending, but for one tick of it at each tick.
still_pending :
    (level t : ℕ) (acts : List Activity)
    → IsPriority (record { raw = level })
    → AllPriorities acts
    → released_at (at_level level) 0 acts ≤ left (at_level level) (suc t) acts + suc t
still_pending level zero acts hl valid = omega (arith, drains level 0 acts hl valid)
still_pending level (suc t) acts hl valid =
    omega (arith, drains level (suc t) acts hl valid, still_pending level t acts hl valid)

solve_alone :
    (rounds base deadline : ℕ) → solve (suc rounds) [] base deadline base ≡ settle deadline base
unfolding solve
solve_alone rounds base deadline = ground arith

respond_alone :
    (x : TaskTiming) (wcet deadline : ℕ)
    → x.blocking ≡ 0
    → wcet ≤ deadline
    → deadline < u64_max
    → respond x wcet deadline (gathered []) ≡ pass wcet (deadline - wcet)
unfolding respond
respond_alone x w d nothing fits room =
    let base : saturating_add_u64 w x.blocking ≡ w = omega arith in
    ap (λ (b : ℕ). solve max_iterations [] b d b) base
    ∙ solve_alone 999 w d
    ∙ unfold settle in ground arith

verdict_for_alone :
    (x : TaskTiming) (xs : List TaskTiming) (wcet deadline period : ℕ)
    → collect x xs ≡ gathered []
    → x.wcet ≡ some wcet
    → x.period ≡ some period
    → or_else x.deadline x.period ≡ some deadline
    → x.blocking ≡ 0
    → wcet ≤ deadline
    → deadline < u64_max
    → verdict_for x xs ≡ pass wcet (deadline - wcet)
verdict_for_alone x xs w d p alone hw hp hd nothing fits room =
    verdict_for-respond x xs w d p hw hd hp
    ∙ ap (respond x w d) alone
    ∙ respond_alone x w d nothing fits room

-- A task that declares its execution time and a deadline, and is released at the start.
pub record Starts (a : Activity) (deadline : ℕ) : Type 0 where
  pub period : ℕ
  pub periodic : a.task.period ≡ some period
  pub declared : a.task.wcet ≡ some (a.work 0)
  pub due_at : or_else a.task.deadline a.task.period ≡ some deadline
  pub unblocked : a.task.blocking ≡ 0
  pub fits : a.work 0 ≤ deadline

-- The analysis overlooks a shared priority: for two tasks with one valid priority and one deadline
-- below the largest `u64`, each of which fits alone, released together with execution times that
-- add up to more than the deadline, both verdicts are a pass with the whole rest of the deadline as
-- slack, while on the device some of the two tasks' work is pending at the deadline.
pub shared_priority_misses :
    (a b : Activity) (deadline : ℕ)
    → IsPriority (priority_of a)
    → urgency b ≡ urgency a
    → deadline < u64_max
    → Starts a deadline
    → Starts b deadline
    → deadline < a.work 0 + b.work 0
    → let acts = a ∷ b ∷ [] in
      (verdict_for a.task (timings acts) ≡ pass (a.work 0) (deadline - a.work 0))
      × (verdict_for b.task (timings acts) ≡ pass (b.work 0) (deadline - b.work 0))
      × (0 < left (at_level (urgency a)) deadline acts)
shared_priority_misses a b d hl same room sa sb over =
    let acts = a ∷ b ∷ [] in
    (
      verdict_for_alone a.task (timings acts) (a.work 0) d sa.period
          (collect_complete a.task (timings acts) []
            (harmless a.task (inr (omega arith)) (harmless b.task (inr (omega arith)) nobody)))
          sa.declared sa.periodic sa.due_at sa.unblocked sa.fits room,
      verdict_for_alone b.task (timings acts) (b.work 0) d sb.period
          (collect_complete b.task (timings acts) []
            (harmless a.task (inr (omega arith)) (harmless b.task (inr (omega arith)) nobody)))
          sb.declared sb.periodic sb.due_at sb.unblocked sb.fits room,
      pending_still d over sa.fits sb.fits,
    )
  where
    both : released_at (at_level (urgency a)) 0 (a ∷ b ∷ []) ≡ a.work 0 + b.work 0
    both = unfold released_at in ground arith

    pending_still :
        (d : ℕ)
        → d < a.work 0 + b.work 0
        → a.work 0 ≤ d
        → b.work 0 ≤ d
        → 0 < left (at_level (urgency a)) d (a ∷ b ∷ [])
    pending_still zero over fa fb = absurd (omega arith)
    pending_still (suc t) over fa fb =
        let still = still_pending (urgency a) t (a ∷ b ∷ []) hl (hl, (omega arith, tt)) in
        omega (arith, both)
