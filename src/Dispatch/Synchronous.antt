-- ===== src/Dispatch/Synchronous.antt =====
-- The device whose tasks are all released together and then at every multiple of their periods,
-- against the processor of the analysis.
use native.Mathlib.Decide.{dec_lt}
use malleus_rtos.Base.{
  ℕ, zero, suc, ◌+◌, ◌%◌, ◌≤◌, ◌<◌, ◌≡◌, refl, ap, ◌∙◌, arith, ◌==◌, lt→ltb, le→ltb, if◌then◌else◌,
  inl, inr, some, List, [], ◌∷◌, All,
}
use malleus_rtos.Kernel.Sched.Priority.{IsPriority}
use malleus_rtos.Analyzer.ResponseTime.{TaskTiming, Interferer}
use malleus_rtos.Analyzer.ResponseTime.Preemption.{Preempters, nobody, harmless, preempting}
use malleus_rtos.Analyzer.Schedule
use malleus_rtos.Analyzer.Schedule.{Backlog, Cpu, serve}
use malleus_rtos.Analyzer.Schedule.Waiting.{
  sources, waiting, idle-sources, idle-waiting, release-sources, serve-sources, serve-busy,
  serve-free,
}
use malleus_rtos.Dispatch.{Activity, Thread, urgency, pending_at, at_level, above}
use malleus_rtos.Dispatch
use malleus_rtos.Dispatch.Totals.{released_at, AllPriorities, idle-pending}
use malleus_rtos.Dispatch.Progress.{left, due, run-urgent_first}
use malleus_rtos.Dispatch.Streams.{timings, Named}
use malleus_rtos.Dispatch.Bounds.{serve-waiting}

-- A task that is declared releases its whole execution time at every multiple of its period.
abbrev pub Synchronous : Activity → Type 0
Synchronous a =
    (p w : ℕ)
    → a.task.period ≡ some p
    → a.task.wcet ≡ some w
    → (t : ℕ) → a.work t ≡ (if t % p == 0 then w else 0)

-- The work of the analysis' interferers at a tick.
abbrev pub brought : List Interferer → ℕ → ℕ
brought [] t = 0
brought (i ∷ is) t = (if t % i.period == 0 then i.wcet else 0) + brought is t

pub release-brought :
    (t : ℕ) (bs : List Backlog)
    → waiting (Schedule.release t bs) ≡ waiting bs + brought (sources bs) t
unfolding Schedule.release
release-brought t [] = refl
release-brought t (b ∷ bs) = omega (arith, release-brought t bs)

pub run-sources :
    (t : ℕ) (is : List Interferer) (work : ℕ) → sources (Schedule.run t is work).backlogs ≡ is
unfolding Schedule.run
run-sources zero is work = idle-sources is
run-sources (suc t) is work =
    let c = Schedule.run t is work in
    serve-sources (Schedule.release t c.backlogs) c.own
    ∙ release-sources t c.backlogs
    ∙ run-sources t is work

-- The tasks that can preempt release the work of the interferers, and the others none above.
pub released-brought :
    (task : TaskTiming) (acts : List Activity) (is : List Interferer) (t : ℕ)
    → All Synchronous acts
    → Named task acts
    → Preempters task (timings acts) is
    → released_at (above task.priority) t acts ≡ brought is t
unfolding released_at
released-brought task [] is t sync named nobody = refl
released-brought task (o ∷ acts) is t (s, sync) (n, named) (harmless timing (inl same) rest) =
    let others = released-brought task acts is t sync named rest in
    elim (dec_lt task.priority (urgency o)) [
      | yes urgent ↦ absurd (n urgent same)
      | no not_urgent ↦ rw (le→ltb (urgency o) task.priority (omega arith)) (omega arith)
    ]
released-brought task (o ∷ acts) is t (s, sync) (n, named) (harmless timing (inr le) rest) =
    let others = released-brought task acts is t sync named rest in
    rw (le→ltb (urgency o) task.priority le) (omega arith)
released-brought task (o ∷ acts) is t (s, sync) (n, named)
      (preempting timing i name urgent period pos wcet rest) =
    let others = released-brought task acts _ t sync named rest in
    let own = s i.period i.wcet period wcet t in
    rw (lt→ltb task.priority (urgency o) urgent) (omega arith)

-- Until a second job of the task, the device and the processor agree.
module _ (level : ℕ) (acts : List Activity) (is : List Interferer) (work : ℕ)
    (hl : IsPriority (record { raw = level })) (valid : AllPriorities acts)
    (carries : (t : ℕ) → released_at (above level) t acts ≡ brought is t)
    (first : released_at (at_level level) 0 acts ≡ work) where
  Quiet : ℕ → Type 0
  Quiet t = (k : ℕ) → 0 < k → k ≤ t → released_at (at_level level) k acts ≡ 0

  tick_agrees :
      (t : ℕ)
      → left (above level) t acts ≡ waiting (Schedule.run t is work).backlogs
      → due (at_level level) t acts ≡ (Schedule.run t is work).own
      → (left (above level) (suc t) acts ≡ waiting (Schedule.run (suc t) is work).backlogs)
        × (left (at_level level) (suc t) acts ≡ (Schedule.run (suc t) is work).own)
  unfolding Schedule.run
  tick_agrees t higher own =
      let c = Schedule.run t is work in
      let bs = Schedule.release t c.backlogs in
      let came : brought (sources c.backlogs) t ≡ brought is t =
        ap (λ (js : List Interferer). brought js t) (run-sources t is work) in
      let (fewer, busy, free) = run-urgent_first level t acts hl valid in
      let same : due (above level) t acts ≡ waiting bs =
        omega (arith, carries t, release-brought t c.backlogs) in
      (
        omega (arith, serve-waiting bs c.own),
        elim (dec_lt 0 (waiting bs)) [
          | yes more ↦ omega (arith, busy (omega arith), (serve-busy bs c.own more).0)
          | no nothing ↦
              let idle : waiting bs ≡ 0 = omega arith in
              omega (arith, free (omega arith), (serve-free bs c.own idle).0)
        ],
      )

  run-agrees :
      (t : ℕ)
      → Quiet t
      → (left (above level) t acts ≡ waiting (Schedule.run t is work).backlogs)
        × (due (at_level level) t acts ≡ (Schedule.run t is work).own)
  unfolding Quiet
  run-agrees zero quiet =
      unfold Dispatch.run Schedule.run in
      (
        omega (arith, idle-pending (above level) acts, idle-waiting is),
        omega (arith, idle-pending (at_level level) acts),
      )
  run-agrees (suc t) quiet =
      let (higher, own) = run-agrees t (λ k pos le. quiet k pos (omega arith)) in
      let (higher', own') = tick_agrees t higher own in
      (higher', omega (arith, quiet (suc t) (omega arith) (omega arith)))

  -- Until a second job of the task is released, both have the same work of the task left.
  pub run-left :
      (t : ℕ)
      → ((k : ℕ) → 0 < k → k ≤ t → released_at (at_level level) k acts ≡ 0)
      → left (at_level level) (suc t) acts ≡ (Schedule.run (suc t) is work).own
  unfolding Quiet
  run-left t quiet = let (higher, own) = run-agrees t quiet in (tick_agrees t higher own).1
