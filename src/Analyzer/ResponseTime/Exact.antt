-- ===== src/Analyzer/ResponseTime/Exact.antt =====
-- `verdict_for` against the recurrence over plain numbers: what a pass and a failure prove, when
-- the iteration bound suffices, and which tasks a verdict does not depend on.
use mathlib.Core.Path.{subst}
use malleus_rtos.Base.{ℕ, ◌+◌, ◌≤◌, ◌<◌, ◌≡◌, ◌≢◌, ◌⊎◌, inr, arith, refl, sym, ◌∙◌, ap}
use malleus_rtos.Base.{List, [], ◌∷◌, ◌++◌, some, u64_max, saturating_add_u64}
use malleus_rtos.Analyzer.ResponseTime.{
  TaskTiming, Interferer, collect, pass, fail, unknown, Reason, or_else, verdict_for,
  max_iterations, respond, solve,
}
use malleus_rtos.Analyzer.ResponseTime.Recurrence.{demand, IsLeastSolution}
use malleus_rtos.Analyzer.ResponseTime.Solution.{solve_converges}
use malleus_rtos.Analyzer.ResponseTime.Preemption.{
  Preempters, Preempters-Positive, collect_complete, harmless_skipped,
}
use malleus_rtos.Analyzer.ResponseTime.Verdicts.{verdict_for-Reached, verdict_for-respond}

-- The base of the recurrence that fits below the deadline is not cut off.
uncut :
    (w b d r : ℕ) (is : List Interferer)
    → d < u64_max
    → r ≤ d
    → IsLeastSolution (saturating_add_u64 w b) is r
    → IsLeastSolution (w + b) is r
uncut w b d r is room le h =
    let same : saturating_add_u64 w b ≡ w + b = omega arith in
    subst (λ base. IsLeastSolution base is r) same h

-- A pass is the true worst case: with a deadline (the declared one, or else the period) below the
-- largest `u64`, the task declares an execution time, every task that can preempt it is declared
-- with a positive period, the response is the least solution of the exact recurrence, and the
-- slack is what is left of the deadline.
pub verdict_for-pass :
    (task : TaskTiming) (os : List TaskTiming) (deadline response slack : ℕ)
    → or_else task.deadline task.period ≡ some deadline
    → deadline < u64_max
    → verdict_for task os ≡ pass response slack
    → (wcet : ℕ) × (is : List Interferer) × (task.wcet ≡ some wcet)
      × Preempters task os is
      × IsLeastSolution (wcet + task.blocking) is response
      × (response + slack ≡ deadline)
verdict_for-pass task os d r s hd room h =
    let reached = verdict_for-Reached task os d (pass r s) hd room h tt in
    (
      reached.wcet,
      reached.interferers,
      reached.declared,
      reached.preempters,
      uncut reached.wcet task.blocking d r reached.interferers room (omega arith) reached.sound.0,
      reached.sound.1,
    )

-- A failure is conclusive: with a deadline below the largest `u64`, no window up to the deadline
-- holds the task's own demand and that of the tasks that can preempt it, and the reported response
-- is a lower bound of every window that does.
pub verdict_for-fail :
    (task : TaskTiming) (os : List TaskTiming) (deadline response overrun : ℕ)
    → or_else task.deadline task.period ≡ some deadline
    → deadline < u64_max
    → verdict_for task os ≡ fail response overrun
    → (wcet : ℕ) × (is : List Interferer) × (task.wcet ≡ some wcet)
      × Preempters task os is
      × (response ≡ deadline + overrun)
      × (0 < overrun)
      × ((t : ℕ) → demand (wcet + task.blocking) is t ≤ t → response ≤ t)
verdict_for-fail task os d r o hd room h =
    let reached = verdict_for-Reached task os d (fail r o) hd room h tt in
    let sound = reached.sound in
    (
      reached.wcet,
      reached.interferers,
      reached.declared,
      reached.preempters,
      sound.0,
      sound.1,
      λ t le. sound.2 t (omega arith),
    )

-- With everything declared, the verdict is that of the iteration.
verdict_for-solve :
    (task : TaskTiming) (os : List TaskTiming) (is : List Interferer) (w d p : ℕ)
    → task.wcet ≡ some w
    → or_else task.deadline task.period ≡ some d
    → task.period ≡ some p
    → Preempters task os is
    → let base = saturating_add_u64 w task.blocking in
      verdict_for task os ≡ solve max_iterations is base d base
verdict_for-solve task os is w d p hw hd hp pre =
    verdict_for-respond task os w d p hw hd hp
    ∙ ap (respond task w d) (collect_complete task os is pre)
    ∙ unfold respond in refl

-- The bound on the iterations suffices: where the task and all that can preempt it are declared,
-- and the deadline is less than 1000 ticks beyond the task's own demand, the verdict is not
-- unknown.
pub verdict_for_decides :
    (task : TaskTiming) (os : List TaskTiming) (is : List Interferer) (wcet deadline period : ℕ)
    → task.wcet ≡ some wcet
    → or_else task.deadline task.period ≡ some deadline
    → task.period ≡ some period
    → Preempters task os is
    → deadline < saturating_add_u64 wcet task.blocking + max_iterations
    → (reason : Reason) → verdict_for task os ≢ unknown reason
verdict_for_decides task os is w d p hw hd hp pre near reason e =
    let base = saturating_add_u64 w task.blocking in
    solve_converges is base d (Preempters-Positive pre) (omega arith) max_iterations base
      (omega arith) (omega arith) near (inr (omega arith)) reason
      (sym (verdict_for-solve task os is w d p hw hd hp pre) ∙ e)

collect_less_urgent :
    (task other : TaskTiming) (before after : List TaskTiming)
    → (other.name ≡ task.name) ⊎ (other.priority ≤ task.priority)
    → collect task (before ++ other ∷ after) ≡ collect task (before ++ after)
unfolding collect
collect_less_urgent task other [] after h = rw (harmless_skipped task other h)
collect_less_urgent task other (o ∷ before) after h =
    rw (collect_less_urgent task other before after h)

-- A verdict does not depend on another task of the list that is not more urgent, wherever that
-- stands: also not on one at the same priority.
pub verdict_for_less_urgent :
    (task other : TaskTiming) (before after : List TaskTiming)
    → other.priority ≤ task.priority
    → verdict_for task (before ++ other ∷ after) ≡ verdict_for task (before ++ after)
unfolding verdict_for
verdict_for_less_urgent task other before after h =
    ground (arith, collect_less_urgent task other before after (inr h))
