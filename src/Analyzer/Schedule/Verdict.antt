-- ===== src/Analyzer/Schedule/Verdict.antt =====
-- The verdicts of `verdict_for` against the simulated processor.
use malleus_rtos.Base.{ℕ, ◌+◌, ◌≤◌, ◌<◌, ◌≡◌, ◌↔◌, arith, List, some, u64_max}
use malleus_rtos.Base.{refl, sym, ap, ◌∙◌, saturating_add_u64}
use malleus_rtos.Base.Results.{some_inj}
use malleus_rtos.Analyzer.ResponseTime.{
  gathered, Verdict, unknown, max_iterations, TaskTiming, Interferer, pass, fail, or_else,
  verdict_for,
}
use malleus_rtos.Analyzer.ResponseTime.Preemption.{
  Preempters, Preempters-Positive, collect_complete,
}
use malleus_rtos.Analyzer.ResponseTime.Exact.{
  verdict_for-pass, verdict_for-fail, verdict_for_decides,
}
use malleus_rtos.Analyzer.Schedule.{run}
use malleus_rtos.Analyzer.Schedule.Finish.{run-own_iff, busy_until}

-- A pass is what the processor does: with a deadline below the largest `u64`, the task declares
-- an execution time and all that can preempt it are declared; on a processor that is simulated
-- tick by tick, where all of these tasks are released together and then at every multiple of
-- their periods and the preempting ones are served first, the task's execution and blocking time
-- are served after `t` ticks exactly when `t` is at least the response; and the response does not
-- exceed the deadline.
pub verdict_for-pass_simulated :
    (task : TaskTiming) (os : List TaskTiming) (deadline response slack : ℕ)
    → or_else task.deadline task.period ≡ some deadline
    → deadline < u64_max
    → verdict_for task os ≡ pass response slack
    → (wcet : ℕ) × (is : List Interferer) × (task.wcet ≡ some wcet)
      × Preempters task os is
      × ((t : ℕ) → ((run t is (wcet + task.blocking)).own ≡ 0) ↔ (response ≤ t))
      × (response ≤ deadline)
verdict_for-pass_simulated task os d r s hd room h =
    let (wcet, is, declared, pre, least, slack) = verdict_for-pass task os d r s hd room h in
    (
      wcet,
      is,
      declared,
      pre,
      (λ t. run-own_iff t is (wcet + task.blocking) r (Preempters-Positive pre) least),
      omega arith,
    )

-- A failure is what the processor does: with a deadline below the largest `u64`, the task declares
-- an execution time and all that can preempt it are declared; and on a processor that is
-- simulated tick by tick, where all of these tasks are released together and then at every
-- multiple of their periods and the preempting ones are served first, the task's execution and
-- blocking time are not served yet at the deadline, nor at any tick before the reported response.
pub verdict_for-fail_simulated :
    (task : TaskTiming) (os : List TaskTiming) (deadline response overrun : ℕ)
    → or_else task.deadline task.period ≡ some deadline
    → deadline < u64_max
    → verdict_for task os ≡ fail response overrun
    → (wcet : ℕ) × (is : List Interferer) × (task.wcet ≡ some wcet)
      × Preempters task os is
      × (0 < (run deadline is (wcet + task.blocking)).own)
      × ((t : ℕ) → t < response → 0 < (run t is (wcet + task.blocking)).own)
verdict_for-fail_simulated task os d r o hd room h =
    let (wcet, is, declared, pre, beyond, some_overrun, least) =
      verdict_for-fail task os d r o hd room h in
    let work = wcet + task.blocking in
    let unserved : (t : ℕ) → t < r → 0 < (run t is work).own =
      λ t before. (busy_until t is work r (Preempters-Positive pre) least (omega arith)).1 before in
    (wcet, is, declared, pre, unserved d (omega arith), unserved)

gathered_inj : {is js : List Interferer} → gathered is ≡ gathered js → is ≡ js
gathered_inj h = cc h

-- The tasks that can preempt are determined.
pub Preempters-unique :
    (task : TaskTiming) (os : List TaskTiming) (is js : List Interferer)
    → Preempters task os is
    → Preempters task os js
    → is ≡ js
Preempters-unique task os is js p q =
    gathered_inj (sym (collect_complete task os is p) ∙ collect_complete task os js q)

-- The test and the simulation agree: where the task and all that can preempt it are declared, the
-- deadline is below the largest `u64` and less than 1000 ticks beyond the task's own demand, the
-- verdict is a pass exactly when the simulated processor has served the task's execution and
-- blocking time at the deadline.
pub verdict_for-simulated_iff :
    (task : TaskTiming) (os : List TaskTiming) (is : List Interferer) (wcet deadline period : ℕ)
    → task.wcet ≡ some wcet
    → or_else task.deadline task.period ≡ some deadline
    → task.period ≡ some period
    → Preempters task os is
    → deadline < u64_max
    → deadline < saturating_add_u64 wcet task.blocking + max_iterations
    → ((r : ℕ) × (s : ℕ) × (verdict_for task os ≡ pass r s))
      ↔ ((run deadline is (wcet + task.blocking)).own ≡ 0)
verdict_for-simulated_iff task os is w d p hw hd hp pre room near =
    (meets, passes (verdict_for task os) refl)
  where
    same_run :
        (w' : ℕ) (is' : List Interferer)
        → task.wcet ≡ some w'
        → Preempters task os is'
        → (run d is (w + task.blocking)).own ≡ (run d is' (w' + task.blocking)).own
    same_run w' is' declared pre' =
        ap (λ (js : List Interferer). (run d js (w + task.blocking)).own)
          (Preempters-unique task os is is' pre pre')
        ∙ ap (λ (v : ℕ). (run d is' (v + task.blocking)).own) (some_inj (sym hw ∙ declared))

    meets :
        (r : ℕ) × (s : ℕ) × (verdict_for task os ≡ pass r s)
        → (run d is (w + task.blocking)).own ≡ 0
    meets (r, s, h) =
        let (w', is', declared, pre', done, within) =
          verdict_for-pass_simulated task os d r s hd room h in
        same_run w' is' declared pre' ∙ (done d).1 within

    passes :
        (v : Verdict)
        → verdict_for task os ≡ v
        → (run d is (w + task.blocking)).own ≡ 0
        → (r : ℕ) × (s : ℕ) × (verdict_for task os ≡ pass r s)
    passes (pass r s) e served = (r, s, e)
    passes (fail r o) e served =
        let (w', is', declared, pre', unserved, before) =
          verdict_for-fail_simulated task os d r o hd room e in
        absurd (omega (arith, same_run w' is' declared pre'))
    passes (unknown reason) e served =
        absurd (verdict_for_decides task os is w d p hw hd hp pre near reason e)
