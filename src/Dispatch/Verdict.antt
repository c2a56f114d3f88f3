-- ===== src/Dispatch/Verdict.antt =====
-- What a pass of the analysis promises of the device.
use mathlib.Core.Path.{subst}
use malleus_rtos.Base.{ℕ, ◌+◌, ◌≤◌, ◌<◌, ◌≡◌, sym, arith, some, List, All, u64_max}
use malleus_rtos.Analyzer.ResponseTime.{pass, or_else, verdict_for}
use malleus_rtos.Analyzer.ResponseTime.Preemption.{Preempters}
use malleus_rtos.Analyzer.ResponseTime.Exact.{verdict_for-pass}
use malleus_rtos.Analyzer.Schedule.Sporadic.Response.{verdict_for-pass_sporadic}
use malleus_rtos.Dispatch.{Activity, Conforms, urgency, at_level}
use malleus_rtos.Dispatch.Totals.{AllPriorities}
use malleus_rtos.Dispatch.Progress.{left}
use malleus_rtos.Dispatch.Streams.{timings, Covered, cover}
use malleus_rtos.Dispatch.Placement.{Stands, Stands-Named, Stands-Conforms}
use malleus_rtos.Dispatch.Deadlines.{job_ends}

-- A pass holds on the device: where the priorities are valid, every task keeps to its declared
-- period and execution time, and the task has a name and a priority that no other has and a
-- deadline below the largest `u64` within its period, then the response does not exceed the
-- deadline, and whenever a job of the task is released, nothing that was released of it is pending
-- from the response on, up to one period after the release; the work of the less urgent tasks need
-- not be declared.
pub verdict_for-pass_dispatched :
    (a : Activity) (acts : List Activity) (deadline period response slack : ℕ)
    → Stands a acts
    → AllPriorities acts
    → All Conforms acts
    → a.task.period ≡ some period
    → or_else a.task.deadline a.task.period ≡ some deadline
    → deadline ≤ period
    → deadline < u64_max
    → verdict_for a.task (timings acts) ≡ pass response slack
    → (response ≤ deadline)
      × ((t k : ℕ)
          → 0 < a.work t
          → response ≤ k
          → k ≤ period
          → left (at_level (urgency a)) (t + k) acts ≡ 0)
verdict_for-pass_dispatched a acts d p r s placed valid conforms hp hd short room h =
    let (w, is, declared, pre, least, fits) =
      verdict_for-pass a.task (timings acts) d r s hd room h in
    let c : Covered a.task acts is =
      cover a.task acts is conforms (Stands-Named a acts placed) pre in
    let own : Conforms a = Stands-Conforms a acts conforms placed in
    let (within, served) =
      verdict_for-pass_sporadic a.task (timings acts) c.streams w d r s hd room declared
        (subst (Preempters a.task (timings acts)) (sym c.tasks) pre) c.sporadic h in
    (
      within,
      (λ t k released late early.
          job_ends a acts c.streams k p (w + a.task.blocking) placed valid own hp early c.carries
            (λ u. omega (arith, own.within w declared u)) (λ from. served from k late) t released),
    )
