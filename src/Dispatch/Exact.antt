-- ===== src/Dispatch/Exact.antt =====
-- The verdicts of crates/malleus-analyzer/src/response_time.rs on the device whose tasks are all
-- released together: they are exact.
use mathlib.Core.Path.{subst}
use malleus_rtos.Base.{
  ℕ, zero, suc, ◌+◌, ◌%◌, ◌≤◌, ◌<◌, ◌≡◌, ap, ◌∙◌, arith, ◌==◌, if◌then◌else◌, some, List, All,
  u64_max, inl, inr, [], ◌∷◌,
}
use malleus_rtos.Analyzer.ResponseTime.{Interferer, fail, or_else, verdict_for}
use malleus_rtos.Analyzer.ResponseTime.Exact.{verdict_for-fail}
use malleus_rtos.Analyzer.Schedule
use malleus_rtos.Analyzer.Schedule.Verdict.{verdict_for-fail_simulated}
use malleus_rtos.Dispatch.{Activity, urgency, at_level, above}
use malleus_rtos.Dispatch.Totals.{released_at, AllPriorities}
use malleus_rtos.Dispatch.Progress.{left}
use malleus_rtos.Dispatch.Streams.{timings}
use malleus_rtos.Dispatch.Placement.{Stands, Stands-Named, Stands-valid, released_own}
use malleus_rtos.Dispatch.Synchronous.{Synchronous, brought, released-brought, run-left}

Stands-Synchronous :
    (a : Activity) (acts : List Activity) → All Synchronous acts → Stands a acts → Synchronous a
Stands-Synchronous a [] sync h = absurd h
Stands-Synchronous a (o ∷ acts) (s, sync) (inl (same, h)) = subst Synchronous same s
Stands-Synchronous a (o ∷ acts) (s, sync) (inr (apart, h)) = Stands-Synchronous a acts sync h

between : (k p w : ℕ) → 0 < k → k < p → (if k % p == 0 then w else 0) ≡ 0
between k p w pos lt = let inside : k % p ≡ k = grind arith in ground arith

at_start : (p w : ℕ) → (if 0 % p == 0 then w else 0) ≡ w
at_start p w = ground arith

-- A failure is what the device does: where the priorities are valid, the task has a name and a
-- priority that no other has, no blocking and a deadline below the largest `u64` within its period,
-- and every declared task is released at the start and then at every multiple of its period with
-- its whole execution time, the reported response exceeds the deadline, and work of the task's
-- first job is pending at every tick after the release, within the period, that is before the
-- reported response.
pub verdict_for-fail_dispatched :
    (a : Activity) (acts : List Activity) (deadline period response overrun : ℕ)
    → Stands a acts
    → AllPriorities acts
    → All Synchronous acts
    → a.task.period ≡ some period
    → or_else a.task.deadline a.task.period ≡ some deadline
    → deadline ≤ period
    → deadline < u64_max
    → a.task.blocking ≡ 0
    → verdict_for a.task (timings acts) ≡ fail response overrun
    → (deadline < response)
      × ((t : ℕ) → 0 < t → t ≤ period → t < response → 0 < left (at_level (urgency a)) t acts)
verdict_for-fail_dispatched a acts d p r o placed valid sync hp hd short room unblocked h =
    let (w, is, declared, pre, unserved, before) =
      verdict_for-fail_simulated a.task (timings acts) d r o hd room h in
    let (w', is', declared', pre', beyond, some_overrun, least) =
      verdict_for-fail a.task (timings acts) d r o hd room h in
    let own : Synchronous a = Stands-Synchronous a acts sync placed in
    let released : (t : ℕ)
        → released_at (at_level (urgency a)) t acts ≡ (if t % p == 0 then w else 0) =
      λ t. released_own a acts t placed ∙ own p w hp declared t in
    let carries : (t : ℕ) → released_at (above (urgency a)) t acts ≡ brought is t =
      λ t. released-brought a.task acts is t sync (Stands-Named a acts placed) pre in
    let work : w + a.task.blocking ≡ w = omega arith in
    let agrees : (t : ℕ)
        → 0 < t
        → t ≤ p
        → left (at_level (urgency a)) t acts ≡ (Schedule.run t is w).own =
      agree w is released carries in
    let whole : (t : ℕ)
        → (Schedule.run t is (w + a.task.blocking)).own ≡ (Schedule.run t is w).own =
      λ t. ap (λ (x : ℕ). (Schedule.run t is x).own) work in
    (omega arith, (λ t pos le early. omega (arith, agrees t pos le, whole t, before t early)))
  where
    agree :
        (w : ℕ) (is : List Interferer)
        → ((t : ℕ) → released_at (at_level (urgency a)) t acts ≡ (if t % p == 0 then w else 0))
        → ((t : ℕ) → released_at (above (urgency a)) t acts ≡ brought is t)
        → (t : ℕ) → 0 < t
        → t ≤ p
        → left (at_level (urgency a)) t acts ≡ (Schedule.run t is w).own
    agree w is released carries zero pos le = absurd (omega arith)
    agree w is released carries (suc t) pos le =
        run-left (urgency a) acts is w (Stands-valid a acts valid placed) valid carries
          (released 0 ∙ at_start p w) t
          (λ k some_ticks early. released k ∙ between k p w some_ticks (omega arith))
