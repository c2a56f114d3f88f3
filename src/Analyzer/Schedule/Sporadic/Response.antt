-- ===== src/Analyzer/Schedule/Sporadic/Response.antt =====
-- The response of a job among sporadic streams: the least solution of the recurrence bounds it,
-- whenever the job is released.
use native.Mathlib.Decide.{dec_lt}
use native.Mathlib.Nat.{zero-add, suc-add}
use mathlib.Core.Path.{subst}
use malleus_rtos.Base.{
  ℕ, zero, suc, ◌+◌, ◌-◌, ◌≤◌, ◌<◌, ◌≡◌, sym, ap, ◌∙◌, arith, List, All, some, u64_max,
}
use malleus_rtos.Base.Results.{some_inj}
use malleus_rtos.Analyzer.ResponseTime.{TaskTiming, pass, or_else, verdict_for}
use malleus_rtos.Analyzer.ResponseTime.Recurrence.{interference, IsLeastSolution, Positive}
use malleus_rtos.Analyzer.ResponseTime.Preemption.{Preempters, Preempters-Positive}
use malleus_rtos.Analyzer.ResponseTime.Exact.{verdict_for-pass}
use malleus_rtos.Analyzer.Schedule.Waiting.{sources, serve-sources}
use malleus_rtos.Analyzer.Schedule.Finish.{total, serve-total}
use malleus_rtos.Analyzer.Schedule.Verdict.{Preempters-unique}
use malleus_rtos.Analyzer.Schedule.Sporadic.{Stream, tasks_of, IsSporadic, admit, before, after}
use malleus_rtos.Analyzer.Schedule.Sporadic.Arrivals.{influx, flow, flow-suc, flow_bound}
use malleus_rtos.Analyzer.Schedule.Sporadic.Backlogs.{
  admit-sources, admit-waiting, before-sources, Busy, before-Busy,
}

pub after-sources :
    (k at : ℕ) (ss : List Stream) (work : ℕ) → sources (after k at ss work).backlogs ≡ tasks_of ss
unfolding after
after-sources zero at ss work = before-sources at ss
after-sources (suc k) at ss work =
    let c = after k at ss work in
    serve-sources (admit (at + k) ss c.backlogs) c.own
    ∙ admit-sources (at + k) ss c.backlogs (after-sources k at ss work)

-- One tick of the processor after the release.
after_tick :
    (k at : ℕ) (ss : List Stream) (work : ℕ)
    → let c = after k at ss work in
      let d = after (suc k) at ss work in
      (d.own ≤ c.own) × (0 < d.own → total d + 1 ≡ total c + influx ss (at + k))
unfolding after
after_tick k at ss work =
    let c = after k at ss work in
    let admitted = admit-waiting (at + k) ss c.backlogs (after-sources k at ss work) in
    let (less, falls, ends) = serve-total (admit (at + k) ss c.backlogs) c.own in
    (falls, (λ left. omega arith))

after_falls :
    (d k at : ℕ) (ss : List Stream) (work : ℕ)
    → (after (d + k) at ss work).own ≤ (after k at ss work).own
after_falls zero k at ss work = rw (zero-add) (omega arith)
after_falls (suc d) k at ss work =
    rw (suc-add) (omega (arith, (after_tick (d + k) at ss work).0, after_falls d k at ss work))

-- While the job is not served, the time since the busy period began and the pending work add up to
-- the work that came.
after-pending :
    (k at : ℕ) (ss : List Stream) (work : ℕ) (busy : Busy at ss (before at ss))
    → 0 < (after k at ss work).own
    → total (after k at ss work) + (busy.n + k) ≡ work + flow ss busy.from (busy.n + k)
unfolding after
after-pending zero at ss work busy left =
    let window = ap (λ (x : ℕ). flow ss busy.from x) (plus_zero busy.n) in omega arith
  where
    plus_zero : (n : ℕ) → n + 0 ≡ n
    plus_zero n = omega arith
after-pending (suc k) at ss work busy left =
    let (falls, step) = after_tick k at ss work in
    let window : flow ss busy.from (busy.n + suc k) ≡ flow ss busy.from (suc (busy.n + k)) =
      ap (λ (x : ℕ). flow ss busy.from x) (omega arith) in
    let came : influx ss (busy.from + (busy.n + k)) ≡ influx ss (at + k) =
      ap (λ (x : ℕ). influx ss x) (omega arith) in
    omega (
      arith,
      after-pending k at ss work busy (omega arith),
      step left,
      flow-suc ss busy.from (busy.n + k),
    )

after-own-le : (k at : ℕ) (ss : List Stream) (work : ℕ) → (after k at ss work).own ≤ work
unfolding after
after-own-le zero at ss work = omega arith
after-own-le (suc k) at ss work =
    omega (arith, (after_tick k at ss work).0, after-own-le k at ss work)

-- A job that is not served yet leaves room for a contradiction at the least solution.
not_late :
    (r k at : ℕ) (ss : List Stream) (work : ℕ) (busy : Busy at ss (before at ss))
    → Positive (tasks_of ss)
    → All IsSporadic ss
    → IsLeastSolution work (tasks_of ss) r
    → busy.n + k ≡ r
    → 0 < (after k at ss work).own
    → ⊥
not_late r k at ss work busy pos sporadic least window left =
    let bound = flow_bound ss busy.from (busy.n + k) pos sporadic in
    let same = ap (λ (x : ℕ). interference (tasks_of ss) x) window in
    omega (arith, after-pending k at ss work busy left)

-- A job that was served stays served.
still_served :
    (r k at : ℕ) (ss : List Stream) (work : ℕ)
    → r ≤ k
    → (after r at ss work).own ≡ 0
    → (after k at ss work).own ≡ 0
still_served r k at ss work le served =
    let split : k - r + r ≡ k = omega arith in
    let same = ap (λ (x : ℕ). (after x at ss work).own) split in
    omega (arith, after_falls (k - r) r at ss work)

-- The least solution bounds the response of every job, whenever it is released.
pub after-served :
    (r at : ℕ) (ss : List Stream) (work : ℕ)
    → Positive (tasks_of ss)
    → All IsSporadic ss
    → IsLeastSolution work (tasks_of ss) r
    → (after r at ss work).own ≡ 0
after-served r at ss work pos sporadic least = elim (dec_lt 0 (after r at ss work).own) [
  | no served ↦ omega arith
  | yes left ↦ elim (dec_lt r busy.n) [
    | yes inside ↦ absurd (
        omega (
          arith,
          busy.full r (omega arith),
          flow_bound ss busy.from r pos sporadic,
          after-own-le r at ss work,
        ))
    | no outside ↦
        let earlier : (after r at ss work).own ≤ (after (r - busy.n) at ss work).own =
          subst (λ (x : ℕ). (after x at ss work).own ≤ (after (r - busy.n) at ss work).own)
            (omega arith) (after_falls busy.n (r - busy.n) at ss work) in
        absurd
          (not_late r (r - busy.n) at ss work busy pos sporadic least (omega arith) (omega arith))
  ]
]
  where
    busy : Busy at ss (before at ss)
    busy = before-Busy at ss

-- A pass holds for sporadic jobs: with a deadline below the largest `u64`, where each task that can
-- preempt brings a stream of jobs that arrive at least one period apart, the response does not
-- exceed the deadline, and a job of the task that is released at any tick, with whatever work of
-- those is pending then and none of an earlier job of the task itself, has been served in full at
-- every tick from the response on.
pub verdict_for-pass_sporadic :
    (task : TaskTiming) (os : List TaskTiming) (ss : List Stream) (wcet deadline response slack : ℕ)
    → or_else task.deadline task.period ≡ some deadline
    → deadline < u64_max
    → task.wcet ≡ some wcet
    → Preempters task os (tasks_of ss)
    → All IsSporadic ss
    → verdict_for task os ≡ pass response slack
    → (response ≤ deadline)
      × ((at k : ℕ) → response ≤ k → (after k at ss (wcet + task.blocking)).own ≡ 0)
verdict_for-pass_sporadic task os ss w d r s hd room hw pre sporadic h =
    let (w', is', declared, pre', least, fits) = verdict_for-pass task os d r s hd room h in
    let same_tasks : is' ≡ tasks_of ss = Preempters-unique task os is' (tasks_of ss) pre' pre in
    let same_wcet : w' ≡ w = some_inj (sym declared ∙ hw) in
    let solution : IsLeastSolution (w + task.blocking) (tasks_of ss) r =
      subst (λ js. IsLeastSolution (w + task.blocking) js r) same_tasks
        (subst (λ v. IsLeastSolution (v + task.blocking) is' r) same_wcet least) in
    (
      omega arith,
      (λ at k late.
          still_served r k at ss (w + task.blocking) late
            (after-served r at ss (w + task.blocking) (Preempters-Positive pre) sporadic solution)),
    )
