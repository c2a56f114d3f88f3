-- ===== src/Dispatch/Deadlines.antt =====
-- Every job on the device ends by its deadline, where the analysis passes its task.
use native.Mathlib.Decide.{dec_lt}
use malleus_rtos.Base.{
  ℕ, zero, suc, ◌+◌, ◌≤◌, ◌<◌, ◌≡◌, ◌⊎◌, refl, sym, ap, ◌∙◌, arith, inl, inr, some, List,
}
use malleus_rtos.Analyzer.Schedule.Waiting.{waiting}
use malleus_rtos.Analyzer.Schedule.Sporadic.{Stream, after}
use malleus_rtos.Analyzer.Schedule.Sporadic.Arrivals.{influx}
use malleus_rtos.Kernel.Sched.Priority.{IsPriority}
use malleus_rtos.Dispatch.{Activity, Conforms, urgency, priority_of, at_level, above, run}
use malleus_rtos.Dispatch.Totals.{released_at, AllPriorities, idle-pending}
use malleus_rtos.Dispatch.Progress.{left, due, run-urgent_first}
use malleus_rtos.Dispatch.Placement.{Stands, Stands-valid, released_own}
use malleus_rtos.Dispatch.Bounds.{before-bounds, step_bounds}

-- A job that is on its way: released with nothing of the task pending, and not yet at its deadline.
record Pending (a : Activity) (acts : List Activity) (deadline t : ℕ) : Type 0 where
  from : ℕ
  age : ℕ
  now : t ≡ from + age
  young : age < deadline
  released : 0 < a.work from
  alone : left (at_level (urgency a)) from acts ≡ 0

module _ (a : Activity) (acts : List Activity) (ss : List Stream) (deadline period work : ℕ)
    (placed : Stands a acts) (valid : AllPriorities acts) (conforms : Conforms a)
    (declared : a.task.period ≡ some period) (short : deadline ≤ period)
    (carries : (t : ℕ) → released_at (above (urgency a)) t acts ≤ influx ss t)
    (within : (t : ℕ) → a.work t ≤ work)
    (served : (from : ℕ) → (after deadline from ss work).own ≡ 0) where
  -- The work of the task that is pending at a tick, before and after the releases.
  abbrev own_left : ℕ → ℕ
  own_left t = left (at_level (urgency a)) t acts

  own_due : (t : ℕ) → due (at_level (urgency a)) t acts ≡ own_left t + a.work t
  own_due t = ap (λ (x : ℕ). own_left t + x) (released_own a acts t placed)

  -- No other job is released within a period.
  quiet :
      (from age t : ℕ) → t ≡ from + age → 0 < age → age < period → 0 < a.work from → a.work t ≡ 0
  quiet from age t e pos young released = elim (dec_lt 0 (a.work t)) [
    | no nothing ↦ omega arith
    | yes again ↦
        let apart = conforms.spaced period declared from t released again (omega arith) in
        absurd (omega arith)
  ]

  abbrev own_level : IsPriority (priority_of a)
  own_level = Stands-valid a acts valid placed

  -- Until the next release the device is ahead of the processor of the streams.
  follow :
      (age from t : ℕ)
      → t ≡ from + age
      → age < period
      → 0 < a.work from
      → own_left from ≡ 0
      → (left (above (urgency a)) t acts ≤ waiting (after age from ss work).backlogs)
        × (due (at_level (urgency a)) t acts ≤ (after age from ss work).own)
  follow zero from t e young released alone =
      let here : t ≡ from = omega arith in
      let bound = before-bounds (urgency a) acts ss own_level valid carries from in
      let same_left = ap (λ (x : ℕ). left (above (urgency a)) x acts) here in
      let same_due = ap (λ (x : ℕ). due (at_level (urgency a)) x acts) here in
      unfold after in (omega arith, omega (arith, own_due from, within from))
  follow (suc age) from t e young released alone =
      let later : t ≡ suc (from + age) = omega arith in
      let (higher, own) = follow age from (from + age) refl (omega arith) released alone in
      let (higher', own') =
        step_bounds (urgency a) acts ss own_level valid carries (from + age) from age work refl
          higher own in
      let same_left = ap (λ (x : ℕ). left (above (urgency a)) x acts) later in
      let same_own = ap own_left later in
      let silent = quiet from (suc age) t e (omega arith) young released in
      (omega arith, omega (arith, own_due t))

  -- A job that is released with nothing of the task pending leaves nothing at its deadline.
  ends : (from t : ℕ) → t ≡ from + deadline → 0 < a.work from → own_left from ≡ 0 → own_left t ≡ 0
  ends from t e released alone = by_length deadline e short (served from)
    where
      by_length :
          (d : ℕ) → t ≡ from + d → d ≤ period → (after d from ss work).own ≡ 0 → own_left t ≡ 0
      by_length zero e' le done = ap own_left (omega arith) ∙ alone
      by_length (suc d) e' le done =
          let later : t ≡ suc (from + d) = omega arith in
          let (higher, own) = follow d from (from + d) refl (omega arith) released alone in
          let (higher', own') =
            step_bounds (urgency a) acts ss own_level valid carries (from + d) from d work refl
              higher own in
          omega (arith, ap own_left later)

  -- A job has a deadline after its release.
  positive : (from : ℕ) → 0 < a.work from → 0 < deadline
  positive from released = elim (dec_lt 0 deadline) [
    | yes pos ↦ pos
    | no not_pos ↦
        let nothing : deadline ≡ 0 = omega arith in
        let done : (after 0 from ss work).own ≡ 0 =
          ap (λ (d : ℕ). (after d from ss work).own) (sym nothing) ∙ served from in
        absurd (unfold after in omega (arith, within from))
  ]

  -- Nothing of the task is pending, but for a job that is on its way.
  history : (t : ℕ) → (own_left t ≡ 0) ⊎ Pending a acts deadline t
  history zero = inl (unfold run in idle-pending (at_level (urgency a)) acts)
  history (suc t) = onward (history t)
    where
      fresh : own_left t ≡ 0 → (own_left (suc t) ≡ 0) ⊎ Pending a acts deadline (suc t)
      fresh nothing = elim (dec_lt 0 (a.work t)) [
        | no silent ↦
            let (fewer, busy, free) = run-urgent_first (urgency a) t acts own_level valid in
            inl (elim (dec_lt 0 (due (above (urgency a)) t acts)) [
              | yes d ↦ omega (arith, busy d, own_due t)
              | no d ↦ omega (arith, free (omega arith), own_due t)
            ])
        | yes released ↦ elim (dec_lt 1 deadline) [
          | yes long ↦ inr (record {
            from = t;
            age = 1;
            now = omega arith;
            young = long;
            released = released;
            alone = nothing;
          })
          | no brief ↦ inl (ends t (suc t) (omega (arith, positive t released)) released nothing)
        ]
      ]

      onward :
          (own_left t ≡ 0) ⊎ Pending a acts deadline t
          → (own_left (suc t) ≡ 0) ⊎ Pending a acts deadline (suc t)
      onward (inl nothing) = fresh nothing
      onward (inr job) = elim (dec_lt (suc job.age) deadline) [
        | yes young ↦ inr (record {
          from = job.from;
          age = suc job.age;
          now = omega arith;
          young = young;
          released = job.released;
          alone = job.alone;
        })
        | no due_now ↦ inl (ends job.from (suc t) (omega arith) job.released job.alone)
      ]

  -- A job is released with nothing of the task pending.
  released_alone : (t : ℕ) → 0 < a.work t → own_left t ≡ 0
  released_alone t released = elim (history t) [
    | inl nothing ↦ nothing
    | inr job ↦ elim (dec_lt 0 job.age) [
      | yes later ↦
          let silent = quiet job.from job.age t job.now later (omega arith) job.released in
          absurd (omega arith)
      | no now ↦ ap own_left (omega arith) ∙ job.alone
    ]
  ]

  pub job_ends : (t : ℕ) → 0 < a.work t → own_left (t + deadline) ≡ 0
  job_ends t released = ends t (t + deadline) refl released (released_alone t released)
