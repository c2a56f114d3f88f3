-- ===== src/Dispatch/Streams.antt =====
-- The jobs of the tasks that can preempt, as the streams that the response is proved for.
use native.Mathlib.Decide.{dec_lt}
use malleus_rtos.Base.{
  ℕ, ◌≤◌, ◌<◌, ◌≡◌, ◌≢◌, refl, ap, arith, ltb, ltb→lt, le→ltb, inl, inr, some, List, [], ◌∷◌, All,
}
use malleus_rtos.Analyzer.ResponseTime.{TaskTiming, Interferer}
use malleus_rtos.Analyzer.ResponseTime.Preemption.{Preempters, nobody, harmless, preempting}
use malleus_rtos.Analyzer.Schedule.Sporadic.{Stream, tasks_of, IsSporadic}
use malleus_rtos.Analyzer.Schedule.Sporadic.Arrivals.{influx}
use malleus_rtos.Dispatch.{Activity, Conforms, urgency, above}
use malleus_rtos.Dispatch.Totals.{released_at}

abbrev pub timings : List Activity → List TaskTiming
timings [] = []
timings (a ∷ acts) = a.task ∷ timings acts

-- A more urgent task has another name.
abbrev pub Named : TaskTiming → List Activity → Type 0
Named task = All (λ (o : Activity). task.priority < urgency o → o.task.name ≢ task.name)

-- Streams of the tasks that can preempt, which bring at least their work.
pub record Covered (task : TaskTiming) (acts : List Activity) (is : List Interferer) : Type 0 where
  pub streams : List Stream
  pub tasks : tasks_of streams ≡ is
  pub sporadic : All IsSporadic streams
  pub carries : (t : ℕ) → released_at (above task.priority) t acts ≤ influx streams t

-- A task that cannot preempt brings nothing above.
cover_harmless :
    (task : TaskTiming) (o : Activity) (acts : List Activity) (is : List Interferer)
    → urgency o ≤ task.priority
    → Covered task acts is
    → Covered task (o ∷ acts) is
unfolding released_at
cover_harmless task o acts is le c = record {
  streams = c.streams;
  tasks = c.tasks;
  sporadic = c.sporadic;
  carries = λ t. rw (le→ltb (urgency o) task.priority le) (omega (arith, c.carries t));
}

abbrev stream_of : Activity → Interferer → Stream
stream_of o i = record { task = i; arrives = λ t. ltb 0 (o.work t) }

stream_of-IsSporadic :
    (o : Activity) (i : Interferer)
    → Conforms o
    → o.task.period ≡ some i.period
    → IsSporadic (stream_of o i)
stream_of-IsSporadic o i c period t u ht hu h =
    c.spaced i.period period t u (ltb→lt 0 _ ht) (ltb→lt 0 _ hu) h

cover_preempting :
    (task : TaskTiming) (o : Activity) (i : Interferer) (acts : List Activity)
    (is : List Interferer)
    → Conforms o
    → o.task.period ≡ some i.period
    → o.task.wcet ≡ some i.wcet
    → Covered task acts is
    → Covered task (o ∷ acts) (i ∷ is)
unfolding released_at
cover_preempting task o i acts is conforms period wcet c = record {
  streams = stream_of o i ∷ c.streams;
  tasks = ap (λ (js : List Interferer). i ∷ js) c.tasks;
  sporadic = (stream_of-IsSporadic o i conforms period, c.sporadic);
  carries = λ t. ground (arith, c.carries t, conforms.within i.wcet wcet t);
}

-- Where the tasks that can preempt are as the analysis found them, their jobs are such streams.
pub cover :
    (task : TaskTiming) (acts : List Activity) (is : List Interferer)
    → All Conforms acts
    → Named task acts
    → Preempters task (timings acts) is
    → Covered task acts is
cover task [] is conforms named nobody =
    unfold released_at in
    record { streams = []; tasks = refl; sporadic = tt; carries = λ t. omega arith }
cover task (o ∷ acts) is (c, conforms) (n, named) (harmless timing (inl same) rest) =
    elim (dec_lt task.priority (urgency o)) [
      | yes urgent ↦ absurd (n urgent same)
      | no not_urgent ↦
          cover_harmless task o acts is (omega arith) (cover task acts is conforms named rest)
    ]
cover task (o ∷ acts) is (c, conforms) (n, named) (harmless timing (inr le) rest) =
    cover_harmless task o acts is le (cover task acts is conforms named rest)
cover task (o ∷ acts) is (c, conforms) (n, named)
      (preempting timing i name urgent period pos wcet rest) =
    cover_preempting task o i acts _ c period wcet (cover task acts _ conforms named rest)
