-- ===== src/CargoMalleus/Analyze/Dispatched.antt =====
-- What the exit code of `cargo malleus analyze` promises of the device that the kernel dispatches.
use mathlib.Core.Path.{subst}
use malleus_rtos.Base.{
  ℕ, ◌+◌, ◌≤◌, ◌<◌, ◌≡◌, ◌≢◌, sym, ◌∙◌, arith, false, List, [], ◌∷◌, All, none, some, Option-cases,
  inl, inr,
}
use malleus_rtos.Base.Text.{Text, text_mem, text_eq-false_iff}
use malleus_rtos.Base.Iff.{Distinct}
use malleus_rtos.Base.Results.{Result, ok, some_inj}
use malleus_rtos.Manifest.Units.Order.{to_ticks_mono}
use malleus_rtos.Manifest.Schema.{Task, Manifest}
use malleus_rtos.Manifest.Checks.Channels.{task_names}
use malleus_rtos.Manifest.Checks.Priorities.{Group}
use malleus_rtos.Manifest.Checks.Priorities.Exact.{AllInRange}
use malleus_rtos.Manifest.Checks.Timing.{parse_tick_hz}
use malleus_rtos.Manifest.Checks.Timing.Exact.{SoundTiming}
use malleus_rtos.Analyzer.ResponseTime.{TaskTiming, pass, or_else, verdict_for}
use malleus_rtos.CargoMalleus.Outcome.{success, returned}
use malleus_rtos.CargoMalleus.Analyze.{timings_of, analyze_source}
use malleus_rtos.CargoMalleus.Analyze.Deadlines.{
  IsBelowMax, HasRoom, no_deadline-unknown, analyze_source-seen,
}
use malleus_rtos.CargoMalleus.Analyze.Readings.{Reading, Readings, timings_of-Readings}
use malleus_rtos.Dispatch.{Activity, Conforms, urgency, at_level}
use malleus_rtos.Dispatch.Totals.{AllPriorities}
use malleus_rtos.Dispatch.Progress.{left}
use malleus_rtos.Dispatch.Streams.{timings}
use malleus_rtos.Dispatch.Placement.{Apart, Separate, Stands, AllStand, Separate-Stands}
use malleus_rtos.Dispatch.Verdict.{verdict_for-pass_dispatched}

-- No two tasks share a priority.
abbrev pub Unshared : List Activity → Type 0
Unshared [] = Unit
Unshared (a ∷ acts) = All (λ (o : Activity). urgency o ≢ urgency a) acts × Unshared acts

unseen-Apart :
    (hz : ℕ) (a : Activity) (n : Text) (ts : List Task) (acts : List Activity)
    → a.task.name ≡ n
    → Readings hz ts (timings acts)
    → text_mem n (task_names ts) ≡ false
    → All (λ (o : Activity). urgency o ≢ urgency a) acts
    → All (Apart a) acts
unfolding text_mem
unseen-Apart hz a n ts [] e read absent levels = tt
unseen-Apart hz a n [] (o ∷ acts) e read absent levels = absurd read
unseen-Apart hz a n (t ∷ ts) (o ∷ acts) e (r, read) absent (level, levels) = (
  ((λ same. (text_eq-false_iff n t.name).0 (ground arith) (sym e ∙ sym same ∙ r.name)), level),
  unseen-Apart hz a n ts acts e read (ground arith) levels,
)

Readings-Separate :
    (hz : ℕ) (ts : List Task) (acts : List Activity)
    → Readings hz ts (timings acts)
    → Distinct (task_names ts)
    → Unshared acts
    → Separate acts
Readings-Separate hz ts [] read names levels = tt
Readings-Separate hz [] (a ∷ acts) read names levels = absurd read
Readings-Separate hz (t ∷ ts) (a ∷ acts) (r, read) (absent, names) (level, levels) = (
  unseen-Apart hz a t.name ts acts r.name read absent level,
  Readings-Separate hz ts acts read names levels,
)

Readings-AllPriorities :
    (hz : ℕ) (ts : List Task) (acts : List Activity)
    → Readings hz ts (timings acts)
    → AllInRange ts
    → AllPriorities acts
Readings-AllPriorities hz ts [] read ranges = tt
Readings-AllPriorities hz [] (a ∷ acts) read ranges = absurd read
Readings-AllPriorities hz (t ∷ ts) (a ∷ acts) (r, read) (range, ranges) =
    (omega arith, Readings-AllPriorities hz ts acts read ranges)

-- A deadline lies within the period, in ticks.
abbrev Ordered : TaskTiming → Type 0
Ordered x = (p d : ℕ) → x.period ≡ some p → x.deadline ≡ some d → d ≤ p

Reading-Ordered :
    (hz : ℕ) (t : Task) (x : TaskTiming) → 0 < hz → SoundTiming t → Reading hz t x → Ordered x
Reading-Ordered hz t x pos sound r p d hp hd =
    let (period, declared, same_period) = r.period p hp in
    let (deadline, due, same_deadline) = r.deadline d hd in
    let within = sound.1.1.1.0 period deadline declared due in
    omega (arith, to_ticks_mono deadline period hz pos within)

Readings-Ordered :
    (hz : ℕ) (ts : List Task) (xs : List TaskTiming)
    → 0 < hz
    → All SoundTiming ts
    → Readings hz ts xs
    → All Ordered xs
Readings-Ordered hz ts [] pos sound read = tt
Readings-Ordered hz [] (x ∷ xs) pos sound read = absurd read
Readings-Ordered hz (t ∷ ts) (x ∷ xs) pos (s, sound) (r, read) =
    (Reading-Ordered hz t x pos s r, Readings-Ordered hz ts xs pos sound read)

-- Whenever a job of the task is released, nothing that was released of it is pending at its deadline.
pub record NeverMisses (acts : List Activity) (a : Activity) : Type 0 where
  pub deadline : ℕ
  pub due : or_else a.task.deadline a.task.period ≡ some deadline
  pub ends : (t : ℕ) → 0 < a.work t → left (at_level (urgency a)) (t + deadline) acts ≡ 0

no_period-unknown :
    (x : TaskTiming) (xs : List TaskTiming) (r s : ℕ)
    → x.period ≡ none
    → verdict_for x xs ≡ pass r s
    → ⊥
unfolding verdict_for
no_period-unknown x xs r s e h = ground arith

due_within :
    (x : TaskTiming) (p d : ℕ)
    → Ordered x
    → x.period ≡ some p
    → or_else x.deadline x.period ≡ some d
    → d ≤ p
unfolding or_else
due_within x p d ordered hp hd = elim (Option-cases x.deadline) [
  | inl e ↦ let same : p ≡ d = some_inj (sym hp ∙ (rw e at hd)) in omega arith
  | inr (d', e) ↦ let same : d' ≡ d = some_inj (rw e at hd) in omega (arith, ordered p d' hp e)
]

pass-NeverMisses :
    (acts : List Activity) (a : Activity)
    → AllPriorities acts
    → All Conforms acts
    → Stands a acts
    → Ordered a.task
    → HasRoom a.task
    → (r : ℕ) × (s : ℕ) × (verdict_for a.task (timings acts) ≡ pass r s)
    → NeverMisses acts a
pass-NeverMisses acts a valid conforms placed ordered room (r, s, h) =
    elim (Option-cases (or_else a.task.deadline a.task.period)) [
      | inl e ↦ absurd (no_deadline-unknown a.task (timings acts) r s e h)
      | inr (d, e) ↦ elim (Option-cases a.task.period) [
        | inl none_declared ↦ absurd (no_period-unknown a.task (timings acts) r s none_declared h)
        | inr (p, declared) ↦
            let short = due_within a.task p d ordered declared e in
            let (within, ends) =
              verdict_for-pass_dispatched a acts d p r s placed valid conforms declared e short
                (subst IsBelowMax e room) h in
            record { deadline = d; due = e; ends = λ t released. ends t d released within short }
      ]
    ]

every_job_ends :
    (acts bs : List Activity)
    → AllPriorities acts
    → All Conforms acts
    → AllStand acts bs
    → All Ordered (timings bs)
    → All HasRoom (timings bs)
    → All (λ x. (r : ℕ) × (s : ℕ) × (verdict_for x (timings acts) ≡ pass r s)) (timings bs)
    → All (NeverMisses acts) bs
every_job_ends acts [] valid conforms placed ordered rooms passes = tt
every_job_ends acts (b ∷ bs) valid conforms (p, placed) (o, ordered) (room, rooms) (h, passes) = (
  pass-NeverMisses acts b valid conforms p o room h,
  every_job_ends acts bs valid conforms placed ordered rooms passes,
)

-- From the manifest to the running kernel: where `cargo malleus analyze` succeeds on a manifest
-- whose times are read as those of the tasks of a device, with no deadline cut off at the largest
-- `u64`, no priority shared, and every task keeping to its declared period and execution time,
-- then on the device, which serves at each tick the priority that the kernel's `ReadySet` gives as
-- the highest, whenever a job is released nothing that was released of its task is pending when
-- its deadline comes.
pub analyze_source-NeverMisses :
    {E : Type 0} (visit : List Group → List Group) (from_str : Text → Result E Manifest)
    (source : Text) (m : Manifest) (tick_hz : ℕ) (acts : List Activity)
    → from_str source ≡ ok m
    → parse_tick_hz m.system.tick_rate ≡ some tick_hz
    → timings_of {E = E} tick_hz m.tasks ≡ returned (timings acts)
    → All HasRoom (timings acts)
    → Unshared acts
    → All Conforms acts
    → analyze_source visit from_str source ≡ returned success
    → All (NeverMisses acts) acts
analyze_source-NeverMisses {E = E} visit from_str source m hz acts parsed rate collected rooms
      levels conforms h =
    let (well_formed, passes) =
      analyze_source-seen visit from_str source m hz (timings acts) parsed rate collected h in
    let read = timings_of-Readings {E = E} hz m.tasks (timings acts) collected in
    let (hz', rate', pos) = well_formed.ticks in
    let positive : 0 < hz = omega (arith, some_inj (sym rate' ∙ rate)) in
    every_job_ends acts acts (Readings-AllPriorities hz m.tasks acts read well_formed.priorities)
      conforms
      (Separate-Stands acts (Readings-Separate hz m.tasks acts read well_formed.names levels))
      (Readings-Ordered hz m.tasks (timings acts) positive well_formed.timing read) rooms passes
