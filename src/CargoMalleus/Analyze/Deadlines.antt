-- ===== src/CargoMalleus/Analyze/Deadlines.antt =====
-- What the exit code of `cargo malleus analyze` promises of the running system.
use mathlib.Core.Path.{subst}
use malleus_rtos.Base.{
  ℕ, ◌+◌, ◌<◌, ◌≡◌, sym, ap, ◌∙◌, arith, List, [], ◌∷◌, All, Option, none, some, Option-cases, inl,
  inr, u64_max,
}
use malleus_rtos.Base.Text.{Text}
use malleus_rtos.Base.Results.{Result, ok, ok_inj, some_inj}
use malleus_rtos.Manifest.Schema.{Manifest}
use malleus_rtos.Manifest.Checks.Priorities.{Group}
use malleus_rtos.Manifest.Checks.Timing.{parse_tick_hz}
use malleus_rtos.Manifest.Validate.Exact.{WellFormed}
use malleus_rtos.Analyzer.ResponseTime.{TaskTiming, Interferer, pass, or_else, verdict_for}
use malleus_rtos.Analyzer.ResponseTime.Preemption.{Preempters}
use malleus_rtos.Analyzer.Schedule.{run}
use malleus_rtos.Analyzer.Schedule.Verdict.{verdict_for-pass_simulated}
use malleus_rtos.CargoMalleus.Outcome.{success, returned, returned_inj}
use malleus_rtos.CargoMalleus.Analyze.{timings_of, analyze_source}
use malleus_rtos.CargoMalleus.Analyze.Verdict.{analyze_source-success}

abbrev pub IsBelowMax : Option ℕ → Type 0
IsBelowMax none = Unit
IsBelowMax (some d) = d < u64_max

-- The deadline of a task, declared or implied by its period, was not cut off.
abbrev pub HasRoom : TaskTiming → Type 0
HasRoom t = IsBelowMax (or_else t.deadline t.period)

-- On the simulated processor the task has been served in full when its deadline comes.
pub record MeetsDeadline (tasks : List TaskTiming) (t : TaskTiming) : Type 0 where
  pub deadline : ℕ
  pub wcet : ℕ
  pub interferers : List Interferer
  pub due : or_else t.deadline t.period ≡ some deadline
  pub declared : t.wcet ≡ some wcet
  pub preempters : Preempters t tasks interferers
  pub served : (run deadline interferers (wcet + t.blocking)).own ≡ 0

pub no_deadline-unknown :
    (t : TaskTiming) (os : List TaskTiming) (r s : ℕ)
    → or_else t.deadline t.period ≡ none
    → verdict_for t os ≡ pass r s
    → ⊥
unfolding verdict_for
no_deadline-unknown t os r s none_due h = ground arith

pass-MeetsDeadline :
    (tasks : List TaskTiming) (t : TaskTiming)
    → HasRoom t
    → (r : ℕ) × (s : ℕ) × (verdict_for t tasks ≡ pass r s)
    → MeetsDeadline tasks t
pass-MeetsDeadline tasks t room (r, s, h) = elim (Option-cases (or_else t.deadline t.period)) [
  | inl e ↦ absurd (no_deadline-unknown t tasks r s e h)
  | inr (d, e) ↦
      let (wcet, is, declared, pre, done, within) =
        verdict_for-pass_simulated t tasks d r s e (subst IsBelowMax e room) h in
      record {
        deadline = d;
        wcet = wcet;
        interferers = is;
        due = e;
        declared = declared;
        preempters = pre;
        served = (done d).1 within;
      }
]

every_deadline_met :
    (tasks ts : List TaskTiming)
    → All HasRoom ts
    → All (λ t. (r : ℕ) × (s : ℕ) × (verdict_for t tasks ≡ pass r s)) ts
    → All (MeetsDeadline tasks) ts
every_deadline_met tasks [] rooms passes = tt
every_deadline_met tasks (t ∷ ts) (room, rooms) (p, passes) =
    (pass-MeetsDeadline tasks t room p, every_deadline_met tasks ts rooms passes)

-- What a run that succeeds has seen, of a manifest whose times are read as `timings`.
pub analyze_source-seen :
    {E : Type 0} (visit : List Group → List Group) (from_str : Text → Result E Manifest)
    (source : Text) (m : Manifest) (tick_hz : ℕ) (timings : List TaskTiming)
    → from_str source ≡ ok m
    → parse_tick_hz m.system.tick_rate ≡ some tick_hz
    → timings_of {E = E} tick_hz m.tasks ≡ returned timings
    → analyze_source visit from_str source ≡ returned success
    → WellFormed m × All (λ t. (r : ℕ) × (s : ℕ) × (verdict_for t timings ≡ pass r s)) timings
analyze_source-seen {E = E} visit from_str source m hz timings parsed rate collected h =
    let s = (analyze_source-success visit from_str source).0 h in
    let same_manifest : s.manifest ≡ m = ok_inj s.parsed parsed in
    let same_rate : s.tick_hz ≡ hz = some_inj (
      sym s.ticks ∙ ap (λ (n : Manifest). parse_tick_hz n.system.tick_rate) same_manifest ∙ rate) in
    let same : s.timings ≡ timings = returned_inj s.collected (
      ap (λ (n : Manifest). timings_of {E = E} s.tick_hz n.tasks) same_manifest
      ∙ ap (λ (k : ℕ). timings_of {E = E} k m.tasks) same_rate
      ∙ collected) in
    (
      subst WellFormed same_manifest s.well_formed,
      subst (λ ts. All (λ t. (r : ℕ) × (q : ℕ) × (verdict_for t ts ≡ pass r q)) ts) same s.passes,
    )

-- Success of `cargo malleus analyze` is a promise: where the manifest's times are read as `timings`
-- and no deadline among them is cut off at the largest `u64`, a run that succeeds means that every
-- task has a deadline and, on the processor that is simulated tick by tick with all tasks that can
-- preempt it released together with it and then at every multiple of their periods, has been
-- served in full when that deadline comes.
pub analyze_source-MeetsDeadline :
    {E : Type 0} (visit : List Group → List Group) (from_str : Text → Result E Manifest)
    (source : Text) (m : Manifest) (tick_hz : ℕ) (timings : List TaskTiming)
    → from_str source ≡ ok m
    → parse_tick_hz m.system.tick_rate ≡ some tick_hz
    → timings_of {E = E} tick_hz m.tasks ≡ returned timings
    → All HasRoom timings
    → analyze_source visit from_str source ≡ returned success
    → All (MeetsDeadline timings) timings
analyze_source-MeetsDeadline visit from_str source m hz timings parsed rate collected rooms h =
    every_deadline_met timings timings rooms
      (analyze_source-seen visit from_str source m hz timings parsed rate collected h).1
