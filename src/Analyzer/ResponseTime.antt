-- ===== src/Analyzer/ResponseTime.antt =====
-- crates/malleus-analyzer/src/response_time.rs: the response-time recurrence, solved by iteration.
pub mod Recurrence
pub mod Solution
pub mod Preemption
pub mod Verdicts
pub mod Exact
pub mod Utilisation
mod Examples
use malleus_rtos.Base.{
  ℕ, zero, suc, ◌+◌, ◌-◌, ◌*◌, ◌/◌, ltb, leb, ◌==◌, if◌then◌else◌, Bool, true, false, ◌||◌, Option,
  none, some, List, [], ◌∷◌, ◌++◌, all, any, u64_max, saturating_add_u64, saturating_mul_u64,
  div_ceil,
}
use malleus_rtos.Base.Text.{Text, codes, text_eq}

pub record TaskTiming : Type 0 where
  pub name : Text
  pub priority : ℕ
  pub period : Option ℕ
  pub deadline : Option ℕ
  pub wcet : Option ℕ
  pub blocking : ℕ

-- The reasons that an `Unknown` verdict names; `reason_text` has their words.
pub data Reason : Type 0 where
  no_wcet : Reason
  no_deadline : Reason
  no_period : Reason
  zero_period_above : Reason
  undeclared_above : Reason
  no_convergence : Reason

unfoldable pub reason_text : Reason → Text
reason_text no_wcet =
    codes
      "no worst-case execution time declared; measure it with `cargo malleus trace` and add `wcet` to the manifest"
reason_text no_deadline =
    codes "task is aperiodic and declares no deadline, so there is no timing contract to check"
reason_text no_period =
    codes
      "task declares a deadline but no period; without a minimum inter-arrival time its interference on others is unbounded"
reason_text zero_period_above =
    codes
      "a higher-priority task declares a zero period, so it demands the CPU without bound and the interference on this task cannot be computed"
reason_text undeclared_above =
    codes
      "a higher-priority task has no declared period or WCET, so the interference on this task cannot be bounded"
reason_text no_convergence =
    codes
      "the response-time recurrence did not converge within the iteration bound, so no worst-case response time was established for this task"

pub data Verdict : Type 0 where
  pass : ℕ → ℕ → Verdict
  fail : ℕ → ℕ → Verdict
  unknown : Reason → Verdict

unfoldable pub is_pass : Verdict → Bool
is_pass (pass response slack) = true
is_pass _ = false

unfoldable pub is_unknown : Verdict → Bool
is_unknown (unknown reason) = true
is_unknown _ = false

pub record Analysis : Type 0 where
  pub verdicts : List (Text × Verdict)
  pub utilisation_ppm : ℕ

unfoldable pub is_schedulable : Analysis → Bool
unfolding is_pass
is_schedulable a = all (λ v. is_pass v.1) a.verdicts

unfoldable pub has_unknowns : Analysis → Bool
unfolding is_unknown
has_unknowns a = any (λ v. is_unknown v.1) a.verdicts

abbrev pub max_iterations : ℕ
max_iterations = 1000

-- A higher-priority task's period and worst-case execution time.
pub record Interferer : Type 0 where
  pub period : ℕ
  pub wcet : ℕ

-- What the loop over the other tasks leaves: the interferers, or an early return.
pub data Collected : Type 0 where
  gathered : List Interferer → Collected
  undecidable : Reason → Collected

unfoldable pub push_front : Interferer → Collected → Collected
push_front i (gathered is) = gathered (i ∷ is)
push_front i (undecidable r) = undecidable r

-- One task that can preempt, ahead of the rest of the loop.
unfoldable pub add_interferer : Option ℕ → Option ℕ → Collected → Collected
unfolding push_front
add_interferer (some zero) w rest = undecidable zero_period_above
add_interferer (some (suc p)) (some w) rest = push_front (record { period = suc p; wcet = w }) rest
add_interferer (some (suc p)) none rest = undecidable undeclared_above
add_interferer none w rest = undecidable undeclared_above

-- The loop's `continue`: the task itself, by name, and what cannot preempt it.
unfoldable pub is_skipped : TaskTiming → TaskTiming → Bool
is_skipped task other = text_eq other.name task.name || leb other.priority task.priority

unfoldable pub collect : TaskTiming → List TaskTiming → Collected
unfolding add_interferer is_skipped
collect task [] = gathered []
collect task (other ∷ others) =
    let rest = collect task others in
    if is_skipped task other then rest else add_interferer other.period other.wcet rest

-- The inner loop: the next value of the recurrence at `response`, from `next` so far.
unfoldable pub add_interference : List Interferer → ℕ → ℕ → ℕ
add_interference [] response next = next
add_interference (i ∷ is) response next =
    add_interference is response
      (saturating_add_u64 next (saturating_mul_u64 (div_ceil response i.period) i.wcet))

-- A converged response against the deadline.
unfoldable pub settle : ℕ → ℕ → Verdict
settle deadline response =
    if leb response deadline
    then pass response (deadline - response)
    else fail response (response - deadline)

-- The outer loop, with the rounds left as fuel.
unfoldable pub solve : ℕ → List Interferer → ℕ → ℕ → ℕ → Verdict
unfolding settle add_interference
solve zero is base deadline response = unknown no_convergence
solve (suc rounds) is base deadline response =
    let next = add_interference is response base in
    let continue = solve rounds is base deadline next in
    if next == response
    then settle deadline response
    else if ltb deadline next
    then fail next (next - deadline)
    else continue

-- `Option::or`.
unfoldable pub or_else : Option ℕ → Option ℕ → Option ℕ
or_else none b = b
or_else (some a) b = some a

-- The recurrence of a task whose interferers are known.
unfoldable pub respond : TaskTiming → ℕ → ℕ → Collected → Verdict
unfolding solve
respond task wcet deadline (undecidable reason) = unknown reason
respond task wcet deadline (gathered is) =
    let base = saturating_add_u64 wcet task.blocking in solve max_iterations is base deadline base

unfoldable pub verdict_for : TaskTiming → List TaskTiming → Verdict
unfolding respond or_else collect
verdict_for task others = elim task.wcet [
  | none ↦ unknown no_wcet
  | some wcet ↦ elim (or_else task.deadline task.period) [
    | none ↦ unknown no_deadline
    | some deadline ↦ elim task.period [
      | none ↦ unknown no_period
      | some period ↦ respond task wcet deadline (collect task others)
    ]
  ]
]

-- One task's share of the utilisation, in parts per million.
unfoldable pub add_utilisation : Option ℕ → Option ℕ → ℕ → ℕ
add_utilisation (some zero) (some wcet) ppm = u64_max
add_utilisation (some (suc p)) (some wcet) ppm =
    saturating_add_u64 ppm (saturating_mul_u64 wcet 1_000_000 / suc p)
add_utilisation (some p) none ppm = ppm
add_utilisation none w ppm = ppm

-- The loop of `analyse` over the tasks not yet analysed.
unfoldable pub analyse_tasks : List TaskTiming → List TaskTiming → Analysis → Analysis
unfolding add_utilisation verdict_for
analyse_tasks tasks [] done = done
analyse_tasks tasks (t ∷ ts) done = analyse_tasks tasks ts (record {
  verdicts = done.verdicts ++ (t.name, verdict_for t tasks) ∷ [];
  utilisation_ppm = add_utilisation t.period t.wcet done.utilisation_ppm;
})

unfoldable pub analyse : List TaskTiming → Analysis
unfolding analyse_tasks
analyse tasks = analyse_tasks tasks tasks (record { verdicts = []; utilisation_ppm = 0 })
