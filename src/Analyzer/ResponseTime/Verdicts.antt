-- ===== src/Analyzer/ResponseTime/Verdicts.antt =====
-- The verdict of a task against the tasks that can preempt it.
use mathlib.Core.Path.{subst}
use malleus_rtos.Base.{ℕ, ◌<◌, ◌≡◌, arith, refl, sym, ◌∙◌}
use malleus_rtos.Base.{List, Option, none, some, u64_max}
use malleus_rtos.Base.{saturating_add_u64}
use malleus_rtos.Analyzer.ResponseTime.{
  TaskTiming, Interferer, Collected, gathered, undecidable, collect, Verdict, unknown, Reason,
  no_wcet, no_period, respond, or_else, verdict_for, max_iterations,
}
use malleus_rtos.Analyzer.ResponseTime.Solution.{IsSound, solve-IsSound}
use malleus_rtos.Analyzer.ResponseTime.Preemption.{Preempters, Preempters-Positive, collect_sound}

-- The parts of a verdict that was reached by the iteration.
pub record Reached (task : TaskTiming) (os : List TaskTiming) (d : ℕ) (v : Verdict) : Type 0 where
  pub wcet : ℕ
  pub interferers : List Interferer
  pub declared : task.wcet ≡ some wcet
  pub preempters : Preempters task os interferers
  pub sound : IsSound (saturating_add_u64 wcet task.blocking) interferers d v

abbrev pub IsDecided : Verdict → Type 0
IsDecided (unknown reason) = ⊥
IsDecided _ = Unit

respond-Reached :
    (task : TaskTiming) (os : List TaskTiming) (w d : ℕ) (c : Collected) (v : Verdict)
    → task.wcet ≡ some w
    → d < u64_max
    → collect task os ≡ c
    → respond task w d c ≡ v
    → IsDecided v
    → Reached task os d v
unfolding respond
respond-Reached task os w d (undecidable r) v hw room hc hv decided =
    absurd (subst IsDecided (sym hv) decided)
respond-Reached task os w d (gathered is) v hw room hc hv decided =
    let pre = collect_sound task os is hc in
    let base = saturating_add_u64 w task.blocking in
    record {
      wcet = w;
      interferers = is;
      declared = hw;
      preempters = pre;
      sound = subst (IsSound base is d) hv (
          solve-IsSound is base d (Preempters-Positive pre) (omega arith) max_iterations base room
            (λ t h. omega arith));
    }

undecided_wcet :
    (task : TaskTiming) (os : List TaskTiming)
    → task.wcet ≡ none
    → (reason : Reason) × (verdict_for task os ≡ unknown reason)
unfolding verdict_for
undecided_wcet task os hw = (no_wcet, rw hw)

undecided_period :
    (task : TaskTiming) (os : List TaskTiming) (w d : ℕ)
    → task.wcet ≡ some w
    → or_else task.deadline task.period ≡ some d
    → task.period ≡ none
    → (reason : Reason) × (verdict_for task os ≡ unknown reason)
unfolding verdict_for
undecided_period task os w d hw hd hp = (no_period, ground arith)

-- With all three numbers declared, the verdict is that of the recurrence.
pub verdict_for-respond :
    (task : TaskTiming) (os : List TaskTiming) (w d p : ℕ)
    → task.wcet ≡ some w
    → or_else task.deadline task.period ≡ some d
    → task.period ≡ some p
    → verdict_for task os ≡ respond task w d (collect task os)
unfolding verdict_for
verdict_for-respond task os w d p hw hd hp = ground arith

not_decided : (v : Verdict) → (reason : Reason) × (v ≡ unknown reason) → IsDecided v → ⊥
not_decided v (reason, e) decided = subst IsDecided e decided

pub verdict_for-Reached :
    (task : TaskTiming) (os : List TaskTiming) (d : ℕ) (v : Verdict)
    → or_else task.deadline task.period ≡ some d
    → d < u64_max
    → verdict_for task os ≡ v
    → IsDecided v
    → Reached task os d v
verdict_for-Reached task os d v hd room hv decided = go task.wcet task.period refl refl
  where
    unknown_as_v :
        (reason : Reason) × (verdict_for task os ≡ unknown reason)
        → (reason : Reason) × (v ≡ unknown reason)
    unknown_as_v (reason, e) = (reason, sym hv ∙ e)

    go : (w p : Option ℕ) → task.wcet ≡ w → task.period ≡ p → Reached task os d v
    go none p hw hp = absurd (not_decided v (unknown_as_v (undecided_wcet task os hw)) decided)
    go (some w) none hw hp =
        absurd (not_decided v (unknown_as_v (undecided_period task os w d hw hd hp)) decided)
    go (some w) (some p) hw hp =
        respond-Reached task os w d (collect task os) v hw room refl
          (sym (verdict_for-respond task os w d p hw hd hp) ∙ hv) decided
