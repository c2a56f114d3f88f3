-- ===== src/Analyzer/ResponseTime/Utilisation.antt =====
-- `analyse` over a whole task set: its verdicts, its utilisation, and what "schedulable" means.
use malleus_rtos.Base.{
  ℕ, zero, suc, ◌+◌, ◌*◌, ◌/◌, ◌≤◌, ◌≡◌, ◌≢◌, ◌↔◌, min, arith, refl, sym, ◌∙◌, ap,
}
use malleus_rtos.Base.{List, [], ◌∷◌, ◌++◌, map, Option, none, some, All, all, u64_max, true}
use mathlib.Core.List.{append_assoc, append-nil}
use malleus_rtos.Base.Text.{Text}
use malleus_rtos.Analyzer.ResponseTime.{
  TaskTiming, Verdict, pass, fail, unknown, Analysis, analyse, analyse_tasks, add_utilisation,
  verdict_for, is_pass, is_schedulable,
}

-- The verdicts come in the order of the tasks, each under its task's name.
abbrev named_verdicts : List TaskTiming → List TaskTiming → List (Text × Verdict)
named_verdicts tasks = map (λ t. (t.name, verdict_for t tasks))

analyse_tasks-verdicts :
    (tasks ts : List TaskTiming) (done : Analysis)
    → (analyse_tasks tasks ts done).verdicts ≡ done.verdicts ++ named_verdicts tasks ts
unfolding analyse_tasks
analyse_tasks-verdicts tasks [] done = sym (append-nil done.verdicts)
analyse_tasks-verdicts tasks (t ∷ ts) done =
    analyse_tasks-verdicts tasks ts _ ∙ append_assoc done.verdicts _ _

pub analyse-verdicts :
    (tasks : List TaskTiming) → (analyse tasks).verdicts ≡ named_verdicts tasks tasks
unfolding analyse
analyse-verdicts tasks = analyse_tasks-verdicts tasks tasks _

-- A task that demands the processor without bound: a zero period and an execution time.
pub record IsUnbounded (t : TaskTiming) : Type 0 where
  pub wcet : ℕ
  pub zero_period : t.period ≡ some 0
  pub declared : t.wcet ≡ some wcet

-- The share of the processor that a task takes, in parts per million; nothing where its period or
-- its execution time is not declared.
abbrev pub share : Option ℕ → Option ℕ → ℕ
share (some p) (some w) = min (w * 1_000_000) u64_max / p
share (some p) none = 0
share none w = 0

abbrev pub total_share : List TaskTiming → ℕ
total_share [] = 0
total_share (t ∷ ts) = share t.period t.wcet + total_share ts

add_utilisation_bounded :
    (p w : Option ℕ) (ppm : ℕ) → ppm ≤ u64_max → add_utilisation p w ppm ≤ u64_max
unfolding add_utilisation
add_utilisation_bounded (some zero) (some w) ppm h = omega arith
add_utilisation_bounded (some (suc p)) (some w) ppm h = omega arith
add_utilisation_bounded (some zero) none ppm h = h
add_utilisation_bounded (some (suc p)) none ppm h = h
add_utilisation_bounded none w ppm h = h

-- Once saturated, the utilisation stays so.
add_utilisation_full : (p w : Option ℕ) → add_utilisation p w u64_max ≡ u64_max
unfolding add_utilisation
add_utilisation_full (some zero) (some w) = refl
add_utilisation_full (some (suc p)) (some w) = omega arith
add_utilisation_full (some zero) none = refl
add_utilisation_full (some (suc p)) none = refl
add_utilisation_full none w = refl

-- The utilisation alone, accumulated over the tasks.
accumulate : List TaskTiming → ℕ → ℕ
accumulate [] ppm = ppm
accumulate (t ∷ ts) ppm = accumulate ts (add_utilisation t.period t.wcet ppm)

analyse_tasks-utilisation :
    (tasks ts : List TaskTiming) (done : Analysis)
    → (analyse_tasks tasks ts done).utilisation_ppm ≡ accumulate ts done.utilisation_ppm
unfolding analyse_tasks accumulate
analyse_tasks-utilisation tasks [] done = refl
analyse_tasks-utilisation tasks (t ∷ ts) done = analyse_tasks-utilisation tasks ts _

accumulate_full : (ts : List TaskTiming) → accumulate ts u64_max ≡ u64_max
unfolding accumulate
accumulate_full [] = refl
accumulate_full (t ∷ ts) =
    ap (accumulate ts) (add_utilisation_full t.period t.wcet) ∙ accumulate_full ts

accumulate_unbounded :
    (before after : List TaskTiming) (t : TaskTiming) (ppm : ℕ)
    → IsUnbounded t
    → accumulate (before ++ t ∷ after) ppm ≡ u64_max
unfolding accumulate
accumulate_unbounded [] after t ppm h =
    let full : add_utilisation t.period t.wcet ppm ≡ u64_max =
      unfold add_utilisation in rw (h.zero_period, h.declared) refl in
    ap (accumulate after) full ∙ accumulate_full after
accumulate_unbounded (o ∷ before) after t ppm h = accumulate_unbounded before after t _ h

-- A zero period is never dropped from the sum: wherever in the set a task with a zero period and a
-- declared execution time stands, the reported utilisation is the largest `u64`.
pub utilisation_unbounded :
    (before after : List TaskTiming) (t : TaskTiming)
    → IsUnbounded t
    → (analyse (before ++ t ∷ after)).utilisation_ppm ≡ u64_max
unfolding analyse
utilisation_unbounded before after t h =
    analyse_tasks-utilisation _ (before ++ t ∷ after) _ ∙ accumulate_unbounded before after t 0 h

-- Every declared period is positive.
abbrev pub Bounded : List TaskTiming → Type 0
Bounded = All (λ t. t.period ≢ some 0)

add_utilisation-share :
    (p w : Option ℕ) (ppm : ℕ)
    → p ≢ some 0
    → add_utilisation p w (min ppm u64_max) ≡ min (ppm + share p w) u64_max
unfolding add_utilisation
add_utilisation-share (some zero) w ppm h = absurd (h refl)
add_utilisation-share (some (suc p)) (some w) ppm h = omega arith
add_utilisation-share (some (suc p)) none ppm h = omega arith
add_utilisation-share none w ppm h = omega arith

accumulate-total :
    (ts : List TaskTiming) (ppm : ℕ)
    → Bounded ts
    → accumulate ts (min ppm u64_max) ≡ min (ppm + total_share ts) u64_max
unfolding accumulate
accumulate-total [] ppm h = omega arith
accumulate-total (t ∷ ts) ppm (h, hs) =
    ap (accumulate ts) (add_utilisation-share t.period t.wcet ppm h)
    ∙ accumulate-total ts (ppm + share t.period t.wcet) hs
    ∙ omega arith

-- Where no declared period is zero, the utilisation is the sum of the tasks' shares, cut at the
-- largest `u64`.
pub utilisation-total_share :
    (ts : List TaskTiming)
    → Bounded ts
    → (analyse ts).utilisation_ppm ≡ min (total_share ts) u64_max
unfolding analyse
utilisation-total_share ts h =
    analyse_tasks-utilisation ts ts _ ∙ accumulate-total ts 0 h ∙ omega arith

-- Every verdict of the list is a pass.
abbrev IsPass : Verdict → Type 0
IsPass v = (response : ℕ) × (slack : ℕ) × (v ≡ pass response slack)

is_pass_sound : (v : Verdict) → is_pass v ≡ true → IsPass v
unfolding is_pass
is_pass_sound (pass r s) h = (r, s, refl)
is_pass_sound (fail r o) h = cc
is_pass_sound (unknown reason) h = cc

all-IsPass_sound :
    (tasks ts : List TaskTiming)
    → all (λ v. is_pass v.1) (named_verdicts tasks ts) ≡ true
    → All (λ t. IsPass (verdict_for t tasks)) ts
all-IsPass_sound tasks [] h = tt
all-IsPass_sound tasks (t ∷ ts) h =
    (is_pass_sound (verdict_for t tasks) (ground arith), all-IsPass_sound tasks ts (ground arith))

all_pass_complete :
    (tasks ts : List TaskTiming)
    → All (λ t. IsPass (verdict_for t tasks)) ts
    → all (λ v. is_pass v.1) (named_verdicts tasks ts) ≡ true
unfolding is_pass
all_pass_complete tasks [] h = refl
all_pass_complete tasks (t ∷ ts) ((r, s, e), hs) = rw e (all_pass_complete tasks ts hs)

-- A set is reported schedulable exactly when the verdict of each of its tasks is a pass: an
-- unknown verdict never counts as one.
pub is_schedulable_iff :
    (ts : List TaskTiming)
    → (is_schedulable (analyse ts) ≡ true)
      ↔ All (λ t. (r : ℕ) × (s : ℕ) × (verdict_for t ts ≡ pass r s)) ts
unfolding is_schedulable
is_schedulable_iff ts = (
  (λ h. all-IsPass_sound ts ts (sym (ap (all (λ v. is_pass v.1)) (analyse-verdicts ts)) ∙ h)),
  (λ h. ap (all (λ v. is_pass v.1)) (analyse-verdicts ts) ∙ all_pass_complete ts ts h),
)
