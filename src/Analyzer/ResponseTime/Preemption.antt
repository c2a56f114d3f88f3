-- ===== src/Analyzer/ResponseTime/Preemption.antt =====
-- The tasks that the loop over the others gathers: all that can preempt, and no other.
use mathlib.Core.Path.{subst}
use malleus_rtos.Base.{ℕ, zero, suc, ◌≤◌, ◌<◌, ◌≡◌, ◌≢◌, ◌⊎◌, inl, inr, arith, refl, sym, ap}
use malleus_rtos.Base.{List, [], ◌∷◌, Option, none, some, true, false, Bool-cases}
use malleus_rtos.Base.Text.{text_eq, text_eq-eq, text_eq_refl}
use malleus_rtos.Analyzer.ResponseTime.{
  TaskTiming, Interferer, Collected, gathered, undecidable, add_interferer, collect, is_skipped,
}
use malleus_rtos.Analyzer.ResponseTime.Recurrence.{Positive}

-- The tasks of a list that can preempt `task`, in order, each with its declared period and
-- worst-case execution time.
pub data Preempters (task : TaskTiming) : List TaskTiming → List Interferer → Type 0 where
  nobody : Preempters task [] []
  harmless :
      (o : TaskTiming) {os : List TaskTiming} {is : List Interferer}
      → (o.name ≡ task.name) ⊎ (o.priority ≤ task.priority)
      → Preempters task os is
      → Preempters task (o ∷ os) is
  preempting :
      (o : TaskTiming) (i : Interferer) {os : List TaskTiming} {is : List Interferer}
      → o.name ≢ task.name
      → task.priority < o.priority
      → o.period ≡ some i.period
      → 0 < i.period
      → o.wcet ≡ some i.wcet
      → Preempters task os is
      → Preempters task (o ∷ os) (i ∷ is)

pub Preempters-Positive :
    {task : TaskTiming} {os : List TaskTiming} {is : List Interferer}
    → Preempters task os is
    → Positive is
Preempters-Positive nobody = tt
Preempters-Positive (harmless o h rest) = Preempters-Positive rest
Preempters-Positive (preempting o i name above period pos wcet rest) =
    (pos, Preempters-Positive rest)

skipped_harmless :
    (task o : TaskTiming)
    → is_skipped task o ≡ true
    → (o.name ≡ task.name) ⊎ (o.priority ≤ task.priority)
unfolding is_skipped
skipped_harmless task o h = elim (Bool-cases (text_eq o.name task.name)) [
  | inl e ↦ inl (text_eq-eq o.name task.name e)
  | inr e ↦ inr (ground arith)
]

kept_preempts :
    (task o : TaskTiming)
    → is_skipped task o ≡ false
    → (o.name ≢ task.name) × (task.priority < o.priority)
unfolding is_skipped
kept_preempts task o h = elim (Bool-cases (text_eq o.name task.name)) [
  | inl e ↦ ground arith
  | inr e ↦ (λ p. cc (e, ap (text_eq o.name) p, text_eq_refl o.name), ground arith)
]

-- What one step of the loop that gathers must have seen.
record Seen (p w : Option ℕ) (rest : Collected) (is : List Interferer) : Type 0 where
  first : Interferer
  others : List Interferer
  period : p ≡ some first.period
  positive : 0 < first.period
  wcet : w ≡ some first.wcet
  before : rest ≡ gathered others
  all : is ≡ first ∷ others

add_interferer-Seen :
    (p w : Option ℕ) (rest : Collected) (is : List Interferer)
    → add_interferer p w rest ≡ gathered is
    → Seen p w rest is
unfolding add_interferer
add_interferer-Seen none w rest is h = cc
add_interferer-Seen (some zero) w rest is h = cc
add_interferer-Seen (some (suc p)) none rest is h = cc
add_interferer-Seen (some (suc p)) (some w) (undecidable r) is h = cc
add_interferer-Seen (some (suc p)) (some w) (gathered others) is h = record {
  first = record { period = suc p; wcet = w };
  others = others;
  period = refl;
  positive = omega arith;
  wcet = refl;
  before = refl;
  all = ground arith;
}

-- What the loop gathers are the tasks that can preempt, all of them declared.
pub collect_sound :
    (task : TaskTiming) (os : List TaskTiming) (is : List Interferer)
    → collect task os ≡ gathered is
    → Preempters task os is
unfolding collect
collect_sound task [] is h = let e : [] ≡ is = cc in subst (Preempters task []) e nobody
collect_sound task (o ∷ os) is h = elim (Bool-cases (is_skipped task o)) [
  | inl e ↦ harmless o (skipped_harmless task o e) (collect_sound task os is (rw e at h))
  | inr e ↦
      let s : Seen o.period o.wcet (collect task os) is =
        add_interferer-Seen o.period o.wcet (collect task os) is (rw e at h) in
      let k = kept_preempts task o e in
      subst (Preempters task (o ∷ os)) (sym s.all) (
        preempting o s.first k.0 k.1 s.period s.positive s.wcet
          (collect_sound task os s.others s.before))
]

pub harmless_skipped :
    (task o : TaskTiming)
    → (o.name ≡ task.name) ⊎ (o.priority ≤ task.priority)
    → is_skipped task o ≡ true
unfolding is_skipped
harmless_skipped task o (inl e) = rw (e, text_eq_refl task.name)
harmless_skipped task o (inr le) = ground arith

preempts_kept :
    (task o : TaskTiming)
    → o.name ≢ task.name
    → task.priority < o.priority
    → is_skipped task o ≡ false
preempts_kept task o name above = elim (Bool-cases (is_skipped task o)) [
  | inl e ↦ ground (arith, skipped_harmless task o e)
  | inr e ↦ e
]

add_interferer_declared :
    (i : Interferer) (rest : Collected) (is : List Interferer)
    → 0 < i.period
    → rest ≡ gathered is
    → add_interferer (some i.period) (some i.wcet) rest ≡ gathered (i ∷ is)
unfolding add_interferer
add_interferer_declared i rest is pos e = rw e (ground arith)

-- The other way: where every task that can preempt is declared, the loop gathers them all.
pub collect_complete :
    (task : TaskTiming) (os : List TaskTiming) (is : List Interferer)
    → Preempters task os is
    → collect task os ≡ gathered is
unfolding collect
collect_complete task os is nobody = refl
collect_complete task os is (harmless o h rest) =
    rw (harmless_skipped task o h) (collect_complete task _ _ rest)
collect_complete task os is (preempting o i name above period pos wcet rest) =
    rw (preempts_kept task o name above, period, wcet)
      (add_interferer_declared i _ _ pos (collect_complete task _ _ rest))
