-- ===== src/CargoMalleus/Analyze/Readings.antt =====
-- The timings that the analysis reads from the tasks of a manifest.
use mathlib.Core.Path.{subst}
use malleus_rtos.Base.{ℕ, ◌≡◌, refl, sym, ap, ◌∙◌, List, [], ◌∷◌, Option, none, some}
use malleus_rtos.Base.Text.{Text}
use malleus_rtos.Base.Results.{Result, ok, err}
use malleus_rtos.Manifest.Units.{Duration, ParseUnitError, parse_duration, to_ticks}
use malleus_rtos.Manifest.Schema.{Task}
use malleus_rtos.Manifest.Checks.Timing.Fields.{Declares}
use malleus_rtos.Analyzer.ResponseTime.{TaskTiming}
use malleus_rtos.CargoMalleus.Outcome.{returned, returned_inj, >>=-eq-returned}
use malleus_rtos.CargoMalleus.Analyze.{duration_ticks, ticks_of, timing_of, timings_of}

-- What a timing keeps of its task.
pub record Reading (hz : ℕ) (t : Task) (timing : TaskTiming) : Type 0 where
  pub name : timing.name ≡ t.name
  pub priority : timing.priority ≡ t.priority
  pub period :
      (n : ℕ) → timing.period ≡ some n → (p : Duration) × Declares t.period p × (n ≡ to_ticks p hz)
  pub deadline :
      (n : ℕ)
      → timing.deadline ≡ some n
      → (d : Duration) × Declares t.deadline d × (n ≡ to_ticks d hz)

-- The timings stand for the tasks, one for each and in their order.
abbrev pub Readings : ℕ → List Task → List TaskTiming → Type 0
Readings hz [] [] = Unit
Readings hz [] (x ∷ xs) = ⊥
Readings hz (t ∷ ts) [] = ⊥
Readings hz (t ∷ ts) (x ∷ xs) = Reading hz t x × Readings hz ts xs

module _ {E : Type 0} (hz : ℕ) where
  ticks_of-Declares :
      (o : Option Text) (r : Option ℕ)
      → ticks_of {E = E} o hz ≡ returned r
      → (n : ℕ) → r ≡ some n
      → (d : Duration) × Declares o d × (n ≡ to_ticks d hz)
  unfolding ticks_of duration_ticks
  ticks_of-Declares none r h n e = absurd (cc (h, e))
  ticks_of-Declares (some s) r h n e = read (parse_duration s) refl h
    where
      read :
          (parsed : Result ParseUnitError Duration)
          → parse_duration s ≡ parsed
          → duration_ticks {E = E} hz parsed ≡ returned r
          → (d : Duration) × (parse_duration s ≡ ok d) × (n ≡ to_ticks d hz)
      read (err x) p h' = absurd (cc h')
      read (ok d) p h' = (d, p, cc (h', e))

  timing_of-Reading :
      (t : Task) (x : TaskTiming) → timing_of {E = E} hz t ≡ returned x → Reading hz t x
  unfolding timing_of
  timing_of-Reading t x h =
      let (p, hp, h') = >>=-eq-returned (ticks_of t.period hz) _ h in
      let (d, hd, h'') = >>=-eq-returned (ticks_of t.deadline hz) _ h' in
      let (w, hw, last) = >>=-eq-returned (ticks_of t.wcet hz) _ h'' in
      let same = returned_inj refl last in
      record {
        name = sym (ap (λ (y : TaskTiming). y.name) same);
        priority = sym (ap (λ (y : TaskTiming). y.priority) same);
        period =
            λ n e. ticks_of-Declares t.period p hp n (ap (λ (y : TaskTiming). y.period) same ∙ e);
        deadline = λ n e.
            ticks_of-Declares t.deadline d hd n (ap (λ (y : TaskTiming). y.deadline) same ∙ e);
      }

  pub timings_of-Readings :
      (ts : List Task) (xs : List TaskTiming)
      → timings_of {E = E} hz ts ≡ returned xs
      → Readings hz ts xs
  unfolding timings_of
  timings_of-Readings [] [] h = tt
  timings_of-Readings [] (x ∷ xs) h = absurd (cc h)
  timings_of-Readings (t ∷ ts) xs h =
      let (x, hx, h') = >>=-eq-returned (timing_of hz t) _ h in
      let (ys, hys, last) = >>=-eq-returned (timings_of hz ts) _ h' in
      subst (Readings hz (t ∷ ts)) (returned_inj refl last)
        (timing_of-Reading t x hx, timings_of-Readings ts ys hys)
