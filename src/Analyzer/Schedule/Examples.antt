-- ===== src/Analyzer/Schedule/Examples.antt =====
-- Tests and instances of the theorems on the simulated processor, on small task sets.
use malleus_rtos.Base.{ℕ, ◌+◌, ◌≤◌, ◌<◌, ◌≡◌, ◌↔◌, arith, refl, List, [], ◌∷◌, none, some, div_ceil}
use malleus_rtos.Base.Text.{Text, codes, text_eq}
use malleus_rtos.Analyzer.ResponseTime.{TaskTiming, Interferer, pass, fail, verdict_for, or_else}
use malleus_rtos.Analyzer.ResponseTime.Preemption.{Preempters, nobody, harmless, preempting}
use malleus_rtos.Analyzer.Schedule.{run}
use malleus_rtos.Analyzer.Schedule.Verdict.{verdict_for-pass_simulated, verdict_for-simulated_iff}
use malleus_rtos.Base.{inl, inr, ◌%◌, ◌==◌, ==_iff}
use malleus_rtos.Analyzer.Schedule.Sporadic.{Stream, IsSporadic, after}
use malleus_rtos.Analyzer.Schedule.Sporadic.Response.{verdict_for-pass_sporadic}

abbrev task : Text → ℕ → ℕ → ℕ → TaskTiming
task n p t c = record {
  name = n;
  priority = p;
  period = some t;
  deadline = none;
  wcet = some c;
  blocking = 0;
}

abbrev sampler : TaskTiming
sampler = task (codes "sampler") 7 5 2

abbrev logger : TaskTiming
logger = task (codes "logger") 3 12 4

abbrev hog : TaskTiming
hog = task (codes "hog") 3 9 6

abbrev tasks : List TaskTiming
tasks = sampler ∷ logger ∷ hog ∷ []

logger_passes : verdict_for logger tasks ≡ pass 8 4
unfolding verdict_for text_eq div_ceil
logger_passes = refl

hog_fails : verdict_for hog tasks ≡ fail 10 1
unfolding verdict_for text_eq div_ceil
hog_fails = refl

-- The simulation at the tick before the response, and at it.
logger_simulated :
    ((run 7 (record { period = 5; wcet = 2 } ∷ []) 4).own ≡ 1)
    × ((run 8 (record { period = 5; wcet = 2 } ∷ []) 4).own ≡ 0)
unfolding run
logger_simulated = (refl, refl)

verdict_for-pass_simulated_example :
    (wcet : ℕ) × (is : List Interferer) × (logger.wcet ≡ some wcet)
    × Preempters logger tasks is
    × ((t : ℕ) → ((run t is (wcet + 0)).own ≡ 0) ↔ (8 ≤ t))
    × (8 ≤ 12)
verdict_for-pass_simulated_example =
    verdict_for-pass_simulated logger tasks 12 8 4 (unfold or_else in refl) (omega arith)
      logger_passes

abbrev sampler_interferer : Interferer
sampler_interferer = record { period = 5; wcet = 2 }

logger-Preempters : Preempters logger tasks (sampler_interferer ∷ [])
logger-Preempters =
    preempting sampler sampler_interferer (cc) (omega arith) refl (omega arith) refl
      (harmless logger (inl refl) (harmless hog (inr (omega arith)) nobody))

verdict_for-simulated_iff_example :
    ((r : ℕ) × (s : ℕ) × (verdict_for logger tasks ≡ pass r s))
    ↔ ((run 12 (sampler_interferer ∷ []) (4 + 0)).own ≡ 0)
verdict_for-simulated_iff_example =
    verdict_for-simulated_iff logger tasks (sampler_interferer ∷ []) 4 12 12 refl
      (unfold or_else in refl) refl logger-Preempters (omega arith) (omega arith)

-- Jobs of the sampler at ticks 3, 8, 13 and so on.
abbrev shifted : Stream
shifted = record { task = sampler_interferer; arrives = λ t. t % 5 == 3 }

shifted-IsSporadic : IsSporadic shifted
shifted-IsSporadic t u ht hu h = spread t u ((==_iff (t % 5) 3).0 ht) ((==_iff (u % 5) 3).0 hu) h
  where
    spread : (t u : ℕ) → t % 5 ≡ 3 → u % 5 ≡ 3 → t < u → t + 5 ≤ u
    spread t u ht hu h = omega arith

verdict_for-pass_sporadic_example :
    (8 ≤ 12) × ((at k : ℕ) → 8 ≤ k → (after k at (shifted ∷ []) (4 + 0)).own ≡ 0)
verdict_for-pass_sporadic_example =
    verdict_for-pass_sporadic logger tasks (shifted ∷ []) 4 12 8 4 (unfold or_else in refl)
      (omega arith) refl logger-Preempters (shifted-IsSporadic, tt) logger_passes
