-- ===== src/Dispatch/Examples.antt =====
-- Tests and instances of the theorems on the device, on small task sets.
use malleus_rtos.Base.{
  ℕ, ◌+◌, ◌-◌, ◌≤◌, ◌<◌, ◌≡◌, arith, refl, inl, inr, List, [], ◌∷◌, All, none, some, div_ceil,
}
use malleus_rtos.Base.Text.{Text, codes, text_eq}
use malleus_rtos.Kernel.Sched.ReadySet.{highest, insert, remove, new}
use malleus_rtos.Analyzer.ResponseTime.{TaskTiming, pass, fail, verdict_for, or_else}
use malleus_rtos.Dispatch.{Activity, Conforms, run, at_level, above, pending_at}
use malleus_rtos.Dispatch.Totals.{AllPriorities, released_at}
use malleus_rtos.Dispatch.Ready.{Tracks, run-Tracks}
use malleus_rtos.Dispatch.Progress.{left, due, run-urgent_first}
use malleus_rtos.Dispatch.Streams.{timings}
use malleus_rtos.Dispatch.Placement.{Stands}
use malleus_rtos.Dispatch.Periodic.{periodic, periodic-Conforms, periodic-Synchronous}
use malleus_rtos.Arch.Time.{Instant, from_ticks}
use malleus_rtos.Kernel.Time.{Period, advance}
use malleus_rtos.Dispatch.Synchronous.{Synchronous}
use malleus_rtos.Dispatch.Exact.{verdict_for-fail_dispatched}
use malleus_rtos.Dispatch.Driven.{driven, targets, HasTimeline, driven-Conforms}
use malleus_rtos.Dispatch.Verdict.{verdict_for-pass_dispatched}
use malleus_rtos.Dispatch.Shared.{shared_priority_misses}

abbrev timing : Text → ℕ → ℕ → ℕ → TaskTiming
timing n p t c = record {
  name = n;
  priority = p;
  period = some t;
  deadline = none;
  wcet = some c;
  blocking = 0;
}

abbrev sampler : TaskTiming
sampler = timing (codes "sampler") 7 5 2

abbrev logger : TaskTiming
logger = timing (codes "logger") 3 12 4

-- Jobs of the sampler at ticks 3, 8, 13 and so on, and of the logger at ticks 6, 18 and so on.
abbrev sampling : Activity
sampling = periodic sampler 5 3 2

abbrev logging : Activity
logging = periodic logger 12 6 4

abbrev plant : List Activity
plant = sampling ∷ logging ∷ []

plant-Conforms : All Conforms plant
plant-Conforms =
    (periodic-Conforms sampler 5 3 2 refl refl, (periodic-Conforms logger 12 6 4 refl refl, tt))

plant-AllPriorities : AllPriorities plant
plant-AllPriorities = (omega arith, (omega arith, tt))

logging-Stands : Stands logging plant
logging-Stands = inr ((cc, omega arith), inl (refl, tt))

logger_passes : verdict_for logger (timings plant) ≡ pass 8 4
unfolding verdict_for text_eq div_ceil
logger_passes = refl

-- The logger works at ticks 6 and 7, is preempted at 8 and 9, and ends at 12.
logger_runs :
    (left (at_level 3) 8 plant ≡ 2)
    × (left (at_level 3) 10 plant ≡ 2)
    × (left (at_level 3) 12 plant ≡ 0)
unfolding run pending_at released_at highest insert remove new
logger_runs = (refl, refl, refl)

verdict_for-pass_dispatched_example :
    (8 ≤ 12)
    × ((t k : ℕ) → 0 < logging.work t → 8 ≤ k → k ≤ 12 → left (at_level 3) (t + k) plant ≡ 0)
verdict_for-pass_dispatched_example =
    verdict_for-pass_dispatched logging plant 12 12 8 4 logging-Stands plant-AllPriorities
      plant-Conforms refl (unfold or_else in refl) (omega arith) (omega arith) logger_passes

run-Tracks_example : Tracks (run 9 plant).ready (run 9 plant).threads
run-Tracks_example = run-Tracks 9 plant plant-AllPriorities

run-urgent_first_example :
    (left (above 3) 9 plant ≡ due (above 3) 8 plant - 1)
    × (0 < due (above 3) 8 plant → left (at_level 3) 9 plant ≡ due (at_level 3) 8 plant)
    × (due (above 3) 8 plant ≡ 0 → left (at_level 3) 9 plant ≡ due (at_level 3) 8 plant - 1)
run-urgent_first_example = run-urgent_first 3 8 plant (omega arith) plant-AllPriorities

-- A task that is too slow beside the sampler.
abbrev hog : TaskTiming
hog = timing (codes "hog") 3 9 6

abbrev hogging : Activity
hogging = periodic hog 9 0 6

abbrev crowded : List Activity
crowded = periodic sampler 5 0 2 ∷ hogging ∷ []

hog_fails : verdict_for hog (timings crowded) ≡ fail 10 1
unfolding verdict_for text_eq div_ceil
hog_fails = refl

crowded-AllPriorities : AllPriorities crowded
crowded-AllPriorities = (omega arith, (omega arith, tt))

hogging-Stands : Stands hogging crowded
hogging-Stands = inr ((cc, omega arith), inl (refl, tt))

crowded-Synchronous : All Synchronous crowded
crowded-Synchronous =
    (periodic-Synchronous sampler 5 2 refl refl, (periodic-Synchronous hog 9 6 refl refl, tt))

verdict_for-fail_dispatched_example :
    (9 < 10) × ((t : ℕ) → 0 < t → t ≤ 9 → t < 10 → 0 < left (at_level 3) t crowded)
verdict_for-fail_dispatched_example =
    verdict_for-fail_dispatched hogging crowded 9 9 10 1 hogging-Stands crowded-AllPriorities
      crowded-Synchronous refl (unfold or_else in refl) (omega arith) (omega arith) refl hog_fails

-- The sampler's jobs, released by a schedule of the kernel: on time, then nine ticks late.
abbrev sampling_schedule : Period
sampling_schedule = record { next = from_ticks 5; interval = 5; missed = 0 }

abbrev completions : List Instant
completions = from_ticks 7 ∷ from_ticks 24 ∷ []

sampling_targets : targets sampling_schedule completions ≡ 5 ∷ 10 ∷ 25 ∷ []
unfolding targets advance div_ceil
sampling_targets = refl

sampling-HasTimeline : HasTimeline sampling_schedule completions
sampling-HasTimeline = rw sampling_targets (omega arith)

driven-Conforms_example : Conforms (driven sampler sampling_schedule completions (λ t. 2))
driven-Conforms_example =
    driven-Conforms sampler sampling_schedule completions (λ t. 2) 2 refl refl (λ t. omega arith)
      sampling-HasTimeline

-- Two tasks with a priority in common, of 4 ticks in every 6.
abbrev twin : Text → Activity
twin n = periodic (timing n 5 6 4) 6 0 4

shared_priority_misses_example :
    let acts = twin (codes "left") ∷ twin (codes "right") ∷ [] in
    (verdict_for (twin (codes "left")).task (timings acts) ≡ pass 4 2)
    × (verdict_for (twin (codes "right")).task (timings acts) ≡ pass 4 2)
    × (0 < left (at_level 5) 6 acts)
shared_priority_misses_example =
    shared_priority_misses (twin (codes "left")) (twin (codes "right")) 6 (omega arith) refl
      (omega arith)
      (record {
        period = 6;
        periodic = refl;
        declared = refl;
        due_at = unfold or_else in refl;
        unblocked = refl;
        fits = omega arith;
      })
      (record {
        period = 6;
        periodic = refl;
        declared = refl;
        due_at = unfold or_else in refl;
        unblocked = refl;
        fits = omega arith;
      })
      (omega arith)
