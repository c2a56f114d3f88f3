-- ===== src/Analyzer/ResponseTime/Examples.antt =====
-- Tests and instances of the analyser's theorems, on the task sets of the source's tests.
use malleus_rtos.Base.{ℕ, ◌≡◌, ◌≢◌, inl, inr, min, arith, refl}
use malleus_rtos.Base.{List, [], ◌∷◌, some, u64_max, div_ceil}
use malleus_rtos.Base.Text.{Text, codes, text_eq}
use malleus_rtos.Analyzer.ResponseTime.{
  TaskTiming, Interferer, pass, fail, unknown, no_convergence, analyse, verdict_for, or_else,
}
use malleus_rtos.Analyzer.ResponseTime.Preemption.{Preempters, nobody, harmless, preempting}
use malleus_rtos.Analyzer.ResponseTime.Exact.{verdict_for_decides}
use malleus_rtos.Analyzer.ResponseTime.Utilisation.{
  IsUnbounded, Bounded, total_share, utilisation-total_share,
}

abbrev task : Text → ℕ → ℕ → ℕ → ℕ → TaskTiming
task n p t d c = record {
  name = n;
  priority = p;
  period = some t;
  deadline = some d;
  wcet = some c;
  blocking = 0;
}

abbrev safety : TaskTiming
safety = task (codes "safety-monitor") 9 500 200 40

abbrev motor : TaskTiming
motor = task (codes "motor-control") 7 1000 500 180

abbrev sensor : TaskTiming
sensor = task (codes "sensor-acquisition") 6 2000 2000 300

abbrev modbus : TaskTiming
modbus = task (codes "modbus") 4 10000 10000 900

abbrev telemetry : TaskTiming
telemetry = task (codes "telemetry") 2 100000 100000 8000

abbrev controller : List TaskTiming
controller = safety ∷ motor ∷ sensor ∷ modbus ∷ telemetry ∷ []

controller_responses :
    (verdict_for safety controller ≡ pass 40 160)
    × (verdict_for motor controller ≡ pass 220 280)
    × (verdict_for sensor controller ≡ pass 560 1440)
    × (verdict_for modbus controller ≡ pass 1720 8280)
    × (verdict_for telemetry controller ≡ pass 16920 83080)
unfolding verdict_for text_eq div_ceil
controller_responses = (refl, refl, refl, refl, refl)

controller_utilisation : (analyse controller).utilisation_ppm ≡ 580_000
unfolding analyse
controller_utilisation = refl

abbrev overloaded : List TaskTiming
overloaded = task (codes "a") 9 1000 1000 600 ∷ task (codes "b") 5 1000 1000 600 ∷ []

abbrev late_task : TaskTiming
late_task = task (codes "b") 5 1000 1000 600

overloaded_fails : verdict_for late_task overloaded ≡ fail 1200 200
unfolding verdict_for text_eq div_ceil
overloaded_fails = refl

-- Two tasks at one priority, each of which takes most of the other's deadline, both pass.
abbrev first_twin : TaskTiming
first_twin = task (codes "a") 5 1000 1000 600

abbrev second_twin : TaskTiming
second_twin = task (codes "b") 5 1000 1000 600

twins_pass :
    (verdict_for first_twin (first_twin ∷ second_twin ∷ []) ≡ pass 600 400)
    × (verdict_for second_twin (first_twin ∷ second_twin ∷ []) ≡ pass 600 400)
unfolding verdict_for text_eq div_ceil
twins_pass = (refl, refl)

abbrev safety_interferer : Interferer
safety_interferer = record { period = 500; wcet = 40 }

motor-Preempters : Preempters motor controller (safety_interferer ∷ [])
motor-Preempters = preempting safety safety_interferer (cc) (omega arith) refl (omega arith) refl (
    harmless motor (inl refl) (
      harmless sensor (inr (omega arith))
        (harmless modbus (inr (omega arith)) (harmless telemetry (inr (omega arith)) nobody))))

verdict_for_decides_example : verdict_for motor controller ≢ unknown no_convergence
verdict_for_decides_example =
    verdict_for_decides motor controller (safety_interferer ∷ []) 180 500 1000 refl
      (unfold or_else in refl) refl motor-Preempters (omega arith) no_convergence

abbrev greedy : TaskTiming
greedy = task (codes "greedy") 5 0 100 50

greedy-IsUnbounded : IsUnbounded greedy
greedy-IsUnbounded = record { wcet = 50; zero_period = refl; declared = refl }

motor-Bounded : Bounded (motor ∷ [])
motor-Bounded = ((λ e. ground arith), tt)

utilisation-total_share_example :
    (analyse (motor ∷ [])).utilisation_ppm ≡ min (total_share (motor ∷ [])) u64_max
utilisation-total_share_example = utilisation-total_share (motor ∷ []) motor-Bounded
