-- ===== src/CargoMalleus/Examples.antt =====
-- Tests and instances of the theorems on the commands, on the system of the validator's tests.
use malleus_rtos.Base.{◌^◌, ◌≤◌, ◌≡◌, ◌↔◌, refl, sym, ap, arith, [], ◌∷◌, All, some}
use malleus_rtos.Base.Text.{Text, codes, text_eq}
use malleus_rtos.Base.Results.{Result, ok, err, ok_inj}
use malleus_rtos.Base.Decimal.{parse_decimal}
use malleus_rtos.Base.Trim.{is_whitespace, trim_start, trim_end, trim, digits_front, digits_rest}
use malleus_rtos.Manifest.Units.{
  parse_size, split_value_unit, split_digits, size_multiplier, ByteSize,
}
use malleus_rtos.Manifest.Schema.{Manifest}
use malleus_rtos.Manifest.Checks.Timing.{parse_tick_hz}
use malleus_rtos.Manifest.Checks.Stacks.Exact.{Roundable}
use malleus_rtos.Manifest.Validate.Examples.{plant, in_order, plant-WellFormed}
use malleus_rtos.Base.{List, none}
use malleus_rtos.Manifest.Validate.Examples.{timed_plant, timed_plant_report}
use malleus_rtos.Manifest.Validate.Exact.{WellFormed, validate-Clean}
use malleus_rtos.Manifest.Diagnostics.{error_count}
use malleus_rtos.Base.{div_ceil}
use malleus_rtos.CargoMalleus.Analyze.Deadlines.{HasRoom}
use malleus_rtos.Manifest.Units.{parse_duration, duration_multiplier, to_ticks}
use malleus_rtos.Manifest.Checks.Timing.{tick_parts, scale_hz}
use malleus_rtos.Analyzer.ResponseTime.{TaskTiming, pass, or_else, verdict_for}
use malleus_rtos.CargoMalleus.Analyze.{timings_of, timing_of, ticks_of, duration_ticks}
use malleus_rtos.CargoMalleus.Analyze.Dispatched.{Unshared, NeverMisses, analyze_source-NeverMisses}
use malleus_rtos.Dispatch.{Activity, Conforms}
use malleus_rtos.Dispatch.Periodic.{periodic, periodic-Conforms}
use malleus_rtos.CargoMalleus.Outcome.{ExitCode, success, returned, panicked}
use malleus_rtos.CargoMalleus.Analyze.{multiply, scale_tick, tick_hz_of, analyze_source}
use malleus_rtos.CargoMalleus.Analyze.Agreement.{analyze_source-total}
use malleus_rtos.CargoMalleus.Analyze.Verdict.{Schedulable, analyze_source-success}

-- A reader that knows one text.
abbrev reader : Text → Result Text Manifest
reader [] = err (codes "empty document")
reader (c ∷ s) = ok plant

abbrev document : Text
document = codes "[system]"

-- A rate that the product of the tool cannot hold.
huge_rate : tick_hz_of {E = Text} (codes "18446744073709551615kHz") ≡ panicked
unfolding tick_hz_of trim trim_start trim_end is_whitespace digits_front digits_rest parse_decimal
    scale_tick multiply text_eq
huge_rate = refl

plant_sizes : All (λ t. Roundable (parse_size t.stack)) plant.tasks
unfolding parse_size split_value_unit split_digits trim trim_start trim_end is_whitespace
    digits_front digits_rest parse_decimal size_multiplier text_eq
plant_sizes = ((λ b h. fits b h), ((λ b h. fits b h), tt))
  where
    fits : (b : ByteSize) → parse_size (codes "1KiB") ≡ ok b → b.bytes ≤ 2 ^ 63
    fits b h = rw (sym (ap (λ (x : ByteSize). x.bytes) (ok_inj refl h))) (omega arith)

analyze_source-total_example :
    (code : ExitCode) × (analyze_source in_order reader document ≡ returned code)
analyze_source-total_example =
    analyze_source-total in_order reader document plant refl plant-WellFormed plant_sizes

analyze_source-success_example :
    (analyze_source in_order reader document ≡ returned success)
    ↔ Schedulable in_order (reader document)
analyze_source-success_example = analyze_source-success in_order reader document

-- The system with both execution times declared, and its tasks as the analysis reads them, in
-- microseconds.
abbrev timed_reader : Text → Result Text Manifest
timed_reader s = ok timed_plant

abbrev sensor_timing : TaskTiming
sensor_timing = record {
  name = codes "sensor";
  priority = 10;
  period = some 5000;
  deadline = some 4000;
  wcet = some 1000;
  blocking = 0;
}

abbrev motor_timing : TaskTiming
motor_timing = record {
  name = codes "motor";
  priority = 20;
  period = some 5000;
  deadline = none;
  wcet = some 500;
  blocking = 0;
}

abbrev timings : List TaskTiming
timings = sensor_timing ∷ motor_timing ∷ []

timed_plant_rate : parse_tick_hz timed_plant.system.tick_rate ≡ some 1_000_000
unfolding parse_tick_hz tick_parts scale_hz trim trim_start trim_end is_whitespace digits_front
    digits_rest parse_decimal text_eq
timed_plant_rate = refl

timed_plant_collected : timings_of {E = Text} 1_000_000 timed_plant.tasks ≡ returned timings
unfolding timings_of timing_of ticks_of duration_ticks parse_duration split_value_unit split_digits
    trim trim_start trim_end is_whitespace digits_front digits_rest parse_decimal
    duration_multiplier text_eq to_ticks
timed_plant_collected = refl

sensor_passes : verdict_for sensor_timing timings ≡ pass 1500 2500
unfolding verdict_for text_eq div_ceil
sensor_passes = refl

motor_passes : verdict_for motor_timing timings ≡ pass 500 4500
unfolding verdict_for text_eq div_ceil
motor_passes = refl

timed_plant-WellFormed : WellFormed timed_plant
unfolding error_count
timed_plant-WellFormed = (validate-Clean in_order timed_plant timed_plant_report).0 refl

timed_plant-Schedulable : Schedulable in_order (timed_reader document)
timed_plant-Schedulable = record {
  manifest = timed_plant;
  report = [];
  tick_hz = 1_000_000;
  timings = timings;
  parsed = refl;
  reported = timed_plant_report;
  well_formed = timed_plant-WellFormed;
  ticks = timed_plant_rate;
  collected = timed_plant_collected;
  passes = ((1500, 2500, sensor_passes), ((500, 4500, motor_passes), tt));
}

timed_plant_succeeds : analyze_source in_order timed_reader document ≡ returned success
timed_plant_succeeds =
    (analyze_source-success in_order timed_reader document).1 timed_plant-Schedulable

timings-HasRoom : All HasRoom timings
unfolding or_else
timings-HasRoom = (omega arith, (omega arith, tt))

-- The device that runs the system: jobs of the sensor 700 microseconds after those of the motor.
abbrev device : List Activity
device = periodic sensor_timing 5000 700 1000 ∷ periodic motor_timing 5000 0 500 ∷ []

device-Conforms : All Conforms device
device-Conforms = (
  periodic-Conforms sensor_timing 5000 700 1000 refl refl,
  (periodic-Conforms motor_timing 5000 0 500 refl refl, tt),
)

device-Unshared : Unshared device
device-Unshared = ((omega arith, tt), (tt, tt))

analyze_source-NeverMisses_example : All (NeverMisses device) device
analyze_source-NeverMisses_example =
    analyze_source-NeverMisses in_order timed_reader document timed_plant 1_000_000 device refl
      timed_plant_rate timed_plant_collected timings-HasRoom device-Unshared device-Conforms
      timed_plant_succeeds
