-- ===== src/Manifest/Checks/Timing.antt =====
-- crates/malleus-manifest/src/validate.rs, `check_timing`, `parse_duration` and `parse_tick_hz`.
pub mod Fields
pub mod Exact
use malleus_rtos.Base.{
  ℕ, zero, suc, Bool, true, false, ◌&&◌, not, List, [], ◌∷◌, ◌++◌, Option, none, some, ltb, ◌==◌,
  if◌then◌else◌,
}
use malleus_rtos.Base.{checked_mul_u64}
use malleus_rtos.Base.Text.{Text, codes, text_eq}
use malleus_rtos.Base.Results.{Result, ok, err}
use malleus_rtos.Base.Decimal.{parse_decimal}
use malleus_rtos.Base.Trim.{trim, digits_front, digits_rest}
use malleus_rtos.Manifest.Units.{
  Duration, ParseUnitError, parse_duration, display_duration, display_error, is_tick_aligned,
}
use malleus_rtos.Manifest.Schema.{Task, System, Manifest}
use malleus_rtos.Manifest.Diagnostics.{Severity, warning, error, Code, Diagnostic, when}

-- The factor of a frequency's suffix; `none` for an unknown suffix or an overflow.
unfoldable pub scale_hz : ℕ → Text → Option ℕ
scale_hz value unit =
    if text_eq unit (codes "Hz")
    then some value
    else if text_eq unit (codes "kHz")
    then checked_mul_u64 value 1_000
    else if text_eq unit (codes "MHz")
    then checked_mul_u64 value 1_000_000
    else none

unfoldable pub tick_parts : Text → Text → Option ℕ
tick_parts ds [] = none
tick_parts ds (c ∷ u) = elim (parse_decimal ds) [
  | none ↦ none
  | some value ↦ scale_hz value (trim (c ∷ u))
]

unfoldable pub parse_tick_hz : Text → Option ℕ
unfolding tick_parts
parse_tick_hz text = tick_parts (digits_front (trim text)) (digits_rest (trim text))

unfoldable pub tick_rate_unusable : System → Diagnostic
tick_rate_unusable s = record {
  severity = error;
  code = Code.m0024;
  location = codes "[system]";
  message =
      codes "tick rate `"
      ++ s.tick_rate
      ++ codes
          "` is not a frequency this tool can interpret, so no timing check could be performed";
  suggestion =
      codes
        "write the rate as a whole number followed by `Hz`, `kHz`, or `MHz`, for example `1MHz`";
}

unfoldable pub tick_rate_zero : Diagnostic
tick_rate_zero = record {
  severity = error;
  code = Code.m0025;
  location = codes "[system]";
  message = codes "tick rate is zero; a clock that never advances cannot schedule anything";
  suggestion = codes "declare the board's real monotonic timer frequency, for example `1MHz`";
}

unfoldable pub check_tick_rate : System → Option ℕ → List Diagnostic
check_tick_rate s none = tick_rate_unusable s ∷ []
check_tick_rate s (some zero) = tick_rate_zero ∷ []
check_tick_rate s (some (suc hz)) = []

-- A field of a task that was read, with what reading it pushed.
pub record Parsed : Type 0 where
  pub value : Option Duration
  pub found : List Diagnostic

unfoldable pub invalid_duration : Task → Text → ParseUnitError → Diagnostic
invalid_duration t field e = record {
  severity = error;
  code = Code.m0023;
  location = t.name;
  message = codes "`" ++ field ++ codes "` is invalid: " ++ display_error e;
  suggestion = codes "write a duration with an explicit unit, e.g. `1ms`, `500us`, `250ns`";
}

unfoldable pub parsed_field : Task → Text → Result ParseUnitError Duration → Parsed
parsed_field t field (ok d) = record { value = some d; found = [] }
parsed_field t field (err e) = record { value = none; found = invalid_duration t field e ∷ [] }

-- `parse_duration` of the validator.
unfoldable pub parse_field : Option Text → Task → Text → Parsed
unfolding parsed_field
parse_field none t field = record { value = none; found = [] }
parse_field (some text) t field = parsed_field t field (parse_duration text)

unfoldable pub period_zero : Task → Diagnostic
period_zero t = record {
  severity = error;
  code = Code.m0026;
  location = t.name;
  message =
      codes
        "period is zero, so the task is due again the instant it starts and demands unbounded CPU";
  suggestion =
      codes
        "declare the real activation interval, or remove `period` entirely if the task is aperiodic";
}

-- A zero period is reported and then discarded.
unfoldable pub reject_zero : Task → Parsed → Parsed
reject_zero t p = elim p.value [
  | none ↦ p
  | some d ↦
      if d.nanos == 0 then record { value = none; found = p.found ++ period_zero t ∷ [] } else p
]

unfoldable pub deadline_too_long : Task → Duration → Duration → Diagnostic
deadline_too_long t period deadline = record {
  severity = error;
  code = Code.m0006;
  location = t.name;
  message =
      codes "deadline "
      ++ display_duration deadline
      ++ codes " is longer than period "
      ++ display_duration period
      ++ codes "; the task would still be running when its next activation is due";
  suggestion = codes "shorten the deadline to at most the period, or lengthen the period";
}

unfoldable pub check_deadline : Task → Option Duration → Option Duration → List Diagnostic
check_deadline t none deadline = []
check_deadline t (some period) none = []
check_deadline t (some period) (some deadline) =
    when (ltb period.nanos deadline.nanos) (deadline_too_long t period deadline)

unfoldable pub wcet_too_long : Task → Duration → Duration → Diagnostic
wcet_too_long t wcet deadline = record {
  severity = error;
  code = Code.m0007;
  location = t.name;
  message =
      codes "declared worst-case execution time "
      ++ display_duration wcet
      ++ codes " exceeds deadline "
      ++ display_duration deadline
      ++ codes "; this task cannot meet its deadline even alone on the CPU";
  suggestion =
      codes "reduce the work per activation, split it across activations, or relax the deadline";
}

unfoldable pub check_wcet : Task → Option Duration → Option Duration → List Diagnostic
check_wcet t none deadline = []
check_wcet t (some wcet) none = []
check_wcet t (some wcet) (some deadline) =
    when (ltb deadline.nanos wcet.nanos) (wcet_too_long t wcet deadline)

unfoldable pub wcet_missing : Task → Diagnostic
wcet_missing t = record {
  severity = warning;
  code = Code.m0008;
  location = t.name;
  message =
      codes
        "task declares a deadline but no worst-case execution time, so schedulability cannot be computed";
  suggestion =
      codes
        "measure the task's worst case with `cargo malleus trace` and declare it as `wcet`; until then this task's verdict is UNKNOWN, not PASS";
}

-- `is_some` and `is_none` of the declared fields.
unfoldable pub deadline_without_wcet : Option Text → Option Text → Bool
deadline_without_wcet (some deadline) none = true
deadline_without_wcet (some deadline) (some wcet) = false
deadline_without_wcet none wcet = false

unfoldable pub period_misaligned : System → Task → Duration → Diagnostic
period_misaligned s t period = record {
  severity = warning;
  code = Code.m0009;
  location = t.name;
  message =
      codes "period "
      ++ display_duration period
      ++ codes " is not an exact multiple of the "
      ++ s.tick_rate
      ++ codes " tick";
  suggestion =
      codes
        "round the period to a tick multiple, or raise `tick_rate`; a fractional period produces systematic jitter that looks like a hardware fault";
}

unfoldable pub check_alignment : System → Task → Option Duration → Option ℕ → List Diagnostic
check_alignment s t none hz = []
check_alignment s t (some period) none = []
check_alignment s t (some period) (some hz) =
    when (ltb 0 hz && not (is_tick_aligned period hz)) (period_misaligned s t period)

-- One round of the loop over the tasks.
unfoldable pub check_task_timing : System → Option ℕ → Task → List Diagnostic
check_task_timing s tick_hz t =
    let period = reject_zero t (parse_field t.period t (codes "period")) in
    let deadline = parse_field t.deadline t (codes "deadline") in
    let wcet = parse_field t.wcet t (codes "wcet") in
    period.found
    ++ (deadline.found
        ++ (wcet.found
            ++ (check_deadline t period.value deadline.value
                ++ (check_wcet t wcet.value deadline.value
                    ++ (when (deadline_without_wcet t.deadline t.wcet) (wcet_missing t)
                        ++ check_alignment s t period.value tick_hz)))))

unfoldable pub check_tasks_timing : System → Option ℕ → List Task → List Diagnostic
check_tasks_timing s tick_hz [] = []
check_tasks_timing s tick_hz (t ∷ ts) =
    check_task_timing s tick_hz t ++ check_tasks_timing s tick_hz ts

unfoldable pub check_timing : Manifest → List Diagnostic
check_timing m =
    let tick_hz = parse_tick_hz m.system.tick_rate in
    check_tick_rate m.system tick_hz ++ check_tasks_timing m.system tick_hz m.tasks
