-- ===== src/CargoMalleus/Analyze.antt =====
-- tools/cargo-malleus/src/analyze.rs: `cargo malleus analyze` up to its exit code.
pub mod Agreement
pub mod Verdict
pub mod Deadlines
pub mod Readings
pub mod Dispatched
pub mod Display
use malleus_rtos.Base.{
  ℕ, ◌*◌, ltb, leb, if◌then◌else◌, Bool, true, false, List, [], ◌∷◌, Option, none, some, u64_max,
}
use malleus_rtos.Base.Text.{Text, codes, text_eq}
use malleus_rtos.Base.Results.{Result, ok, err}
use malleus_rtos.Base.Decimal.{parse_decimal}
use malleus_rtos.Base.Trim.{trim, digits_front, digits_rest}
use malleus_rtos.Manifest.Units.{Duration, ParseUnitError, parse_duration, to_ticks}
use malleus_rtos.Manifest.Schema.{Task, Manifest}
use malleus_rtos.Manifest.Diagnostics.{Diagnostic, error_count}
use malleus_rtos.Manifest.Checks.Priorities.{Group}
use malleus_rtos.Manifest.Validate.{validate}
use malleus_rtos.Analyzer.ResponseTime.{TaskTiming, Analysis, is_schedulable, has_unknowns, analyse}
use malleus_rtos.CargoMalleus.Outcome.{
  ExitCode, success, failure, Outcome, returned, failed, panicked, ◌>>=◌,
}

-- The errors that the command reports.
pub data AnalyzeError (E : Type 0) : Type 0 where
  syntax_error : E → AnalyzeError E
  manifest_invalid : AnalyzeError E
  tick_rate_no_unit : Text → AnalyzeError E
  tick_rate_number : Text → AnalyzeError E
  tick_rate_unit : Text → AnalyzeError E
  duration_error : ParseUnitError → AnalyzeError E

unfoldable pub verdict_code : Analysis → ExitCode
verdict_code a = if has_unknowns a then failure else if is_schedulable a then success else failure

module _ {E : Type 0} where
  -- `value * factor`, which panics on overflow: every profile checks for it.
  unfoldable pub multiply : ℕ → ℕ → Outcome (AnalyzeError E) ℕ
  multiply value factor =
      if leb (value * factor) u64_max then returned (value * factor) else panicked

  unfoldable pub scale_tick : ℕ → Text → Outcome (AnalyzeError E) ℕ
  unfolding multiply
  scale_tick value unit =
      if text_eq unit (codes "Hz")
      then returned value
      else if text_eq unit (codes "kHz")
      then multiply value 1_000
      else if text_eq unit (codes "MHz")
      then multiply value 1_000_000
      else failed (tick_rate_unit unit)

  unfoldable pub tick_hz_parts : Text → Text → Text → Outcome (AnalyzeError E) ℕ
  tick_hz_parts text ds [] = failed (tick_rate_no_unit text)
  tick_hz_parts text ds (c ∷ u) = elim (parse_decimal ds) [
    | none ↦ failed (tick_rate_number ds)
    | some value ↦ scale_tick value (trim (c ∷ u))
  ]

  -- The tool's own `parse_tick_hz`, apart from the validator's.
  unfoldable pub tick_hz_of : Text → Outcome (AnalyzeError E) ℕ
  unfolding tick_hz_parts
  tick_hz_of text = tick_hz_parts text (digits_front (trim text)) (digits_rest (trim text))

  unfoldable pub duration_ticks :
      ℕ → Result ParseUnitError Duration → Outcome (AnalyzeError E) (Option ℕ)
  duration_ticks tick_hz (err e) = failed (duration_error e)
  duration_ticks tick_hz (ok d) = returned (some (to_ticks d tick_hz))

  -- The tool's own `to_ticks`, of a declared or missing field.
  unfoldable pub ticks_of : Option Text → ℕ → Outcome (AnalyzeError E) (Option ℕ)
  unfolding duration_ticks
  ticks_of none tick_hz = returned none
  ticks_of (some text) tick_hz = duration_ticks tick_hz (parse_duration text)

  unfoldable pub timing_of : ℕ → Task → Outcome (AnalyzeError E) TaskTiming
  unfolding ticks_of
  timing_of tick_hz t = do
    period ← ticks_of t.period tick_hz
    deadline ← ticks_of t.deadline tick_hz
    wcet ← ticks_of t.wcet tick_hz
    returned (record {
      name = t.name;
      priority = t.priority;
      period = period;
      deadline = deadline;
      wcet = wcet;
      blocking = 0;
    })

  -- The loop that collects the timings.
  unfoldable pub timings_of : ℕ → List Task → Outcome (AnalyzeError E) (List TaskTiming)
  unfolding timing_of
  timings_of tick_hz [] = returned []
  timings_of tick_hz (t ∷ ts) = do
    timing ← timing_of tick_hz t
    rest ← timings_of tick_hz ts
    returned (timing ∷ rest)

  -- What follows a clean validation.
  unfoldable pub analyze_valid : Manifest → Outcome (AnalyzeError E) ExitCode
  unfolding timings_of tick_hz_of
  analyze_valid m = do
    tick_hz ← tick_hz_of m.system.tick_rate
    timings ← timings_of tick_hz m.tasks
    returned (verdict_code (analyse timings))

  unfoldable pub analyze_report :
      Manifest → Option (List Diagnostic) → Outcome (AnalyzeError E) ExitCode
  unfolding analyze_valid
  analyze_report m none = panicked
  analyze_report m (some report) =
      if ltb 0 (error_count report) then failed manifest_invalid else analyze_valid m

  -- What follows the TOML reader.
  unfoldable pub analyze_parsed :
      (List Group → List Group) → Result E Manifest → Outcome (AnalyzeError E) ExitCode
  unfolding analyze_report
  analyze_parsed visit (err e) = failed (syntax_error e)
  analyze_parsed visit (ok m) = analyze_report m (validate visit m)

  -- `from_str` is the TOML reader and `visit` the order of a hash map's entries.
  unfoldable pub analyze_source :
      (List Group → List Group)
      → (Text → Result E Manifest)
      → Text
      → Outcome (AnalyzeError E) ExitCode
  unfolding analyze_parsed
  analyze_source visit from_str source = analyze_parsed visit (from_str source)
