-- ===== src/CargoMalleus/Analyze/Agreement.antt =====
-- The tool reads a validated manifest without an error and without a panic.
use malleus_rtos.Base.{
  ℕ, ◌≡◌, ◌↔◌, refl, ap, ◌∙◌, arith, List, [], ◌∷◌, All, Option, none, some, Option-cases,
  Bool-cases, inl, inr,
}
use malleus_rtos.Base.{checked_mul_u64}
use malleus_rtos.Base.Text.{Text, codes, text_eq}
use malleus_rtos.Base.Results.{Result, ok}
use malleus_rtos.Base.Decimal.{parse_decimal}
use malleus_rtos.Base.Trim.{trim, digits_front, digits_rest}
use malleus_rtos.Manifest.Units.{parse_size, to_ticks}
use malleus_rtos.Manifest.Schema.{Task, Manifest}
use malleus_rtos.Manifest.Diagnostics.{Clean, Diagnostic}
use malleus_rtos.Manifest.Checks.Priorities.{Group}
use malleus_rtos.Manifest.Checks.Timing.{parse_tick_hz, tick_parts, scale_hz}
use malleus_rtos.Manifest.Checks.Timing.Fields.{Readable}
use malleus_rtos.Manifest.Checks.Timing.Exact.{SoundTiming}
use malleus_rtos.Manifest.Checks.Stacks.Exact.{Roundable}
use malleus_rtos.Manifest.Validate.{validate}
use malleus_rtos.Manifest.Validate.Exact.{WellFormed, validate-Clean, validate-none}
use malleus_rtos.Analyzer.ResponseTime.{TaskTiming, analyse}
use malleus_rtos.CargoMalleus.Outcome.{ExitCode, returned, failed}
use malleus_rtos.CargoMalleus.Analyze.{
  AnalyzeError, multiply, scale_tick, tick_hz_parts, tick_hz_of, duration_ticks, ticks_of,
  timing_of, timings_of, verdict_code, analyze_valid, analyze_report, analyze_parsed,
  analyze_source,
}

module _ {E : Type 0} where
  -- The unchecked product of the tool returns exactly where the validator's checked one has a value.
  multiply_iff : (a b n : ℕ) → (multiply {E = E} a b ≡ returned n) ↔ (checked_mul_u64 a b ≡ some n)
  unfolding multiply
  multiply_iff a b n = ground arith

  scale_tick_iff :
      (v : ℕ) (u : Text) (n : ℕ) → (scale_tick {E = E} v u ≡ returned n) ↔ (scale_hz v u ≡ some n)
  unfolding scale_tick scale_hz
  scale_tick_iff v u n = elim (Bool-cases (text_eq u (codes "Hz"))) [
    | inl e ↦ rw e ((λ h. cc h), (λ h. cc h))
    | inr e ↦ rw e (elim (Bool-cases (text_eq u (codes "kHz"))) [
      | inl e' ↦ rw e' (multiply_iff v 1_000 n)
      | inr e' ↦ rw e' (elim (Bool-cases (text_eq u (codes "MHz"))) [
        | inl e'' ↦ rw e'' (multiply_iff v 1_000_000 n)
        | inr e'' ↦ rw e'' ((λ h. absurd (cc h)), (λ h. absurd (cc h)))
      ])
    ])
  ]

  tick_hz_parts_iff :
      (text ds u : Text) (n : ℕ)
      → (tick_hz_parts {E = E} text ds u ≡ returned n) ↔ (tick_parts ds u ≡ some n)
  unfolding tick_hz_parts tick_parts
  tick_hz_parts_iff text ds [] n = ((λ h. absurd (cc h)), (λ h. absurd (cc h)))
  tick_hz_parts_iff text ds (c ∷ u) n = read (parse_decimal ds)
    where
      read :
          (o : Option ℕ)
          → ((elim o [
            | none ↦ failed (AnalyzeError.tick_rate_number ds)
            | some v ↦ scale_tick {E = E} v (trim (c ∷ u))
          ])
              ≡ returned n)
            ↔ ((elim o [ none ↦ none | some v ↦ scale_hz v (trim (c ∷ u)) ]) ≡ some n)
      read none = ((λ h. absurd (cc h)), (λ h. absurd (cc h)))
      read (some v) = scale_tick_iff v (trim (c ∷ u)) n

  -- The tool and the validator read every tick rate alike: the tool returns a frequency exactly
  -- where the validator has it, so its unchecked product never overflows on a rate that validated.
  pub tick_hz_of_iff :
      (text : Text) (n : ℕ) → (tick_hz_of {E = E} text ≡ returned n) ↔ (parse_tick_hz text ≡ some n)
  unfolding tick_hz_of parse_tick_hz
  tick_hz_of_iff text n =
      tick_hz_parts_iff text (digits_front (trim text)) (digits_rest (trim text)) n

  ticks_of-Readable :
      (o : Option Text) (hz : ℕ)
      → Readable o
      → (v : Option ℕ) × (ticks_of {E = E} o hz ≡ returned v)
  unfolding ticks_of
  ticks_of-Readable none hz h = (none, refl)
  ticks_of-Readable (some s) hz (d, e) = (some (to_ticks d hz), ap (duration_ticks hz) e)

  timing_of-total :
      (hz : ℕ) (t : Task)
      → SoundTiming t
      → (timing : TaskTiming) × (timing_of {E = E} hz t ≡ returned timing)
  unfolding timing_of
  timing_of-total hz t h =
      let (p, ep) = ticks_of-Readable t.period hz h.0.0 in
      let (d, ed) = ticks_of-Readable t.deadline hz h.1.0 in
      let (w, ew) = ticks_of-Readable t.wcet hz h.1.1.0 in
      (
        record {
          name = t.name;
          priority = t.priority;
          period = p;
          deadline = d;
          wcet = w;
          blocking = 0;
        },
        rw ep (rw ed (rw ew refl)),
      )

  timings_of-total :
      (hz : ℕ) (ts : List Task)
      → All SoundTiming ts
      → (timings : List TaskTiming) × (timings_of {E = E} hz ts ≡ returned timings)
  unfolding timings_of
  timings_of-total hz [] h = ([], refl)
  timings_of-total hz (t ∷ ts) (h, hs) =
      let (timing, e) = timing_of-total hz t h in
      let (rest, es) = timings_of-total hz ts hs in (timing ∷ rest, rw e (rw es refl))

  -- On a well-formed manifest the analysis runs to a verdict: no error and no panic is left.
  pub analyze_valid-total :
      (m : Manifest) → WellFormed m → (code : ExitCode) × (analyze_valid {E = E} m ≡ returned code)
  unfolding analyze_valid
  analyze_valid-total m w =
      let (hz, read, _) = w.ticks in
      let (timings, e) = timings_of-total hz m.tasks w.timing in
      (
        verdict_code (analyse timings),
        rw ((tick_hz_of_iff m.system.tick_rate hz).1 read) (rw e refl),
      )

  analyze_report-Clean :
      (m : Manifest) (report : List Diagnostic)
      → Clean report
      → analyze_report {E = E} m (some report) ≡ analyze_valid m
  unfolding analyze_report
  analyze_report-Clean m report h = rw h refl

  -- A text that the TOML reader turns into a well-formed manifest, without a stack above `2 ^ 63`
  -- bytes, is analysed to the end: `cargo malleus analyze` returns an exit code, and neither fails
  -- nor panics.
  pub analyze_source-total :
      (visit : List Group → List Group) (from_str : Text → Result E Manifest) (source : Text)
      (m : Manifest)
      → from_str source ≡ ok m
      → WellFormed m
      → All (λ t. Roundable (parse_size t.stack)) m.tasks
      → (code : ExitCode) × (analyze_source visit from_str source ≡ returned code)
  unfolding analyze_source
  analyze_source-total visit from_str source m parsed w rounds =
      elim (Option-cases (validate visit m)) [
        | inl e ↦ absurd ((validate-none visit m).1 rounds e)
        | inr (report, e) ↦
            let (code, done) = analyze_valid-total m w in
            (
              code,
              ap (analyze_parsed visit) parsed
                  ∙ ap (analyze_report m) e
                  ∙ analyze_report-Clean m report ((validate-Clean visit m e).1 w)
                  ∙ done,
            )
      ]
