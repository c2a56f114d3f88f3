-- ===== src/CargoMalleus/Analyze/Verdict.antt =====
-- What the exit code of the analysis says of the manifest.
use malleus_rtos.Base.{
  ℕ, ◌≡◌, ◌↔◌, refl, sym, ap, ◌∙◌, arith, Bool, true, false, all, any, if◌then◌else◌, List, [], ◌∷◌,
  All, none, some, Option-cases, Bool-cases, inl, inr,
}
use malleus_rtos.Base.Text.{Text}
use malleus_rtos.Base.Results.{Result, ok, err, ok_inj}
use malleus_rtos.Manifest.Schema.{Manifest}
use malleus_rtos.Manifest.Diagnostics.{Diagnostic, Clean}
use malleus_rtos.Manifest.Checks.Priorities.{Group}
use malleus_rtos.Manifest.Checks.Timing.{parse_tick_hz}
use malleus_rtos.Manifest.Validate.{validate}
use malleus_rtos.Manifest.Validate.Exact.{WellFormed, validate-Clean}
use malleus_rtos.Analyzer.ResponseTime.{
  TaskTiming, Verdict, pass, fail, unknown, is_pass, is_unknown, Analysis, is_schedulable,
  has_unknowns, analyse, verdict_for,
}
use malleus_rtos.Analyzer.ResponseTime.Utilisation.{is_schedulable_iff}
use malleus_rtos.CargoMalleus.Outcome.{
  success, failure, returned, panicked, returned_inj, >>=-eq-returned,
}
use malleus_rtos.CargoMalleus.Analyze.{
  tick_hz_of, timings_of, verdict_code, analyze_valid, analyze_report, analyze_parsed,
  analyze_source,
}
use malleus_rtos.CargoMalleus.Analyze.Agreement.{tick_hz_of_iff}

-- The code of success stands for a schedulable set, which has no unknown verdict.
all_pass-any_unknown :
    (vs : List (Text × Verdict))
    → all (λ v. is_pass v.1) vs ≡ true
    → any (λ v. is_unknown v.1) vs ≡ false
unfolding is_pass is_unknown
all_pass-any_unknown [] h = refl
all_pass-any_unknown ((n, pass r s) ∷ vs) h = all_pass-any_unknown vs h
all_pass-any_unknown ((n, fail r s) ∷ vs) h = absurd (cc h)
all_pass-any_unknown ((n, unknown r) ∷ vs) h = absurd (cc h)

verdict_code-success : (a : Analysis) → (verdict_code a ≡ success) ↔ (is_schedulable a ≡ true)
unfolding verdict_code is_schedulable has_unknowns
verdict_code-success a = elim (Bool-cases (all (λ v. is_pass v.1) a.verdicts)) [
  | inl e ↦ rw e (rw (all_pass-any_unknown a.verdicts e) ((λ _. refl), (λ _. refl)))
  | inr e ↦
      rw e ((λ h. absurd (never (any (λ v. is_unknown v.1) a.verdicts) h)), (λ h. absurd (cc h)))
]
  where
    never : (b : Bool) → (if b then failure else failure) ≡ success → ⊥
    never true h = cc h
    never false h = cc h

-- A manifest that the analysis answers for: it is well formed, and in the timings read from it
-- the verdict of every task is a pass.
pub record Schedulable {E : Type 0} (visit : List Group → List Group) (read : Result E Manifest)
    : Type 0 where
  pub manifest : Manifest
  pub report : List Diagnostic
  pub tick_hz : ℕ
  pub timings : List TaskTiming
  pub parsed : read ≡ ok manifest
  pub reported : validate visit manifest ≡ some report
  pub well_formed : WellFormed manifest
  pub ticks : parse_tick_hz manifest.system.tick_rate ≡ some tick_hz
  pub collected : timings_of {E = E} tick_hz manifest.tasks ≡ returned timings
  pub passes : All (λ t. (r : ℕ) × (s : ℕ) × (verdict_for t timings ≡ pass r s)) timings

module _ {E : Type 0} where
  report_success :
      (m : Manifest) (report : List Diagnostic)
      → (analyze_report {E = E} m (some report) ≡ returned success)
        ↔ (Clean report × (analyze_valid {E = E} m ≡ returned success))
  unfolding analyze_report
  report_success m report = ground arith

  report_aborts : (m : Manifest) → analyze_report {E = E} m none ≡ panicked
  unfolding analyze_report
  report_aborts m = refl

  succeed :
      (visit : List Group → List Group) (m : Manifest) (report : List Diagnostic)
      → validate visit m ≡ some report
      → Clean report
      → analyze_valid {E = E} m ≡ returned success
      → Schedulable {E = E} visit (ok m)
  unfolding analyze_valid
  succeed visit m report e clean h =
      let (hz, ticks, h') = >>=-eq-returned (tick_hz_of m.system.tick_rate) _ h in
      let (timings, collected, h'') = >>=-eq-returned (timings_of hz m.tasks) _ h' in
      record {
        manifest = m;
        report = report;
        tick_hz = hz;
        timings = timings;
        parsed = refl;
        reported = e;
        well_formed = (validate-Clean visit m e).0 clean;
        ticks = (tick_hz_of_iff m.system.tick_rate hz).0 ticks;
        collected = collected;
        passes =
            (is_schedulable_iff timings).0
              ((verdict_code-success (analyse timings)).0 (returned_inj refl h''));
      }

  valid_success :
      (m : Manifest) (hz : ℕ) (timings : List TaskTiming)
      → tick_hz_of {E = E} m.system.tick_rate ≡ returned hz
      → timings_of {E = E} hz m.tasks ≡ returned timings
      → analyze_valid {E = E} m ≡ returned (verdict_code (analyse timings))
  unfolding analyze_valid
  valid_success m hz timings e e' = rw e (rw e' refl)

  Schedulable-success :
      (visit : List Group → List Group) (m : Manifest)
      → Schedulable {E = E} visit (ok m)
      → analyze_report {E = E} m (validate visit m) ≡ returned success
  Schedulable-success visit m s =
      let same : s.manifest ≡ m = ok_inj s.parsed refl in
      ap (λ n. analyze_report n (validate visit n)) (sym same)
      ∙ ap (analyze_report s.manifest) s.reported
      ∙ (report_success s.manifest s.report).1 (
        (validate-Clean visit s.manifest s.reported).1 s.well_formed,
        valid_success s.manifest s.tick_hz s.timings
              ((tick_hz_of_iff s.manifest.system.tick_rate s.tick_hz).1 s.ticks) s.collected
            ∙ ap returned (
                (verdict_code-success (analyse s.timings)).1
                  ((is_schedulable_iff s.timings).1 s.passes)),
      )

  parsed_success :
      (visit : List Group → List Group) (r : Result E Manifest)
      → (analyze_parsed visit r ≡ returned success) ↔ Schedulable visit r
  unfolding analyze_parsed
  parsed_success visit (err e) = ((λ h. absurd (cc h)), (λ s. absurd (cc s.parsed)))
  parsed_success visit (ok m) = (
    (λ h. elim (Option-cases (validate visit m)) [
      | inl e ↦ absurd (cc (sym h ∙ ap (analyze_report m) e ∙ report_aborts m))
      | inr (report, e) ↦
          let (clean, h') = (report_success m report).0 (sym (ap (analyze_report m) e) ∙ h) in
          succeed visit m report e clean h'
    ]),
    Schedulable-success visit m,
  )

  -- `cargo malleus analyze` succeeds exactly when the text is a manifest that gets a report and is
  -- well formed, its tick rate and times are read, and every task passes the response-time
  -- analysis.
  pub analyze_source-success :
      (visit : List Group → List Group) (from_str : Text → Result E Manifest) (source : Text)
      → (analyze_source visit from_str source ≡ returned success)
        ↔ Schedulable visit (from_str source)
  unfolding analyze_source
  analyze_source-success visit from_str source = parsed_success visit (from_str source)
