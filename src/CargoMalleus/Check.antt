-- ===== src/CargoMalleus/Check.antt =====
-- tools/cargo-malleus/src/check.rs: the exit code of `cargo malleus check`.
use malleus_rtos.Base.{
  ◌≡◌, ◌↔◌, refl, sym, ap, ◌∙◌, arith, Bool, true, false, ◌&&◌, ltb, if◌then◌else◌, List, Option,
  none, some,
}
use malleus_rtos.Base.Text.{Text}
use malleus_rtos.Base.Results.{Result, ok, err, ok_inj, some_inj}
use malleus_rtos.Manifest.Schema.{Manifest}
use malleus_rtos.Manifest.Diagnostics.{Diagnostic, error_count, warning_count, Clean}
use malleus_rtos.Manifest.Checks.Priorities.{Group}
use malleus_rtos.Manifest.Validate.{validate}
use malleus_rtos.Manifest.Validate.Exact.{WellFormed, validate-Clean}
use malleus_rtos.CargoMalleus.Outcome.{
  ExitCode, success, failure, Outcome, returned, failed, panicked, returned_inj,
}

-- The code that follows from the counts of errors and warnings.
unfoldable pub exit_code : List Diagnostic → Bool → ExitCode
exit_code report deny_warnings =
    if ltb 0 (error_count report)
    then failure
    else if ltb 0 (warning_count report) && deny_warnings
    then failure
    else success

unfoldable pub check_report : {E : Type 0} → Option (List Diagnostic) → Bool → Outcome E ExitCode
check_report none deny_warnings = panicked
check_report (some report) deny_warnings = returned (exit_code report deny_warnings)

-- What follows the TOML reader.
unfoldable pub check_parsed :
    {E : Type 0} → (List Group → List Group) → Result E Manifest → Bool → Outcome E ExitCode
unfolding check_report
check_parsed visit (err e) deny_warnings = failed e
check_parsed visit (ok m) deny_warnings = check_report (validate visit m) deny_warnings

-- `from_str` is the TOML reader and `visit` the order of a hash map's entries.
unfoldable pub check_source :
    {E : Type 0}
    → (List Group → List Group)
    → (Text → Result E Manifest)
    → Text
    → Bool
    → Outcome E ExitCode
unfolding check_parsed
check_source visit from_str source deny_warnings =
    check_parsed visit (from_str source) deny_warnings

-- A run that succeeds read a manifest, and reported on it.
pub record Checked {E : Type 0} (visit : List Group → List Group) (read : Result E Manifest)
    (deny : Bool) : Type 0 where
  pub manifest : Manifest
  pub report : List Diagnostic
  pub parsed : read ≡ ok manifest
  pub reported : validate visit manifest ≡ some report
  pub well_formed : WellFormed manifest
  pub quiet : deny ≡ true → warning_count report ≡ 0

exit_code-success :
    (report : List Diagnostic) (deny : Bool)
    → (exit_code report deny ≡ success) ↔ (Clean report × (deny ≡ true → warning_count report ≡ 0))
unfolding exit_code
exit_code-success report true = ground arith
exit_code-success report false = ground arith

module _ {E : Type 0} (visit : List Group → List Group) (deny : Bool) where
  report_success :
      (o : Option (List Diagnostic))
      → (check_report {E = E} o deny ≡ returned success)
        ↔ ((report : List Diagnostic) × (o ≡ some report) × (exit_code report deny ≡ success))
  unfolding check_report
  report_success none = ((λ h. absurd (cc h)), (λ q. absurd (cc q.1)))
  report_success (some report) = (
    (λ h. (report, refl, returned_inj refl h)),
    (λ q. ap (λ r. returned (exit_code r deny)) (some_inj q.1) ∙ ap returned q.2),
  )

  parsed_success :
      (r : Result E Manifest)
      → (check_parsed visit r deny ≡ returned success) ↔ Checked visit r deny
  unfolding check_parsed
  parsed_success (err e) = ((λ h. absurd (cc h)), (λ s. absurd (cc s.parsed)))
  parsed_success (ok m) = (
    (λ h.
        let (report, e, code) = (report_success (validate visit m)).0 h in
        let (clean, quiet) = (exit_code-success report deny).0 code in
        record {
          manifest = m;
          report = report;
          parsed = refl;
          reported = e;
          well_formed = (validate-Clean visit m e).0 clean;
          quiet = quiet;
        }),
    (λ s.
        let same : s.manifest ≡ m = ok_inj s.parsed refl in
        ap (λ n. check_report (validate visit n) deny) (sym same)
        ∙ (report_success (validate visit s.manifest)).1 (
          s.report,
          s.reported,
          (exit_code-success s.report deny).1
              ((validate-Clean visit s.manifest s.reported).1 s.well_formed, s.quiet),
        )),
  )

  -- `cargo malleus check` succeeds exactly when the text is a manifest that gets a report and is
  -- well formed and, where warnings are denied, has no warning.
  pub check_source-success :
      (from_str : Text → Result E Manifest) (source : Text)
      → (check_source visit from_str source deny ≡ returned success)
        ↔ Checked visit (from_str source) deny
  unfolding check_source
  check_source-success from_str source = parsed_success (from_str source)
