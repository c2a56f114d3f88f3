-- ===== src/Manifest/Validate.antt =====
-- crates/malleus-manifest: `Manifest::validate` and `Manifest::parse_and_validate`.
pub mod Exact
pub mod Examples
use malleus_rtos.Base.{ℕ, zero, suc, ltb, if◌then◌else◌, List, [], ◌∷◌, ◌++◌, Option, none, some}
use malleus_rtos.Base.Text.{Text}
use malleus_rtos.Base.Results.{Result, ok, err}
use malleus_rtos.Manifest.Schema.{Manifest}
use malleus_rtos.Manifest.Diagnostics.{Diagnostic, error_count}
use malleus_rtos.Manifest.Checks.Names.{check_task_names}
use malleus_rtos.Manifest.Checks.Priorities.{Group, check_priorities}
use malleus_rtos.Manifest.Checks.Timing.{check_timing}
use malleus_rtos.Manifest.Checks.Stacks.{check_stacks}
use malleus_rtos.Manifest.Checks.Channels.{check_channels}
use malleus_rtos.Manifest.Checks.Capabilities.{check_capabilities}

-- The findings around those of the stacks, in the order of the checks.
unfoldable pub assemble :
    List Diagnostic → Option (List Diagnostic) → List Diagnostic → Option (List Diagnostic)
assemble before none after = none
assemble before (some stacks) after = some (before ++ stacks ++ after)

-- The report's diagnostics; `none` is an abort of the tool. `visit` is the unspecified order of a
-- hash map's entries.
unfoldable pub validate : (List Group → List Group) → Manifest → Option (List Diagnostic)
unfolding assemble
validate visit m =
    assemble (check_task_names m ++ check_priorities visit m ++ check_timing m) (check_stacks m)
      (check_channels m ++ check_capabilities m)

-- `Syntax` carries the TOML reader's error.
pub data ManifestError (E : Type 0) : Type 0 where
  syntax_error : E → ManifestError E
  invalid : ℕ → ManifestError E

pub record Validated : Type 0 where
  pub manifest : Manifest
  pub report : List Diagnostic

unfoldable pub accept :
    {E : Type 0} → Manifest → Option (List Diagnostic) → Option (Result (ManifestError E) Validated)
accept m none = none
accept m (some report) = some (
    if ltb 0 (error_count report)
    then err (invalid (error_count report))
    else ok (record { manifest = m; report = report }))

-- The conversion of the reader's error by `?`.
unfoldable pub converted : {E : Type 0} → Result E Manifest → Result (ManifestError E) Manifest
converted (err e) = err (syntax_error e)
converted (ok m) = ok m

-- `from_str` is the TOML reader, which is no part of this repository.
unfoldable pub parse :
    {E : Type 0} → (Text → Result E Manifest) → Text → Result (ManifestError E) Manifest
unfolding converted
parse from_str source = converted (from_str source)

unfoldable pub validate_parsed :
    {E : Type 0}
    → (List Group → List Group)
    → Result (ManifestError E) Manifest
    → Option (Result (ManifestError E) Validated)
unfolding accept
validate_parsed visit (err e) = some (err e)
validate_parsed visit (ok m) = accept m (validate visit m)

unfoldable pub parse_and_validate :
    {E : Type 0}
    → (List Group → List Group)
    → (Text → Result E Manifest)
    → Text
    → Option (Result (ManifestError E) Validated)
unfolding validate_parsed parse
parse_and_validate visit from_str source = validate_parsed visit (parse from_str source)
