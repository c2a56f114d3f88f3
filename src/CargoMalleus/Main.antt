-- ===== src/CargoMalleus/Main.antt =====
-- tools/cargo-malleus/src/main.rs: the arguments, the dispatch of the commands and the exit status.
-- The argument parser, the reading of a file and the TOML reader are parameters.
pub mod Dispatch
mod Examples
use malleus_rtos.Base.{
  ℕ, zero, suc, ◌≡◌, ◌↔◌, ◌⊎◌, inl, inr, refl, sym, ap, ◌∙◌, arith, Bool, true, false, ◌&&◌, ◌==◌,
  if◌then◌else◌, List, [], ◌∷◌, Option, none, some, Option-cases,
}
use malleus_rtos.Base.Text.{Text, codes, text_eq, text_eq_refl}
use malleus_rtos.Base.Results.{Result, ok, err}
use malleus_rtos.Manifest.Schema.{Manifest}
use malleus_rtos.Manifest.Checks.Priorities.{Group}
use malleus_rtos.CargoMalleus.Outcome.{
  ExitCode, success, failure, Outcome, returned, failed, panicked, ◌>>=◌,
}
use malleus_rtos.CargoMalleus.Command.{
  Command, check, analyze, new_project, build, flash, test, inspect, trace, dump, expand,
  checkpoint,
}
use malleus_rtos.CargoMalleus.Check.{check_source, Checked, check_source-success}
use malleus_rtos.CargoMalleus.Analyze.{AnalyzeError, analyze_source}
use malleus_rtos.CargoMalleus.Analyze.Verdict.{Schedulable, analyze_source-success}

-- The errors of a run, by where they come from.
pub data RunError (E : Type 0) : Type 0 where
  unreadable : Text → RunError E
  check_error : E → RunError E
  analyze_error : AnalyzeError E → RunError E

-- The closure of `filter_map`, at the index that `enumerate` counts from.
unfoldable pub strip_from : ℕ → List Text → List Text
strip_from i [] = []
strip_from i (arg ∷ args) =
    let rest = strip_from (suc i) args in
    if i == 1 && text_eq arg (codes "malleus") then rest else arg ∷ rest

unfoldable pub strip_subcommand : List Text → List Text
unfolding strip_from
strip_subcommand args = strip_from 0 args

-- What the argument parser comes to: a command, or an exit of its own, with status zero after it
-- printed its help or its version, and with another after it reported a bad command line.
pub data CommandLine : Type 0 where
  parsed : Command → CommandLine
  informed : CommandLine
  refused : CommandLine

-- What the process ends with: an exit code, the parser's status for a bad command line, or a panic.
pub data Status : Type 0 where
  exited : ExitCode → Status
  usage : Status
  aborted : Status

unfoldable pub status_of : {E : Type 0} → Outcome E ExitCode → Status
status_of (returned code) = exited code
status_of (failed e) = exited failure
status_of panicked = aborted

unfoldable pub with_error : {E F A : Type 0} → (E → F) → Outcome E A → Outcome F A
with_error f (returned a) = returned a
with_error f (failed e) = failed (f e)
with_error f panicked = panicked

unfoldable pub contents : {E : Type 0} → Text → Option Text → Outcome (RunError E) Text
contents path none = failed (unreadable path)
contents path (some source) = returned source

module _ {E : Type 0} (visit : List Group → List Group) (from_str : Text → Result E Manifest)
    (read_to_string : Text → Option Text) (parse_from : List Text → CommandLine) where
  unfoldable pub read : Text → Outcome (RunError E) Text
  unfolding contents
  read path = contents path (read_to_string path)

  -- The match on the commands that are implemented; any other is `unreachable!`.
  unfoldable pub dispatch_command : Command → Outcome (RunError E) ExitCode
  unfolding read with_error
  dispatch_command (check manifest deny_warnings) = do
    source ← read manifest
    with_error check_error (check_source visit from_str source deny_warnings)
  dispatch_command (analyze manifest) = do
    source ← read manifest
    with_error analyze_error (analyze_source visit from_str source)
  dispatch_command _ = panicked

  unfoldable pub run_from : Option (Text × Text) → Command → Outcome (RunError E) ExitCode
  unfolding dispatch_command
  run_from (some pending) command = returned failure
  run_from none command = dispatch_command command

  unfoldable pub run_command : Command → Outcome (RunError E) ExitCode
  unfolding run_from checkpoint
  run_command command = run_from (checkpoint command) command

  unfoldable pub main_parsed : CommandLine → Status
  unfolding run_command status_of
  main_parsed informed = exited success
  main_parsed refused = usage
  main_parsed (parsed command) = status_of (run_command command)

  unfoldable pub main : List Text → Status
  unfolding main_parsed strip_subcommand
  main args = main_parsed (parse_from (strip_subcommand args))
