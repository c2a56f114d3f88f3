-- ===== src/Xtask.antt =====
-- xtask/src/main.rs: the checks that the continuous integration runs. Running a command is a
-- parameter: given the commands that ran before, it says how one ends.
pub mod Commands
pub mod Order
pub mod Exit
mod Examples
use malleus_rtos.Base.{List, [], ◌∷◌, ◌++◌, Option, none, some}
use malleus_rtos.Base.Text.{Text, codes}
use malleus_rtos.CargoMalleus.Outcome.{ExitCode, success, failure}

-- A cargo command with its arguments, or a script.
pub data Invocation : Type 0 where
  cargo_command : List Text → Invocation
  script : Text → Invocation

pub data Ended : Type 0 where
  succeeded : Ended
  unsuccessful : Ended
  not_started : Ended

pub data TaskError : Type 0 where
  io_error : TaskError
  cargo_failed : List Text → TaskError
  audit_failed : TaskError

pub data Task : Type 0 where
  ci : Task
  fmt : Task
  lint : Task
  test : Task
  cross : Task
  audit : Task

-- The commands run so far, oldest first, and the error if there was one.
pub record Progress : Type 0 where
  pub log : List Invocation
  pub error : Option TaskError

abbrev pub Action : Type 0
Action = List Invocation → Progress

-- The `?` operator between two calls.
unfoldable pub continue : Action → Progress → Progress
continue next p = elim p.error [ none ↦ next p.log | some e ↦ p ]

infixl 5 ◌>>◌
unfoldable pub ◌>>◌ : Action → Action → Action
unfolding continue
(first >> next) log = continue next (first log)

abbrev pub done : Action
done log = record { log = log; error = none }

unfoldable pub cargo_error : List Text → Ended → Option TaskError
cargo_error args succeeded = none
cargo_error args unsuccessful = some (cargo_failed args)
cargo_error args not_started = some io_error

unfoldable pub audit_error : Ended → Option TaskError
audit_error succeeded = none
audit_error unsuccessful = some audit_failed
audit_error not_started = some io_error

unfoldable pub exit_of : Option TaskError → ExitCode
exit_of none = success
exit_of (some e) = failure

abbrev pub targets : List Text
targets = codes "thumbv7em-none-eabihf" ∷ codes "thumbv8m.main-none-eabihf" ∷ []

abbrev pub crates : List Text
crates =
    codes "malleusrt"
    ∷ codes "malleus-arch"
    ∷ codes "malleus-arch-cortex-m"
    ∷ codes "malleus-runtime"
    ∷ []

module _ (status : List Invocation → Invocation → Ended) where
  unfoldable pub cargo : List Text → Action
  unfolding cargo_error
  cargo args log = record {
    log = log ++ cargo_command args ∷ [];
    error = cargo_error args (status log (cargo_command args));
  }

  unfoldable pub fmt_all : Action
  unfolding cargo
  fmt_all = cargo (codes "fmt" ∷ codes "--all" ∷ codes "--check" ∷ [])

  unfoldable pub lint_all : Action
  unfolding cargo
  lint_all = cargo (
      codes "clippy"
      ∷ codes "--workspace"
      ∷ codes "--all-targets"
      ∷ codes "--all-features"
      ∷ codes "--"
      ∷ codes "-D"
      ∷ codes "warnings"
      ∷ [])

  unfoldable pub test_all : Action
  unfolding cargo
  test_all = cargo (codes "test" ∷ codes "--workspace" ∷ codes "--all-features" ∷ [])

  -- The inner and the outer loop.
  unfoldable pub cross_crates : Text → List Text → Action
  unfolding cargo ◌>>◌
  cross_crates target [] = done
  cross_crates target (krate ∷ krates) =
      cargo (codes "build" ∷ codes "--target" ∷ target ∷ codes "--package" ∷ krate ∷ [])
      >> cross_crates target krates

  unfoldable pub cross_targets : List Text → Action
  unfolding cross_crates
  cross_targets [] = done
  cross_targets (target ∷ rest) = cross_crates target crates >> cross_targets rest

  unfoldable pub cross_all : Action
  unfolding cross_targets
  cross_all = cross_targets targets

  unfoldable pub unsafe_audit : Action
  unfolding audit_error
  unsafe_audit log = record {
    log = log ++ script (codes "./ci/check-unsafe.sh") ∷ [];
    error = audit_error (status log (script (codes "./ci/check-unsafe.sh")));
  }

  unfoldable pub run : Task → Action
  unfolding fmt_all lint_all test_all cross_all unsafe_audit ◌>>◌
  run ci = fmt_all >> lint_all >> test_all >> cross_all >> unsafe_audit
  run fmt = fmt_all
  run lint = lint_all
  run test = test_all
  run cross = cross_all
  run audit = unsafe_audit

  unfoldable pub main : Task → ExitCode
  unfolding run exit_of
  main task = exit_of (run task []).error
