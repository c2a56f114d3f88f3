-- ===== src/Xtask/Commands.antt =====
-- The commands that each task stands for, in order.
use malleus_rtos.Base.{◌≡◌, List, [], ◌∷◌, ◌++◌}
use malleus_rtos.Base.Text.{Text, codes}
use malleus_rtos.Xtask.{
  Invocation, cargo_command, script, Ended, succeeded, Task, ci, fmt, lint, test, cross, audit,
  targets, crates,
}

-- The commands of each task, in order.
abbrev pub fmt_commands : List Invocation
fmt_commands = cargo_command (codes "fmt" ∷ codes "--all" ∷ codes "--check" ∷ []) ∷ []

abbrev pub lint_commands : List Invocation
lint_commands =
    cargo_command (
      codes "clippy"
      ∷ codes "--workspace"
      ∷ codes "--all-targets"
      ∷ codes "--all-features"
      ∷ codes "--"
      ∷ codes "-D"
      ∷ codes "warnings"
      ∷ [])
    ∷ []

abbrev pub test_commands : List Invocation
test_commands =
    cargo_command (codes "test" ∷ codes "--workspace" ∷ codes "--all-features" ∷ []) ∷ []

abbrev pub crate_commands : Text → List Text → List Invocation
crate_commands target [] = []
crate_commands target (krate ∷ krates) =
    cargo_command (codes "build" ∷ codes "--target" ∷ target ∷ codes "--package" ∷ krate ∷ [])
    ∷ crate_commands target krates

abbrev pub target_commands : List Text → List Invocation
target_commands [] = []
target_commands (target ∷ rest) = crate_commands target crates ++ target_commands rest

abbrev pub audit_commands : List Invocation
audit_commands = script (codes "./ci/check-unsafe.sh") ∷ []

abbrev pub commands : Task → List Invocation
commands ci =
    (((fmt_commands ++ lint_commands) ++ test_commands) ++ target_commands targets)
    ++ audit_commands
commands fmt = fmt_commands
commands lint = lint_commands
commands test = test_commands
commands cross = target_commands targets
commands audit = audit_commands

-- The commands succeed one after the other, from a log on.
abbrev pub AllSucceed :
    (List Invocation → Invocation → Ended) → List Invocation → List Invocation → Type 0
AllSucceed status log [] = Unit
AllSucceed status log (c ∷ cs) = (status log c ≡ succeeded) × AllSucceed status (log ++ c ∷ []) cs
