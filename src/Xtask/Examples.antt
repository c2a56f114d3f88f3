-- ===== src/Xtask/Examples.antt =====
-- Tests and instances of the theorems on the checks.
use malleus_rtos.Base.{◌≡◌, ◌↔◌, refl, if◌then◌else◌, List, [], ◌∷◌}
use malleus_rtos.Base.Lists.{length}
use malleus_rtos.Base.Text.{codes, text_eq}
use malleus_rtos.CargoMalleus.Outcome.{success, failure}
use malleus_rtos.Xtask.{
  Invocation, cargo_command, script, Ended, succeeded, unsuccessful, not_started, ci, run, main,
}
use malleus_rtos.Xtask.Commands.{AllSucceed, commands}
use malleus_rtos.Xtask.Order.{Ran, run-Ran}
use malleus_rtos.Xtask.Exit.{main-AllSucceed}

-- Lints fail, all else passes.
abbrev status : List Invocation → Invocation → Ended
status log (script path) = succeeded
status log (cargo_command []) = not_started
status log (cargo_command (word ∷ words)) =
    if text_eq word (codes "clippy") then unsuccessful else succeeded

stops_at_lint : length (run status ci []).log ≡ 2
unfolding run text_eq
stops_at_lint = refl

twelve_commands : length (run (λ log c. succeeded) ci []).log ≡ 12
unfolding run
twelve_commands = refl

ci_fails : main status ci ≡ failure
unfolding main text_eq
ci_fails = refl

run-Ran_example : Ran status [] (commands ci) (run status ci [])
run-Ran_example = run-Ran status ci []

main-AllSucceed_example : (main status ci ≡ success) ↔ AllSucceed status [] (commands ci)
main-AllSucceed_example = main-AllSucceed status ci
