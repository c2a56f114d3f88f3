-- ===== src/Xtask/Exit.antt =====
-- The exit code of a task.
use mathlib.Core.Path.{subst}
use mathlib.Core.List.{append-nil, append_assoc}
use malleus_rtos.Base.{◌≡◌, ◌≢◌, ◌↔◌, refl, sym, ap, ◌∙◌, List, [], ◌∷◌, ◌++◌, Option, none, some}
use malleus_rtos.Base.Iff.{iff_trans}
use malleus_rtos.CargoMalleus.Outcome.{success}
use malleus_rtos.Xtask.{Invocation, Ended, succeeded, TaskError, Task, Progress, run, exit_of, main}
use malleus_rtos.Xtask.Commands.{commands, AllSucceed}
use malleus_rtos.Xtask.Order.{Ran, through, stopped, run-Ran}

module _ (status : List Invocation → Invocation → Ended) where
  stopped_not_all :
      (log before : List Invocation) (c : Invocation) (after : List Invocation)
      → status (log ++ before) c ≢ succeeded
      → AllSucceed status log (before ++ (c ∷ after))
      → ⊥
  stopped_not_all log [] c after ill (h, rest) =
      ill (ap (λ (l : List Invocation). status l c) (append-nil log) ∙ h)
  stopped_not_all log (b ∷ before) c after ill (h, rest) =
      stopped_not_all (log ++ (b ∷ [])) before c after
        (λ g.
          ill
            (ap (λ (l : List Invocation). status l c) (sym (append_assoc log (b ∷ []) before)) ∙ g))
        rest

  exit_of-success : (e : Option TaskError) → (exit_of e ≡ success) ↔ (e ≡ none)
  unfolding exit_of
  exit_of-success none = ((λ h. refl), (λ h. refl))
  exit_of-success (some e) = ((λ h. absurd (cc h)), (λ h. absurd (cc h)))

  Ran-success :
      (log cs : List Invocation) (p : Progress)
      → Ran status log cs p
      → (p.error ≡ none) ↔ AllSucceed status log cs
  Ran-success log cs p (through all logged fine) = ((λ h. all), (λ h. fine))
  Ran-success log cs p (stopped before c after e split hb ill logged failure) = (
    (λ h. absurd (cc (h, failure))),
    (λ h. absurd (stopped_not_all log before c after ill (subst (AllSucceed status log) split h))),
  )

  -- A task exits with success exactly when every one of its commands, run in order, succeeds.
  pub main-AllSucceed :
      (task : Task) → (main status task ≡ success) ↔ AllSucceed status [] (commands task)
  unfolding main
  main-AllSucceed task =
      iff_trans (exit_of-success (run status task []).error)
        (Ran-success [] (commands task) (run status task []) (run-Ran status task []))
