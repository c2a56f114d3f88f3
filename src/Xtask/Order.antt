-- ===== src/Xtask/Order.antt =====
-- The order of the checks: what runs, and that nothing runs after the first failure.
use mathlib.Core.Path.{subst}
use mathlib.Core.List.{append-nil, append_assoc}
use malleus_rtos.Base.{
  ◌≡◌, ◌≢◌, inl, inr, refl, sym, ap, ◌∙◌, List, [], ◌∷◌, ◌++◌, none, some, Option-cases,
}
use malleus_rtos.Base.Text.{Text, codes}
use malleus_rtos.Xtask.{
  Invocation, cargo_command, script, Ended, succeeded, unsuccessful, not_started, TaskError, Task,
  ci, fmt, lint, test, cross, audit, Progress, Action, continue, ◌>>◌, done, cargo_error,
  audit_error, targets, crates, cargo, fmt_all, lint_all, test_all, cross_crates, cross_targets,
  cross_all, unsafe_audit, run,
}
use malleus_rtos.Xtask.Commands.{
  fmt_commands, lint_commands, test_commands, crate_commands, target_commands, audit_commands,
  commands, AllSucceed,
}

-- A run of the commands: all of them, or up to and with the first that does not succeed.
pub data Ran (status : List Invocation → Invocation → Ended) (log cs : List Invocation)
    (p : Progress) : Type 0 where
  through : AllSucceed status log cs → p.log ≡ log ++ cs → p.error ≡ none → Ran status log cs p
  stopped :
      (before : List Invocation) (c : Invocation) (after : List Invocation) (e : TaskError)
      → cs ≡ before ++ (c ∷ after)
      → AllSucceed status log before
      → status (log ++ before) c ≢ succeeded
      → p.log ≡ (log ++ before) ++ (c ∷ [])
      → p.error ≡ some e
      → Ran status log cs p

continue_on : (next : Action) (p : Progress) → p.error ≡ none → continue next p ≡ next p.log
unfolding continue
continue_on next p h = rw h refl

continue_off :
    (next : Action) (p : Progress) (e : TaskError) → p.error ≡ some e → continue next p ≡ p
unfolding continue
continue_off next p e h = rw h refl

module _ (status : List Invocation → Invocation → Ended) where
  AllSucceed-append :
      (log cs ds : List Invocation)
      → AllSucceed status log cs
      → AllSucceed status (log ++ cs) ds
      → AllSucceed status log (cs ++ ds)
  AllSucceed-append log [] ds hc hd =
      subst (λ (l : List Invocation). AllSucceed status l ds) (append-nil log) hd
  AllSucceed-append log (c ∷ cs) ds (h, hc) hd = (
    h,
    AllSucceed-append (log ++ (c ∷ [])) cs ds hc (
        subst (λ (l : List Invocation). AllSucceed status l ds) (sym (append_assoc log (c ∷ []) cs))
          hd),
  )

  abbrev Runs : Action → List Invocation → Type 0
  Runs a cs = (log : List Invocation) → Ran status log cs (a log)

  single-Ran :
      (c : Invocation) (log : List Invocation) (p : Progress)
      → p.log ≡ log ++ (c ∷ [])
      → (p.error ≡ none → status log c ≡ succeeded)
      → ((e : TaskError) → p.error ≡ some e → status log c ≢ succeeded)
      → Ran status log (c ∷ []) p
  single-Ran c log p logged well ill = elim (Option-cases p.error) [
    | inl e ↦ through (well e, tt) logged e
    | inr (failure, e) ↦
        let nil = append-nil log in
        stopped [] c [] failure refl tt
          (λ h. ill failure e (ap (λ (l : List Invocation). status l c) (sym nil) ∙ h))
          (logged ∙ ap (λ (l : List Invocation). l ++ (c ∷ [])) (sym nil)) e
  ]

  cargo-Ran : (args : List Text) → Runs (cargo status args) (cargo_command args ∷ [])
  unfolding cargo
  cargo-Ran args log =
      single-Ran (cargo_command args) log (cargo status args log) refl
        (well (status log (cargo_command args))) (ill (status log (cargo_command args)))
    where
      well : (s : Ended) → cargo_error args s ≡ none → s ≡ succeeded
      well succeeded h = refl
      well unsuccessful h = absurd (unfold cargo_error in cc h)
      well not_started h = absurd (unfold cargo_error in cc h)

      ill : (s : Ended) (e : TaskError) → cargo_error args s ≡ some e → s ≢ succeeded
      ill succeeded e h k = unfold cargo_error in cc h
      ill unsuccessful e h k = cc k
      ill not_started e h k = cc k

  audit-Ran : Runs (unsafe_audit status) audit_commands
  unfolding unsafe_audit
  audit-Ran log =
      let c = script (codes "./ci/check-unsafe.sh") in
      single-Ran c log (unsafe_audit status log) refl (well (status log c)) (ill (status log c))
    where
      well : (s : Ended) → audit_error s ≡ none → s ≡ succeeded
      well succeeded h = refl
      well unsuccessful h = absurd (unfold audit_error in cc h)
      well not_started h = absurd (unfold audit_error in cc h)

      ill : (s : Ended) (e : TaskError) → audit_error s ≡ some e → s ≢ succeeded
      ill succeeded e h k = unfold audit_error in cc h
      ill unsuccessful e h k = cc k
      ill not_started e h k = cc k

  -- One run after the other.
  extended :
      (log cs ds : List Invocation) (p : Progress)
      → AllSucceed status log cs
      → Ran status (log ++ cs) ds p
      → Ran status log (cs ++ ds) p
  extended log cs ds p hc (through hd logged fine) =
      through (AllSucceed-append log cs ds hc hd) (logged ∙ append_assoc log cs ds) fine
  extended log cs ds p hc (stopped before c after e split hb ill logged failure) =
      let shift = append_assoc log cs before in
      stopped (cs ++ before) c after e
        (ap (λ (l : List Invocation). cs ++ l) split ∙ sym (append_assoc cs before (c ∷ after)))
        (AllSucceed-append log cs before hc hb)
        (λ h. ill (ap (λ (l : List Invocation). status l c) shift ∙ h))
        (logged ∙ ap (λ (l : List Invocation). l ++ (c ∷ [])) shift) failure

  followed :
      (log cs ds : List Invocation) (p : Progress) (next : Action)
      → Ran status log cs p
      → Runs next ds
      → Ran status log (cs ++ ds) (continue next p)
  followed log cs ds p next (through hc logged fine) hn =
      subst (Ran status log (cs ++ ds)) (sym (continue_on next p fine ∙ ap next logged))
        (extended log cs ds (next (log ++ cs)) hc (hn (log ++ cs)))
  followed log cs ds p next (stopped before c after e split hb ill logged failure) hn =
      subst (Ran status log (cs ++ ds)) (sym (continue_off next p e failure)) (
        stopped before c (after ++ ds) e
          (ap (λ (l : List Invocation). l ++ ds) split ∙ append_assoc before (c ∷ after) ds) hb ill
          logged failure)

  chained :
      (first next : Action) (cs ds : List Invocation)
      → Runs first cs
      → Runs next ds
      → Runs (first >> next) (cs ++ ds)
  unfolding ◌>>◌
  chained first next cs ds hf hn log = followed log cs ds (first log) next (hf log) hn

  done-Ran : Runs done []
  done-Ran log = through tt (sym (append-nil log)) refl

  cross_crates-Ran :
      (target : Text) (krates : List Text)
      → Runs (cross_crates status target krates) (crate_commands target krates)
  unfolding cross_crates
  cross_crates-Ran target [] = done-Ran
  cross_crates-Ran target (krate ∷ krates) =
      chained _ _ (_ ∷ []) (crate_commands target krates) (cargo-Ran _)
        (cross_crates-Ran target krates)

  cross_targets-Ran : (ts : List Text) → Runs (cross_targets status ts) (target_commands ts)
  unfolding cross_targets
  cross_targets-Ran [] = done-Ran
  cross_targets-Ran (target ∷ rest) =
      chained _ _ (crate_commands target crates) (target_commands rest)
        (cross_crates-Ran target crates) (cross_targets-Ran rest)

  -- Each task runs its commands in order, and nothing after the first that does not succeed:
  -- either every command succeeded, all of them are in the log and there is no error; or the log
  -- ends with the first one that did not, and there is an error.
  pub run-Ran :
      (task : Task) (log : List Invocation) → Ran status log (commands task) (run status task log)
  unfolding run fmt_all lint_all test_all cross_all
  run-Ran fmt log = cargo-Ran _ log
  run-Ran lint log = cargo-Ran _ log
  run-Ran test log = cargo-Ran _ log
  run-Ran cross log = cross_targets-Ran targets log
  run-Ran audit log = audit-Ran log
  run-Ran ci log =
      chained (((fmt_all status >> lint_all status) >> test_all status) >> cross_all status) _
        (((fmt_commands ++ lint_commands) ++ test_commands) ++ target_commands targets)
        audit_commands
        (chained ((fmt_all status >> lint_all status) >> test_all status) _
          ((fmt_commands ++ lint_commands) ++ test_commands) (target_commands targets)
          (chained (fmt_all status >> lint_all status) _ (fmt_commands ++ lint_commands)
            test_commands
            (chained (fmt_all status) _ fmt_commands lint_commands (cargo-Ran _) (cargo-Ran _))
            (cargo-Ran _))
          (cross_targets-Ran targets))
        audit-Ran log
