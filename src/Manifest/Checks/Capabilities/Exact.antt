-- ===== src/Manifest/Checks/Capabilities/Exact.antt =====
-- When the check of the capabilities finds no error.
use malleus_rtos.Base.{
  ◌≡◌, ◌↔◌, ◌⊎◌, inl, inr, refl, sym, arith, false, not, ◌&&◌, List, [], ◌∷◌, All, Option, none,
  some, Bool-cases, ◌==◌,
}
use malleus_rtos.Base.Text.{Text, text_eq, text_eq-eq, text_eq_refl}
use malleus_rtos.Base.Results.{some_inj}
use malleus_rtos.Base.Iff.{iff_trans}
use malleus_rtos.Manifest.Schema.{Task, Channel, Manifest}
use malleus_rtos.Manifest.Diagnostics.{
  Clean, Clean-nil, Clean-append, Clean-join, Clean-guard_warning, Clean-when_error, error, warning,
  error_count,
}
use malleus_rtos.Manifest.Checks.Capabilities.{
  strip_prefix, ipc_prefix, channel_named, duplicate_capability, undeclared_channel,
  not_an_endpoint, check_channel_use, check_named, check_task_capabilities,
  check_tasks_capabilities, unclaimed_channel, claimed, check_claims, check_capabilities,
}

-- The channel exists and the task is one of its ends.
abbrev pub Serves : Task → Option Channel → Type 0
Serves t found = (c : Channel) × (found ≡ some c) × ((c.from ≡ t.name) ⊎ (c.to ≡ t.name))

-- A capability that names a channel names a declared one that the task is an end of.
abbrev pub SoundCapability : List Channel → Task → Text → Type 0
SoundCapability channels t capability =
    (name : Text)
    → strip_prefix ipc_prefix capability ≡ some name
    → Serves t (channel_named channels name)

abbrev pub AllGranted : List Channel → List Task → Type 0
AllGranted channels = All (λ t. All (SoundCapability channels t) t.capabilities)

duplicate-warning : (t : Task) (s : Text) → (duplicate_capability t s).severity ≡ warning
unfolding duplicate_capability
duplicate-warning t s = refl

undeclared-not_Clean : (t : Task) (s n : Text) → Clean (undeclared_channel t s n ∷ []) → ⊥
unfolding error_count undeclared_channel
undeclared-not_Clean t s n h = omega arith

endpoint-error : (t : Task) (s n : Text) (c : Channel) → (not_an_endpoint t s n c).severity ≡ error
unfolding not_an_endpoint
endpoint-error t s n c = refl

unclaimed-warning : (c : Channel) → (unclaimed_channel c).severity ≡ warning
unfolding unclaimed_channel
unclaimed-warning c = refl

neither_iff :
    (a b n : Text) → ((not (text_eq a n) && not (text_eq b n)) ≡ false) ↔ ((a ≡ n) ⊎ (b ≡ n))
neither_iff a b n = (
  (λ h. elim (Bool-cases (text_eq a n)) [
    | inl e ↦ inl (text_eq-eq a n e)
    | inr e ↦ elim (Bool-cases (text_eq b n)) [
      | inl e' ↦ inr (text_eq-eq b n e')
      | inr e' ↦ absurd (ground arith)
    ]
  ]),
  (elim [
    | inl e ↦ rw e (rw (text_eq_refl n) refl)
    | inr e ↦ rw e (rw (text_eq_refl n) (ground arith))
  ]),
)

check_channel_use-Clean :
    (t : Task) (s n : Text) (found : Option Channel)
    → Clean (check_channel_use t s n found) ↔ Serves t found
unfolding check_channel_use
check_channel_use-Clean t s n none =
    ((λ h. absurd (undeclared-not_Clean t s n h)), (λ q. absurd (cc q.1)))
check_channel_use-Clean t s n (some c) =
    iff_trans (Clean-when_error _ (not_an_endpoint t s n c) (endpoint-error t s n c)) (
      iff_trans (neither_iff c.from c.to t.name)
        ((λ q. (c, refl, q)), (λ q. rw (some_inj q.1) q.2)))

check_named-Clean :
    (channels : List Channel) (t : Task) (s : Text) (o : Option Text)
    → Clean (check_named channels t s o)
      ↔ ((name : Text) → o ≡ some name → Serves t (channel_named channels name))
unfolding check_named
check_named-Clean channels t s none = ((λ _ n h. absurd (cc h)), (λ _. Clean-nil))
check_named-Clean channels t s (some name) =
    iff_trans (check_channel_use-Clean t s name (channel_named channels name))
      ((λ q n e. rw (sym (some_inj e)) q), (λ q. q name refl))

check_task_capabilities-Clean :
    (channels : List Channel) (t : Task) (seen rest : List Text)
    → Clean (check_task_capabilities channels t seen rest) ↔ All (SoundCapability channels t) rest
unfolding check_task_capabilities
check_task_capabilities-Clean channels t seen [] = ((λ _. tt), (λ _. Clean-nil))
check_task_capabilities-Clean channels t seen (s ∷ rest) =
    iff_trans (Clean-guard_warning _ (duplicate_capability t s) _ (duplicate-warning t s)) (
      Clean-join _ _ (check_named-Clean channels t s (strip_prefix ipc_prefix s))
        (check_task_capabilities-Clean channels t (s ∷ seen) rest))

check_tasks_capabilities-Clean :
    (channels : List Channel) (ts : List Task)
    → Clean (check_tasks_capabilities channels ts) ↔ AllGranted channels ts
unfolding check_tasks_capabilities
check_tasks_capabilities-Clean channels [] = ((λ _. tt), (λ _. Clean-nil))
check_tasks_capabilities-Clean channels (t ∷ ts) =
    Clean-join _ _ (check_task_capabilities-Clean channels t [] t.capabilities)
      (check_tasks_capabilities-Clean channels ts)

-- An unclaimed channel is only ever a warning.
check_claims-Clean : (ts : List Task) (cs : List Channel) → Clean (check_claims ts cs)
unfolding check_claims
check_claims-Clean ts [] = Clean-nil
check_claims-Clean ts (c ∷ cs) =
    (Clean-guard_warning (claimed ts c == 0) (unclaimed_channel c) (check_claims ts cs)
        (unclaimed-warning c)).1
      (check_claims-Clean ts cs)

-- The check of the capabilities finds no error exactly when every capability that starts with
-- `ipc.` names a declared channel that its task sends to or receives from.
pub check_capabilities-Clean :
    (m : Manifest) → Clean (check_capabilities m) ↔ AllGranted m.channels m.tasks
unfolding check_capabilities
check_capabilities-Clean m = iff_trans (Clean-append _ _) (
  (λ p. (check_tasks_capabilities-Clean m.channels m.tasks).0 p.0),
  (λ h. (
    (check_tasks_capabilities-Clean m.channels m.tasks).1 h,
    check_claims-Clean m.tasks m.channels,
  )),
)
