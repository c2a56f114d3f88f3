-- ===== src/Manifest/Checks/Timing/Fields.antt =====
-- When the checks of a single field find no error.
use malleus_rtos.Base.{
  ℕ, ◌≤◌, ◌<◌, ◌≡◌, ◌↔◌, refl, sym, arith, false, List, [], ◌∷◌, ltb, Option, none, some, ◌==◌,
}
use malleus_rtos.Base.{Bool-cases, inl, inr}
use malleus_rtos.Base.Text.{Text}
use malleus_rtos.Base.Results.{Result, ok, err, some_inj}
use malleus_rtos.Base.Iff.{iff_trans}
use malleus_rtos.Manifest.Units.{Duration, ParseUnitError, parse_duration}
use malleus_rtos.Manifest.Schema.{Task, System}
use malleus_rtos.Manifest.Diagnostics.{
  Diagnostic, Clean, Clean-nil, Clean-append, Clean-when_error, Clean-when_warning, error, warning,
  error_count,
}
use malleus_rtos.Manifest.Checks.Timing.{
  invalid_duration, parsed_field, parse_field, period_zero, reject_zero, deadline_too_long,
  check_deadline, wcet_too_long, check_wcet, wcet_missing, period_misaligned, check_alignment,
}

-- The field gives this duration.
abbrev pub Declares : Option Text → Duration → Type 0
Declares none d = ⊥
Declares (some s) d = parse_duration s ≡ ok d

-- The field is absent or can be read.
abbrev pub Readable : Option Text → Type 0
Readable none = Unit
Readable (some s) = (d : Duration) × (parse_duration s ≡ ok d)

invalid-not_Clean :
    (t : Task) (f : Text) (e : ParseUnitError) → Clean (invalid_duration t f e ∷ []) → ⊥
unfolding error_count invalid_duration
invalid-not_Clean t f e h = omega arith

period_zero-not_Clean : (t : Task) → Clean (period_zero t ∷ []) → ⊥
unfolding error_count period_zero
period_zero-not_Clean t h = omega arith

deadline-error : (t : Task) (p d : Duration) → (deadline_too_long t p d).severity ≡ error
unfolding deadline_too_long
deadline-error t p d = refl

wcet-error : (t : Task) (w d : Duration) → (wcet_too_long t w d).severity ≡ error
unfolding wcet_too_long
wcet-error t w d = refl

pub missing-warning : (t : Task) → (wcet_missing t).severity ≡ warning
unfolding wcet_missing
missing-warning t = refl

misaligned-warning :
    (s : System) (t : Task) (p : Duration) → (period_misaligned s t p).severity ≡ warning
unfolding period_misaligned
misaligned-warning s t p = refl

-- What reading a field finds, and the value it hands on.
pub parse_field-Clean :
    (o : Option Text) (t : Task) (f : Text) → Clean (parse_field o t f).found ↔ Readable o
unfolding parse_field
parse_field-Clean none t f = ((λ _. tt), (λ _. Clean-nil))
parse_field-Clean (some s) t f = parsed (parse_duration s)
  where
    parsed :
        (r : Result ParseUnitError Duration)
        → Clean (parsed_field t f r).found ↔ ((d : Duration) × (r ≡ ok d))
    parsed (ok d) = ((λ _. (d, refl)), (λ _. Clean-nil))
    parsed (err e) = ((λ h. absurd (invalid-not_Clean t f e h)), (λ q. absurd (cc q.1)))

pub parse_field-value :
    (o : Option Text) (t : Task) (f : Text) (d : Duration)
    → ((parse_field o t f).value ≡ some d) ↔ Declares o d
unfolding parse_field
parse_field-value none t f d = ((λ h. absurd (cc h)), (λ h. absurd h))
parse_field-value (some s) t f d = parsed (parse_duration s)
  where
    parsed :
        (r : Result ParseUnitError Duration) → ((parsed_field t f r).value ≡ some d) ↔ (r ≡ ok d)
    parsed (ok d) = ((λ h. cc h), (λ h. cc h))
    parsed (err e) = ((λ h. absurd (cc h)), (λ h. absurd (cc h)))

-- Discarding a zero period is reported, so it never passes unseen.
pub reject_zero-Clean :
    (t : Task) (v : Option Duration) (ds : List Diagnostic)
    → Clean (reject_zero t (record { value = v; found = ds })).found
      ↔ (Clean ds × ((d : Duration) → v ≡ some d → 0 < d.nanos))
unfolding reject_zero
reject_zero-Clean t none ds = ((λ h. (h, (λ d e. absurd (cc e)))), (λ q. q.0))
reject_zero-Clean t (some p) ds = elim (Bool-cases (p.nanos == 0)) [
  | inl e ↦ rw e (
    (λ h. absurd (period_zero-not_Clean t ((Clean-append ds (period_zero t ∷ [])).0 h).1)),
    (λ q. absurd (ground (arith, q.1 p refl))),
  )
  | inr e ↦ rw e ((λ h. (h, (λ d same. rw (sym (some_inj same)) (ground arith)))), (λ q. q.0))
]

pub reject_zero-value :
    (t : Task) (v : Option Duration) (ds : List Diagnostic)
    → Clean (reject_zero t (record { value = v; found = ds })).found
    → (reject_zero t (record { value = v; found = ds })).value ≡ v
unfolding reject_zero
reject_zero-value t none ds = λ _. refl
reject_zero-value t (some p) ds = elim (Bool-cases (p.nanos == 0)) [
  | inl e ↦
      rw e (λ h. absurd (period_zero-not_Clean t ((Clean-append ds (period_zero t ∷ [])).0 h).1))
  | inr e ↦ rw e (λ h. refl)
]

not_longer_iff : (a b : ℕ) → (ltb a b ≡ false) ↔ (b ≤ a)
not_longer_iff a b = ground arith

pub check_deadline-Clean :
    (t : Task) (a b : Option Duration)
    → Clean (check_deadline t a b)
      ↔ ((p d : Duration) → a ≡ some p → b ≡ some d → d.nanos ≤ p.nanos)
unfolding check_deadline
check_deadline-Clean t none b = ((λ _ p d h. absurd (cc h)), (λ _. Clean-nil))
check_deadline-Clean t (some p) none = ((λ _ p' d _ h. absurd (cc h)), (λ _. Clean-nil))
check_deadline-Clean t (some p) (some d) =
    iff_trans (Clean-when_error _ (deadline_too_long t p d) (deadline-error t p d)) (
      iff_trans (not_longer_iff p.nanos d.nanos) (
        (λ h p' d' e e'. rw (sym (some_inj e)) (rw (sym (some_inj e')) h)),
        (λ h. h p d refl refl),
      ))

pub check_wcet-Clean :
    (t : Task) (a b : Option Duration)
    → Clean (check_wcet t a b) ↔ ((w d : Duration) → a ≡ some w → b ≡ some d → w.nanos ≤ d.nanos)
unfolding check_wcet
check_wcet-Clean t none b = ((λ _ p d h. absurd (cc h)), (λ _. Clean-nil))
check_wcet-Clean t (some w) none = ((λ _ p d _ h. absurd (cc h)), (λ _. Clean-nil))
check_wcet-Clean t (some w) (some d) =
    iff_trans (Clean-when_error _ (wcet_too_long t w d) (wcet-error t w d)) (
      iff_trans (not_longer_iff d.nanos w.nanos) (
        (λ h w' d' e e'. rw (sym (some_inj e)) (rw (sym (some_inj e')) h)),
        (λ h. h w d refl refl),
      ))

-- A period that is no whole number of ticks is only ever a warning.
pub check_alignment-Clean :
    (s : System) (t : Task) (p : Option Duration) (hz : Option ℕ) → Clean (check_alignment s t p hz)
unfolding check_alignment
check_alignment-Clean s t none hz = Clean-nil
check_alignment-Clean s t (some p) none = Clean-nil
check_alignment-Clean s t (some p) (some hz) =
    Clean-when_warning _ (period_misaligned s t p) (misaligned-warning s t p)
