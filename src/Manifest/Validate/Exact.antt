-- ===== src/Manifest/Validate/Exact.antt =====
-- When the validator accepts a manifest, and when it aborts.
use malleus_rtos.Base.{
  ◌≡◌, ◌≢◌, ◌↔◌, refl, sym, ap, ◌∙◌, arith, List, ◌++◌, All, Option, none, some, inl, inr,
}
use malleus_rtos.Base.{◌<◌, ◌⊎◌, Bool-cases, ltb, ltb→lt, true}
use malleus_rtos.Base.Text.{Text}
use malleus_rtos.Base.Results.{Result, ok, err, some_inj}
use malleus_rtos.Base.Iff.{iff_trans, Distinct}
use malleus_rtos.Manifest.Units.{parse_size}
use malleus_rtos.Manifest.Schema.{Manifest}
use malleus_rtos.Manifest.Diagnostics.{Diagnostic, Clean, Clean-join, error_count}
use malleus_rtos.Manifest.Checks.Names.Exact.{AllNamed, check_task_names-Clean}
use malleus_rtos.Manifest.Checks.Priorities.{Group}
use malleus_rtos.Manifest.Checks.Priorities.Exact.{AllInRange, check_priorities-Clean}
use malleus_rtos.Manifest.Checks.Timing.Exact.{Ticks, SoundTiming, check_timing-Clean}
use malleus_rtos.Manifest.Checks.Stacks.{check_stacks}
use malleus_rtos.Manifest.Checks.Stacks.Exact.{
  AllStacked, Roundable, check_stacks-Clean, check_stacks-none,
}
use malleus_rtos.Manifest.Checks.Channels.{task_names}
use malleus_rtos.Manifest.Checks.Channels.Exact.{SoundChannel, channel_names, check_channels-Clean}
use malleus_rtos.Manifest.Checks.Capabilities.Exact.{AllGranted, check_capabilities-Clean}
use malleus_rtos.Manifest.Validate.{
  assemble, validate, syntax_error, invalid, accept, converted, validate_parsed, parse_and_validate,
}

-- What a manifest promises the tools behind the validator.
pub record WellFormed (m : Manifest) : Type 0 where
  pub names : Distinct (task_names m.tasks)
  pub named : AllNamed m.tasks
  pub priorities : AllInRange m.tasks
  pub ticks : Ticks m.system
  pub timing : All SoundTiming m.tasks
  pub stacks : AllStacked m.tasks
  pub channels : Distinct (channel_names m.channels)
  pub sound : All (SoundChannel (task_names m.tasks)) m.channels
  pub granted : AllGranted m.channels m.tasks

assemble-some :
    (before after : List Diagnostic) (stacks : Option (List Diagnostic)) {report : List Diagnostic}
    → assemble before stacks after ≡ some report
    → (ds : List Diagnostic) × (stacks ≡ some ds) × (report ≡ before ++ ds ++ after)
unfolding assemble
assemble-some before after none h = absurd (cc h)
assemble-some before after (some ds) h = (ds, refl, sym (some_inj h))

assemble-none :
    (before after : List Diagnostic) (stacks : Option (List Diagnostic))
    → (assemble before stacks after ≢ none) ↔ (stacks ≢ none)
unfolding assemble
assemble-none before after none = ((λ h. h), (λ h. h))
assemble-none before after (some ds) = ((λ _ e. absurd (cc e)), (λ _ e. absurd (cc e)))

fields :
    (m : Manifest)
    → ((((Distinct (task_names m.tasks) × AllNamed m.tasks) × AllInRange m.tasks)
            × (Ticks m.system × All SoundTiming m.tasks))
          × AllStacked m.tasks)
        × ((Distinct (channel_names m.channels)
              × All (SoundChannel (task_names m.tasks)) m.channels)
            × AllGranted m.channels m.tasks)
      ↔ WellFormed m
fields m = (
  (λ p.
      let (before, after) = p in
      let (first, stacks) = before in
      let (names, timing) = first in
      record {
        names = names.0.0;
        named = names.0.1;
        priorities = names.1;
        ticks = timing.0;
        timing = timing.1;
        stacks = stacks;
        channels = after.0.0;
        sound = after.0.1;
        granted = after.1;
      }),
  (λ w. (
    ((((w.names, w.named), w.priorities), (w.ticks, w.timing)), w.stacks),
    ((w.channels, w.sound), w.granted),
  )),
)

-- Where the validator gives a report, the report has no error exactly when the manifest is well
-- formed: task names distinct and not empty, priorities from 1 to 31, a usable tick rate, sound
-- times, readable stacks of at least 256 bytes, distinct and sound channels, and capabilities that
-- name channels of their task.
pub validate-Clean :
    (visit : List Group → List Group) (m : Manifest) {report : List Diagnostic}
    → validate visit m ≡ some report
    → Clean report ↔ WellFormed m
unfolding validate
validate-Clean visit m h =
    let (ds, found, joined) = assemble-some _ _ (check_stacks m) h in
    rw joined (
      iff_trans
        (Clean-join _ _
          (Clean-join _ _
            (Clean-join _ _
              (Clean-join _ _ (check_task_names-Clean m) (check_priorities-Clean visit m))
              (check_timing-Clean m))
            (check_stacks-Clean m found))
          (Clean-join _ _ (check_channels-Clean m) (check_capabilities-Clean m)))
        (fields m))

-- The validator gives a report exactly when no stack that can be read is larger than `2 ^ 63`
-- bytes; it aborts on the others.
pub validate-none :
    (visit : List Group → List Group) (m : Manifest)
    → (validate visit m ≢ none) ↔ All (λ t. Roundable (parse_size t.stack)) m.tasks
unfolding validate
validate-none visit m = iff_trans (assemble-none _ _ (check_stacks m)) (check_stacks-none m)

module _ {E : Type 0} (visit : List Group → List Group) where
  accept-Clean :
      (m : Manifest) (report : List Diagnostic)
      → Clean report
      → accept {E = E} m (some report) ≡ some (ok (record { manifest = m; report = report }))
  unfolding accept
  accept-Clean m report h = rw h refl

  accept-not_Clean :
      (m : Manifest) (report : List Diagnostic)
      → ltb 0 (error_count report) ≡ true
      → accept {E = E} m (some report) ≡ some (err (invalid (error_count report)))
  unfolding accept
  accept-not_Clean m report h = rw h refl

  -- What the combined entry point answers, by the cases that its caller sees: a reading error is
  -- passed on; a manifest with a report is handed out with it exactly where it is well formed, and
  -- otherwise the number of errors is reported, which is not 0.
  pub parse_and_validate-cases :
      (from_str : Text → Result E Manifest) (source : Text)
      → ((e : E)
          → from_str source ≡ err e
          → parse_and_validate visit from_str source ≡ some (err (syntax_error e)))
        × ((m : Manifest) (report : List Diagnostic)
            → from_str source ≡ ok m
            → validate visit m ≡ some report
            → (WellFormed m
                × (parse_and_validate visit from_str source
                    ≡ some (ok (record { manifest = m; report = report }))))
              ⊎ ((WellFormed m → ⊥)
                  × (0 < error_count report)
                  × (parse_and_validate visit from_str source
                      ≡ some (err (invalid (error_count report))))))
  unfolding parse_and_validate
  parse_and_validate-cases from_str source = (
    (λ e h. ap (λ r. validate_parsed visit (converted r)) h),
    (λ m report read reported.
        let start = ap (λ r. validate_parsed visit (converted r)) read ∙ ap (accept m) reported in
        elim (Bool-cases (ltb 0 (error_count report))) [
          | inl e ↦ inr (
            (λ w. absurd (positive report e ((validate-Clean visit m reported).1 w))),
            ltb→lt 0 (error_count report) e,
            start ∙ accept-not_Clean m report e,
          )
          | inr e ↦
              let clean : Clean report = ground arith in
              inl ((validate-Clean visit m reported).0 clean, start ∙ accept-Clean m report clean)
        ]),
  )
    where
      positive : (ds : List Diagnostic) → ltb 0 (error_count ds) ≡ true → Clean ds → ⊥
      positive ds h c = ground arith
