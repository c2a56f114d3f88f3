-- ===== src/Manifest/Checks/Timing/Exact.antt =====
-- When the check of the timing finds no error.
use malleus_rtos.Base.{
  ℕ, zero, suc, ◌≤◌, ◌<◌, ◌≡◌, ◌↔◌, refl, arith, Bool, List, [], ◌∷◌, ◌++◌, All, Option, none, some,
}
use malleus_rtos.Base.Text.{Text, codes}
use malleus_rtos.Base.Iff.{iff_trans, iff_and, iff_and_given, iff_refl}
use malleus_rtos.Manifest.Units.{Duration}
use malleus_rtos.Manifest.Schema.{Task, System, Manifest}
use malleus_rtos.Manifest.Diagnostics.{
  Clean, Clean-nil, Clean-append, Clean-join, Clean-guard_warning, when, error_count,
}
use malleus_rtos.Manifest.Checks.Timing.{
  parse_tick_hz, tick_rate_unusable, tick_rate_zero, check_tick_rate, parse_field, reject_zero,
  check_deadline, check_wcet, wcet_missing, check_alignment, check_task_timing, check_tasks_timing,
  check_timing,
}
use malleus_rtos.Manifest.Checks.Timing.Fields.{
  Declares, Readable, missing-warning, parse_field-Clean, parse_field-value, reject_zero-Clean,
  reject_zero-value, check_deadline-Clean, check_wcet-Clean, check_alignment-Clean,
}

-- Every field can be read, the period is positive, the deadline is within the period, and the
-- worst-case execution time within the deadline.
abbrev pub SoundTiming : Task → Type 0
SoundTiming t =
    (Readable t.period × ((p : Duration) → Declares t.period p → 0 < p.nanos))
    × (Readable t.deadline
        × (Readable t.wcet
            × (((p d : Duration) → Declares t.period p → Declares t.deadline d → d.nanos ≤ p.nanos)
                × ((w d : Duration)
                    → Declares t.wcet w
                    → Declares t.deadline d
                    → w.nanos ≤ d.nanos))))

-- The values that a reading of the fields hands on, against what the fields declare.
both_declared :
    (o o' : Option Text) (t : Task) (f f' : Text) (R : Duration → Duration → Type 0)
    → ((p d : Duration)
        → (parse_field o t f).value ≡ some p
        → (parse_field o' t f').value ≡ some d
        → R p d)
      ↔ ((p d : Duration) → Declares o p → Declares o' d → R p d)
both_declared o o' t f f' R = (
  (λ h p d e e'. h p d ((parse_field-value o t f p).1 e) ((parse_field-value o' t f' d).1 e')),
  (λ h p d e e'. h p d ((parse_field-value o t f p).0 e) ((parse_field-value o' t f' d).0 e')),
)

period_found-Clean :
    (t : Task)
    → Clean (reject_zero t (parse_field t.period t (codes "period"))).found
      ↔ (Readable t.period × ((p : Duration) → Declares t.period p → 0 < p.nanos))
period_found-Clean t =
    let p = parse_field t.period t (codes "period") in
    iff_trans (reject_zero-Clean t p.value p.found) (
      iff_and (parse_field-Clean t.period t (codes "period")) (
        (λ h d e. h d ((parse_field-value t.period t (codes "period") d).1 e)),
        (λ h d e. h d ((parse_field-value t.period t (codes "period") d).0 e)),
      ))

-- Where the period was kept, its deadline is compared with what the field declares.
period_kept :
    (t : Task) (b : Option Duration) {R : Type 0}
    → (Clean (check_deadline t (parse_field t.period t (codes "period")).value b) ↔ R)
    → Clean (reject_zero t (parse_field t.period t (codes "period"))).found
    → Clean (check_deadline t (reject_zero t (parse_field t.period t (codes "period"))).value b) ↔ R
period_kept t b same h =
    let p = parse_field t.period t (codes "period") in
    rw (reject_zero-value t p.value p.found h) same

rest-Clean :
    (s : System) (t : Task) (p : Option Duration) (hz : Option ℕ) (b : Bool)
    → Clean (when b (wcet_missing t) ++ check_alignment s t p hz)
rest-Clean s t p hz b =
    (Clean-guard_warning b (wcet_missing t) _ (missing-warning t)).1
      (check_alignment-Clean s t p hz)

check_task_timing-Clean :
    (s : System) (hz : Option ℕ) (t : Task) → Clean (check_task_timing s hz t) ↔ SoundTiming t
unfolding check_task_timing
check_task_timing-Clean s hz t = iff_trans (Clean-append _ _) (
    iff_trans
      (iff_and_given iff_refl (λ found.
        Clean-join _ _ (parse_field-Clean t.deadline t (codes "deadline")) (
          Clean-join _ _ (parse_field-Clean t.wcet t (codes "wcet")) (
            Clean-join _ _
              (period_kept t _
                (iff_trans (check_deadline-Clean t _ _) (
                  both_declared t.period t.deadline t (codes "period") (codes "deadline")
                    (λ p d. d.nanos ≤ p.nanos)))
                found)
              (iff_trans (Clean-append _ _) (
                (λ q. (wcet_declared t).0 q.0),
                (λ q. ((wcet_declared t).1 q, rest-Clean s t _ hz _)),
              ))))))
      (iff_and (period_found-Clean t) iff_refl))
  where
    wcet_declared :
        (t : Task)
        → Clean (
            check_wcet t
              (parse_field t.wcet t (codes "wcet")).value
              (parse_field t.deadline t (codes "deadline")).value)
          ↔ ((w d : Duration) → Declares t.wcet w → Declares t.deadline d → w.nanos ≤ d.nanos)
    wcet_declared t = iff_trans (check_wcet-Clean t _ _) (
        both_declared t.wcet t.deadline t (codes "wcet") (codes "deadline")
          (λ w d. w.nanos ≤ d.nanos))

check_tasks_timing-Clean :
    (s : System) (hz : Option ℕ) (ts : List Task)
    → Clean (check_tasks_timing s hz ts) ↔ All SoundTiming ts
unfolding check_tasks_timing
check_tasks_timing-Clean s hz [] = ((λ _. tt), (λ _. Clean-nil))
check_tasks_timing-Clean s hz (t ∷ ts) =
    Clean-join _ _ (check_task_timing-Clean s hz t) (check_tasks_timing-Clean s hz ts)

-- A tick rate that can be read and is not zero.
abbrev pub Ticks : System → Type 0
Ticks s = (hz : ℕ) × (parse_tick_hz s.tick_rate ≡ some hz) × (0 < hz)

check_tick_rate-Clean :
    (s : System) (o : Option ℕ)
    → Clean (check_tick_rate s o) ↔ ((hz : ℕ) × (o ≡ some hz) × (0 < hz))
unfolding check_tick_rate error_count tick_rate_unusable tick_rate_zero
check_tick_rate-Clean s none = ((λ h. absurd (omega arith)), (λ q. absurd (cc q.1)))
check_tick_rate-Clean s (some zero) =
    ((λ h. absurd (omega arith)), (λ q. absurd (omega (arith, some_nat_inj q.1))))
  where
    some_nat_inj : {a b : ℕ} → some a ≡ some b → a ≡ b
    some_nat_inj h = cc h
check_tick_rate-Clean s (some (suc hz)) = ((λ _. (suc hz, refl, omega arith)), (λ _. refl))

-- The check of the timing finds no error exactly when the tick rate can be read and is positive,
-- and of every task the times that are declared can be read, its period is positive, its deadline
-- is within its period and its worst-case execution time within its deadline.
pub check_timing-Clean :
    (m : Manifest) → Clean (check_timing m) ↔ (Ticks m.system × All SoundTiming m.tasks)
unfolding check_timing
check_timing-Clean m =
    Clean-join _ _ (check_tick_rate-Clean m.system (parse_tick_hz m.system.tick_rate))
      (check_tasks_timing-Clean m.system _ m.tasks)
