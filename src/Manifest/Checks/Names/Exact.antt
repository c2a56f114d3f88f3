-- ===== src/Manifest/Checks/Names/Exact.antt =====
-- When the check of the task names finds no error.
use malleus_rtos.Base.{◌≡◌, ◌≢◌, ◌↔◌, refl, arith, false, List, [], ◌∷◌, All}
use malleus_rtos.Base.Text.{Text}
use malleus_rtos.Base.Iff.{iff_trans, iff_and, iff_refl, Fresh, Distinct, Fresh-nil, Fresh-cons}
use malleus_rtos.Manifest.Schema.{Task, Manifest}
use malleus_rtos.Manifest.Diagnostics.{Clean, Clean-nil, Clean-guard_error, error}
use malleus_rtos.Manifest.Checks.Names.{
  is_empty_text, duplicate_name, empty_name, check_names_from, check_task_names,
}
use malleus_rtos.Manifest.Checks.Channels.{task_names}

abbrev pub AllNamed : List Task → Type 0
AllNamed = All (λ t. t.name ≢ [])

empty_iff : (s : Text) → (is_empty_text s ≡ false) ↔ (s ≢ [])
unfolding is_empty_text
empty_iff [] = ground arith
empty_iff (c ∷ s) = ground arith

-- A step of the loop, against the names seen and the names ahead.
names_step :
    {A B C D E F : Type 0} → (A × (B × ((C × D) × (E × F)))) ↔ ((A × D) × ((C × E) × (B × F)))
names_step = (
  (λ p. ((p.0, p.1.1.0.1), ((p.1.1.0.0, p.1.1.1.0), (p.1.0, p.1.1.1.1)))),
  (λ p. (p.0.0, (p.1.1.0, ((p.1.0.0, p.0.1), (p.1.0.1, p.1.1.1))))),
)

duplicate_name-error : (t : Task) → (duplicate_name t).severity ≡ error
unfolding duplicate_name
duplicate_name-error t = refl

empty_name-error : empty_name.severity ≡ error
unfolding empty_name
empty_name-error = refl

check_names_from-Clean :
    (seen : List Text) (ts : List Task)
    → Clean (check_names_from seen ts)
      ↔ (Fresh seen (task_names ts) × (Distinct (task_names ts) × AllNamed ts))
unfolding check_names_from
check_names_from-Clean seen [] = ((λ h. (tt, (tt, tt))), (λ h. Clean-nil))
check_names_from-Clean seen (t ∷ ts) =
    iff_trans (Clean-guard_error _ (duplicate_name t) _ (duplicate_name-error t)) (
      iff_trans
        (iff_and iff_refl (
          iff_trans (Clean-guard_error _ empty_name _ empty_name-error) (
            iff_and (empty_iff t.name) (
              iff_trans (check_names_from-Clean (t.name ∷ seen) ts)
                (iff_and (Fresh-cons t.name seen (task_names ts)) iff_refl)))))
        names_step)

-- The check finds no error exactly when no task name is empty and no two are the same.
pub check_task_names-Clean :
    (m : Manifest) → Clean (check_task_names m) ↔ (Distinct (task_names m.tasks) × AllNamed m.tasks)
unfolding check_task_names
check_task_names-Clean m =
    iff_trans (check_names_from-Clean [] m.tasks)
      ((λ p. p.1), (λ p. (Fresh-nil (task_names m.tasks), p)))
