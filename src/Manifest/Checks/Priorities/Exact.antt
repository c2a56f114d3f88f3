-- ===== src/Manifest/Checks/Priorities/Exact.antt =====
-- When the check of the priorities finds no error.
use malleus_rtos.Base.{ℕ, ◌≤◌, ◌≡◌, ◌↔◌, refl, arith, false, List, [], ◌∷◌, All, ltb, ◌==◌}
use malleus_rtos.Base.Iff.{iff_trans, iff_and, iff_refl}
use malleus_rtos.Manifest.Schema.{Task, Manifest}
use malleus_rtos.Manifest.Diagnostics.{
  Clean, Clean-nil, Clean-append, Clean-guard_error, Clean-guard_warning, error, warning,
}
use malleus_rtos.Manifest.Checks.Priorities.{
  Group, priority_out_of_range, priority_reserved, shared_priority, check_ranges, check_groups,
  check_priorities, group_tasks, max_priority,
}

-- The priorities that the kernel gives to application tasks.
abbrev pub AllInRange : List Task → Type 0
AllInRange = All (λ t. (1 ≤ t.priority) × (t.priority ≤ 31))

out_of_range-error : (t : Task) → (priority_out_of_range t).severity ≡ error
unfolding priority_out_of_range
out_of_range-error t = refl

reserved-error : (t : Task) → (priority_reserved t).severity ≡ error
unfolding priority_reserved
reserved-error t = refl

shared-warning : (g : Group) → (shared_priority g).severity ≡ warning
unfolding shared_priority
shared-warning g = refl

range_step :
    (p : ℕ) {B : Type 0}
    → ((ltb max_priority p ≡ false) × (((p == 0) ≡ false) × B)) ↔ (((1 ≤ p) × (p ≤ 31)) × B)
range_step p = (
  (λ h. ((omega (arith, zero_test h.1.0), omega (arith, bound_test h.0)), h.1.1)),
  (λ h. (ground arith, (ground arith, h.1))),
)
  where
    zero_test : (p == 0) ≡ false → 1 ≤ p
    zero_test h = ground arith

    bound_test : ltb max_priority p ≡ false → p ≤ 31
    bound_test h = ground arith

check_ranges-Clean : (ts : List Task) → Clean (check_ranges ts) ↔ AllInRange ts
unfolding check_ranges
check_ranges-Clean [] = ((λ h. tt), (λ h. Clean-nil))
check_ranges-Clean (t ∷ ts) =
    iff_trans (Clean-guard_error _ (priority_out_of_range t) _ (out_of_range-error t)) (
      iff_trans
        (iff_and iff_refl (
          iff_trans (Clean-guard_error _ (priority_reserved t) _ (reserved-error t))
            (iff_and iff_refl (check_ranges-Clean ts))))
        (range_step t.priority))

-- Sharing a priority is only ever a warning.
check_groups-Clean : (gs : List Group) → Clean (check_groups gs)
unfolding check_groups
check_groups-Clean [] = Clean-nil
check_groups-Clean (g ∷ gs) =
    (Clean-guard_warning _ (shared_priority g) _ (shared-warning g)).1 (check_groups-Clean gs)

-- The check finds no error exactly when every priority is from 1 to 31, whatever the order in
-- which the map of the shared priorities is visited.
pub check_priorities-Clean :
    (visit : List Group → List Group) (m : Manifest)
    → Clean (check_priorities visit m) ↔ AllInRange m.tasks
unfolding check_priorities
check_priorities-Clean visit m = iff_trans (Clean-append _ _) (
  (λ p. (check_ranges-Clean m.tasks).0 p.0),
  (λ h. ((check_ranges-Clean m.tasks).1 h, check_groups-Clean (visit (group_tasks m.tasks [])))),
)
