-- ===== src/Manifest/Checks/Stacks/Exact.antt =====
-- When the check of the stacks finds no error, and when it aborts.
use malleus_rtos.Base.{
  ℕ, ◌≤◌, ◌<◌, ◌^◌, ◌≡◌, ◌↔◌, refl, sym, ap, ◌∙◌, arith, false, List, [], ◌∷◌, ◌++◌, All, ltb,
  Option, none, some,
}
use malleus_rtos.Base.{◌≢◌, Option-cases, inl, inr}
use malleus_rtos.Base.Results.{Result, ok, err, ok_inj, some_inj}
use malleus_rtos.Base.Iff.{iff_trans, iff_and}
use malleus_rtos.Manifest.Units.{ByteSize, ParseUnitError, parse_size, to_power_of_two}
use malleus_rtos.Manifest.Units.Powers.{to_power_of_two_lem}
use malleus_rtos.Manifest.Schema.{Task, Manifest}
use malleus_rtos.Manifest.Diagnostics.{
  Diagnostic, Clean, Clean-nil, Clean-append, Clean-guard_error, Clean-when_warning, error, warning,
  error_count,
}
use malleus_rtos.Manifest.Checks.Stacks.{
  stack_invalid, stack_too_small, stack_padded, check_padding, check_parsed_stack, join_findings,
  check_tasks_stacks, check_stacks,
}

-- A size that was read, of at least 256 bytes.
abbrev pub Holds : Result ParseUnitError ByteSize → Type 0
Holds r = (b : ByteSize) × (r ≡ ok b) × (256 ≤ b.bytes)

abbrev pub AllStacked : List Task → Type 0
AllStacked = All (λ t. Holds (parse_size t.stack))

too_small-error : (t : Task) (b : ByteSize) → (stack_too_small t b).severity ≡ error
unfolding stack_too_small
too_small-error t b = refl

padded-warning : (t : Task) (b p : ByteSize) → (stack_padded t b p).severity ≡ warning
unfolding stack_padded
padded-warning t b p = refl

invalid-count : (t : Task) → error_count (stack_invalid t ∷ []) ≡ 1
unfolding stack_invalid error_count
invalid-count t = refl

below_iff : (n : ℕ) → (ltb n 256 ≡ false) ↔ (256 ≤ n)
below_iff n = ground arith

check_padding-Clean :
    (t : Task) (b p : ByteSize) {ds : List Diagnostic}
    → check_padding t b (some p) ≡ some ds
    → Clean ds ↔ (256 ≤ b.bytes)
unfolding check_padding
check_padding-Clean t b p h = rw (sym (some_inj h)) (
    iff_trans (Clean-guard_error _ (stack_too_small t b) _ (too_small-error t b)) (
      (λ q. (below_iff b.bytes).0 q.0),
      (λ q. (
        (below_iff b.bytes).1 q,
        Clean-when_warning _ (stack_padded t b p) (padded-warning t b p),
      )),
    ))

aborts : (t : Task) (b : ByteSize) → check_padding t b none ≡ none
unfolding check_padding
aborts t b = refl

-- What the check of one task finds, where it does not abort.
check_parsed_stack-Clean :
    (t : Task) (r : Result ParseUnitError ByteSize) {ds : List Diagnostic}
    → check_parsed_stack t r ≡ some ds
    → Clean ds ↔ Holds r
unfolding check_parsed_stack
check_parsed_stack-Clean t (err e) h = (
  (λ c. absurd (omega (arith, ap error_count (some_inj h), invalid-count t))),
  (λ q. absurd (cc q.1)),
)
check_parsed_stack-Clean t (ok b) h = elim (Option-cases (to_power_of_two b)) [
  | inl e ↦ absurd (cc (sym (ap (check_padding t b) e) ∙ h, aborts t b))
  | inr (p, e) ↦
      iff_trans (check_padding-Clean t b p (sym (ap (check_padding t b) e) ∙ h))
        ((λ q. (b, refl, q)), (λ q. rw (ok_inj refl q.1) q.2))
]

join_some :
    (a b : Option (List Diagnostic)) {ds : List Diagnostic}
    → join_findings a b ≡ some ds
    → (xs : List Diagnostic) × (ys : List Diagnostic) × (a ≡ some xs)
      × (b ≡ some ys)
      × (ds ≡ xs ++ ys)
unfolding join_findings
join_some none b h = absurd (cc h)
join_some (some xs) none h = absurd (cc h)
join_some (some xs) (some ys) h = (xs, ys, refl, refl, sym (some_inj h))

check_tasks_stacks-Clean :
    (ts : List Task) {ds : List Diagnostic}
    → check_tasks_stacks ts ≡ some ds
    → Clean ds ↔ AllStacked ts
unfolding check_tasks_stacks
check_tasks_stacks-Clean [] h = ((λ _. tt), (λ _. rw (sym (some_inj h)) Clean-nil))
check_tasks_stacks-Clean (t ∷ ts) h =
    let (xs, ys, first, rest, joined) = join_some _ _ h in
    rw joined (
      iff_trans (Clean-append xs ys) (
        iff_and (check_parsed_stack-Clean t (parse_size t.stack) first)
          (check_tasks_stacks-Clean ts rest)))

-- Where the check of the stacks does not abort, it finds no error exactly when every stack is a
-- size that can be read, of at least 256 bytes.
pub check_stacks-Clean :
    (m : Manifest) {ds : List Diagnostic} → check_stacks m ≡ some ds → Clean ds ↔ AllStacked m.tasks
unfolding check_stacks
check_stacks-Clean m h = check_tasks_stacks-Clean m.tasks h

-- A stack that the rounding can handle.
abbrev pub Roundable : Result ParseUnitError ByteSize → Type 0
Roundable r = (b : ByteSize) → r ≡ ok b → b.bytes ≤ 2 ^ 63

check_parsed_stack-none :
    (t : Task) (r : Result ParseUnitError ByteSize) → (check_parsed_stack t r ≢ none) ↔ Roundable r
unfolding check_parsed_stack check_padding
check_parsed_stack-none t (err e) = ((λ _ b h. absurd (cc h)), (λ _ h. absurd (cc h)))
check_parsed_stack-none t (ok b) = elim (Option-cases (to_power_of_two b)) [
  | inl e ↦
      let large = (to_power_of_two_lem b).1.0 e in
      ((λ h. absurd (h (ap (check_padding t b) e))), (λ h. absurd (omega (arith, h b refl))))
  | inr (p, e) ↦ (
    (λ _ c h.
        rw (sym (ok_inj refl h)) (not_large (λ l. absurd (cc ((to_power_of_two_lem b).1.1 l, e))))),
    (λ _ h. absurd (cc (h, ap (check_padding t b) e))),
  )
]
  where
    not_large : {n m : ℕ} → ((m < n) → ⊥) → n ≤ m
    not_large h = ground arith

join_none :
    (a b : Option (List Diagnostic)) → (join_findings a b ≢ none) ↔ ((a ≢ none) × (b ≢ none))
unfolding join_findings
join_none none b = ((λ h. absurd (h refl)), (λ h. absurd (h.0 refl)))
join_none (some xs) none = ((λ h. absurd (h refl)), (λ h. absurd (h.1 refl)))
join_none (some xs) (some ys) =
    ((λ _. ((λ e. absurd (cc e)), (λ e. absurd (cc e)))), (λ _ e. absurd (cc e)))

check_tasks_stacks-none :
    (ts : List Task) → (check_tasks_stacks ts ≢ none) ↔ All (λ t. Roundable (parse_size t.stack)) ts
unfolding check_tasks_stacks
check_tasks_stacks-none [] = ((λ _. tt), (λ _ e. absurd (cc e)))
check_tasks_stacks-none (t ∷ ts) =
    iff_trans (join_none _ _)
      (iff_and (check_parsed_stack-none t (parse_size t.stack)) (check_tasks_stacks-none ts))

-- The check of the stacks runs to its end exactly when no stack that can be read is of more than
-- `2 ^ 63` bytes: the rounding of a larger one panics.
pub check_stacks-none :
    (m : Manifest) → (check_stacks m ≢ none) ↔ All (λ t. Roundable (parse_size t.stack)) m.tasks
unfolding check_stacks
check_stacks-none m = check_tasks_stacks-none m.tasks
