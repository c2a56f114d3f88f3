-- ===== src/Kernel/Time/Schedule.antt =====
-- The schedule of a periodic task over its whole life: one call of `advance` for each completion.
use mathlib.Core.Path.{subst}
use malleus_rtos.Base.{
  ℕ, suc, sym, ◌-◌, ◌+◌, ◌*◌, ◌≤◌, ◌≡◌, min, ap, ◌∙◌, ltb, if◌then◌else◌, arith, u32_max, u64_max,
  List, [], ◌∷◌, All,
}
use malleus_rtos.Base.Lists.{length}
use malleus_rtos.Arch.Time.{Instant}
use malleus_rtos.Kernel.Time.{Period, advance}
use malleus_rtos.Kernel.Time.Activation.{
  IsPeriod, advance_target, advance_grid, advance-interval, advance-IsPeriod,
}

-- The state after the completions at the given instants.
unfoldable pub advance_all : Period → List Instant → Period
advance_all p [] = p
advance_all p (now ∷ rest) = advance_all (advance p now) rest

-- One completion, then the rest, counted on the first grid.
grid_sum : (n i k j m : ℕ) → (n + suc k * i) + (m + j) * i ≡ n + (suc m + (k + j)) * i
grid_sum n i k j m = grind arith

horizon_step : (h i n : ℕ) → (h + i) + suc n * i ≡ h + suc (suc n) * i
horizon_step h i n = omega arith

horizon_room : (h i n : ℕ) → h + i ≤ h + suc (suc n) * i
horizon_room h i n = omega arith

later_horizon :
    (h i : ℕ) (nows : List Instant)
    → All (λ (t : Instant). t.ticks ≤ h) nows
    → All (λ (t : Instant). t.ticks ≤ h + i) nows
later_horizon h i [] all = tt
later_horizon h i (t ∷ ts) (le, all) = (omega arith, later_horizon h i ts all)

-- Every completion, in turn, lies no later than the activation that the counting is at: `n` for the
-- first of them, and one interval on for each further one.
abbrev pub Keeps : (n i : ℕ) → List Instant → Type 0
Keeps n i [] = Unit
Keeps n i (now ∷ rest) = (now.ticks ≤ n) × Keeps (n + i) i rest

first_ahead : (n i k j : ℕ) → n + suc k * i ≤ n + suc (k + j) * i
first_ahead n i k j = grind arith

next_ahead : (n i k j : ℕ) → (n + suc k * i) + suc j * i ≡ (n + suc (k + j) * i) + i
next_ahead n i k j = grind arith

-- One completion, then the rest, which are counted from the target that it leaves.
module _ (n i k : ℕ) (now : Instant) (rest : List Instant) (p : Period)
    (target : p.next.ticks ≡ n + suc k * i) (same : p.interval ≡ i) where
  rest_counted :
      (j : ℕ)
      → Keeps (p.next.ticks + suc j * p.interval) p.interval rest
        ≡ Keeps ((n + suc (k + j) * i) + i) i rest
  rest_counted j = rw (target, same) (ap (λ (m : ℕ). Keeps m i rest) (next_ahead n i k j))

  target-join :
      (j m last : ℕ) → last ≡ p.next.ticks + (m + j) * p.interval → last ≡ n + (suc m + (k + j)) * i
  target-join j m last e = e ∙ rw (target, same) (grid_sum n i k j m)

  Keeps-join :
      (j : ℕ)
      → now.ticks ≤ n + suc k * i
      → Keeps (p.next.ticks + suc j * p.interval) p.interval rest
      → Keeps (n + suc (k + j) * i) i (now ∷ rest)
  Keeps-join j reached kept =
      (omega (arith, first_ahead n i k j), subst (λ (T : Type 0). T) (rest_counted j) kept)

  least-join :
      (j : ℕ)
      → ((m : ℕ) → now.ticks ≤ n + suc m * i → k ≤ m)
      → ((m : ℕ) → Keeps (p.next.ticks + suc m * p.interval) p.interval rest → j ≤ m)
      → (m : ℕ) → Keeps (n + suc m * i) i (now ∷ rest)
      → k + j ≤ m
  least-join j least least' m (reached, kept) =
      let few = least m reached in
      let split : k + (m - k) ≡ m = omega arith in
      let counted =
        rest_counted (m - k) ∙ ap (λ (d : ℕ). Keeps ((n + suc d * i) + i) i rest) split in
      omega (arith, least' (m - k) (subst (λ (T : Type 0). T) (sym counted) kept))

-- A schedule does not drift, and misses what it must and no more: over any sequence of completions,
-- with a horizon that the first target and every completion stay below and that leaves room for one
-- interval a completion on the timeline, the target moves by one interval for each completion and
-- by one for each of `k` missed activations, and `k` is added to the count, up to `u32::MAX`; where
-- `k` is the least number of missed activations with which every completion lies no later than its
-- activation of the original grid, the completion number `j` no later than
-- `next + (j + k) * interval`.
pub advance_all_grid :
    (p : Period) (nows : List Instant) (horizon : ℕ)
    → IsPeriod p
    → p.next.ticks ≤ horizon
    → All (λ (t : Instant). t.ticks ≤ horizon) nows
    → horizon + suc (length nows) * p.interval ≤ u64_max
    → (k : ℕ) × ((advance_all p nows).next.ticks ≡ p.next.ticks + (length nows + k) * p.interval)
      × ((advance_all p nows).missed ≡ min (p.missed + k) u32_max)
      × Keeps (p.next.ticks + suc k * p.interval) p.interval nows
      × ((j : ℕ) → Keeps (p.next.ticks + suc j * p.interval) p.interval nows → k ≤ j)
unfolding advance_all
advance_all_grid p [] h v le all room = (0, omega arith, omega arith, tt, λ j keeps. omega arith)
advance_all_grid p (now ∷ rest) h v le (now_le, all) room =
    let same = advance-interval p now in
    let fits = horizon_room h p.interval (length rest) in
    let span = horizon_step h p.interval (length rest) in
    let (k, target, missed, reached, least) = advance_grid p now v (omega arith) (omega arith) in
    let near : (advance p now).next.ticks ≤ h + p.interval =
      omega (arith, advance_target p now v (omega arith)) in
    let (j, target', missed', kept, least') =
      advance_all_grid (advance p now) rest (h + p.interval) (advance-IsPeriod p now v).0 near
        (later_horizon h p.interval rest all) (rw same (omega arith)) in
    (
      k + j,
      target-join p.next.ticks p.interval k now rest (advance p now) target same j (length rest) _
          target',
      omega arith,
      Keeps-join p.next.ticks p.interval k now rest (advance p now) target same j reached kept,
      least-join p.next.ticks p.interval k now rest (advance p now) target same j least least',
    )

-- The completions that come after an instant.
unfoldable pub count_after : ℕ → List Instant → ℕ
count_after t [] = 0
count_after t (now ∷ rest) =
    let later = count_after t rest in if ltb t now.ticks then suc later else later
