-- ===== src/Dispatch/Driven.antt =====
-- Tasks whose jobs the kernel's `Period` of crates/malleusrt/src/time.rs releases: a job at each
-- target of the schedule, and one call of `advance` when it completes.
use malleus_rtos.Base.{
  ℕ, ◌+◌, ◌≤◌, ◌<◌, ◌≡◌, sym, ◌∙◌, arith, ◌==◌, if◌then◌else◌, Bool, true, false, ◌||◌, Bool-cases,
  inl, inr, some, List, [], ◌∷◌, All, u64_max,
}
use malleus_rtos.Base.Results.{some_inj}
use malleus_rtos.Arch.Time.{Instant}
use malleus_rtos.Kernel.Time.{Period, advance}
use malleus_rtos.Kernel.Time.Activation.{advance-interval}
use malleus_rtos.Analyzer.ResponseTime.{TaskTiming}
use malleus_rtos.Dispatch.{Activity, Conforms}

-- The targets of a schedule whose jobs complete at the given instants.
unfoldable pub targets : Period → List Instant → List ℕ
targets p [] = p.next.ticks ∷ []
targets p (now ∷ rest) = p.next.ticks ∷ targets (advance p now) rest

unfoldable pub is_target : ℕ → List ℕ → Bool
is_target t [] = false
is_target t (x ∷ xs) = t == x || is_target t xs

-- A job at each target, which needs what `demand` says of that tick.
abbrev pub driven : TaskTiming → Period → List Instant → (ℕ → ℕ) → Activity
driven x p completions demand = record {
  task = x;
  work = λ t. if is_target t (targets p completions) then demand t else 0;
}

-- No target is so late that the next one would leave the timeline.
abbrev pub HasTimeline : Period → List Instant → Type 0
HasTimeline p completions = All (λ (t : ℕ). t + p.interval ≤ u64_max) (targets p completions)

-- A call of `advance` moves the target by one interval at least.
advance-next :
    (p : Period) (now : Instant)
    → p.next.ticks + p.interval ≤ u64_max
    → p.next.ticks + p.interval ≤ (advance p now).next.ticks
unfolding advance
advance-next p now room = ground arith

later_timeline :
    (i j : ℕ) (ts : List ℕ)
    → i ≡ j
    → All (λ (t : ℕ). t + i ≤ u64_max) ts
    → All (λ (t : ℕ). t + j ≤ u64_max) ts
later_timeline i j [] e h = tt
later_timeline i j (t ∷ ts) e (le, h) = (omega arith, later_timeline i j ts e h)

-- No target comes before the first.
first_target :
    (p : Period) (nows : List Instant) (t : ℕ)
    → HasTimeline p nows
    → is_target t (targets p nows) ≡ true
    → p.next.ticks ≤ t
unfolding targets is_target
first_target p [] t (room, h) hit = ground arith
first_target p (now ∷ rest) t (room, h) hit = elim (Bool-cases (t == p.next.ticks)) [
  | inl e ↦ ground arith
  | inr e ↦
      let later = later_timeline _ _ _ (sym (advance-interval p now)) h in
      let beyond = first_target (advance p now) rest t later (ground arith) in
      omega (arith, advance-next p now room)
]

targets_spaced :
    (p : Period) (nows : List Instant) (t u : ℕ)
    → HasTimeline p nows
    → is_target t (targets p nows) ≡ true
    → is_target u (targets p nows) ≡ true
    → t < u
    → t + p.interval ≤ u
unfolding targets is_target
targets_spaced p [] t u h ht hu lt = ground arith
targets_spaced p (now ∷ rest) t u (room, h) ht hu lt = elim (Bool-cases (u == p.next.ticks)) [
  | inl e ↦ elim (Bool-cases (t == p.next.ticks)) [
    | inl e' ↦ absurd (ground arith)
    | inr e' ↦
        let beyond = first_target (advance p now) rest t later (ground arith) in
        absurd (ground (arith, advance-next p now room))
  ]
  | inr e ↦ elim (Bool-cases (t == p.next.ticks)) [
    | inl e' ↦
        let beyond = first_target (advance p now) rest u later (ground arith) in
        let here : t ≡ p.next.ticks = ground arith in omega (arith, advance-next p now room)
    | inr e' ↦
        let apart =
          targets_spaced (advance p now) rest t u later (ground arith) (ground arith) lt in
        omega (arith, advance-interval p now)
  ]
]
  where
    later : HasTimeline (advance p now) rest
    later = later_timeline _ _ _ (sym (advance-interval p now)) h

released_by : (b : Bool) (w : ℕ) → 0 < (if b then w else 0) → b ≡ true
released_by b w h = ground arith

-- The kernel keeps a periodic task to its declaration: where the interval of the `Period` is the
-- declared period, each job needs no more than the declared execution time, and no target is so
-- late that the next would leave the 64-bit timeline, the jobs released at the targets that
-- `advance` gives, whenever the jobs complete, are at least a period apart and within the
-- execution time.
pub driven-Conforms :
    (x : TaskTiming) (p : Period) (completions : List Instant) (demand : ℕ → ℕ) (wcet : ℕ)
    → x.period ≡ some p.interval
    → x.wcet ≡ some wcet
    → ((t : ℕ) → demand t ≤ wcet)
    → HasTimeline p completions
    → Conforms (driven x p completions demand)
driven-Conforms x p completions demand w hp hw within room = record {
  spaced = λ i hi t u ht hu lt.
      let same : i ≡ p.interval = some_inj (sym hi ∙ hp) in
      let apart =
        targets_spaced p completions t u room (released_by _ _ ht) (released_by _ _ hu) lt in
      omega arith;
  within = λ v hv t. let same : v ≡ w = some_inj (sym hv ∙ hw) in ground (arith, within t);
}
