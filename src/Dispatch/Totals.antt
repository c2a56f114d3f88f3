-- ===== src/Dispatch/Totals.antt =====
-- The pending work of a set of levels under the steps of the device.
use native.Mathlib.Decide.{dec_lt}
use malleus_rtos.Base.{
  ℕ, ◌+◌, ◌≤◌, ◌<◌, ◌≡◌, refl, ap, ◌∙◌, arith, ltb, ◌==◌, if◌then◌else◌, Bool, true, false, ◌&&◌,
  Bool-cases, inl, inr, List, [], ◌∷◌, All,
}
use malleus_rtos.Kernel.Sched.Priority.{Priority, IsPriority}
use malleus_rtos.Dispatch.{
  Activity, Thread, urgency, priority_of, release, execute, pending_at, at_level, idle_threads,
}

abbrev pub activities : List Thread → List Activity
activities [] = []
activities (th ∷ ths) = th.activity ∷ activities ths

-- The work that is released at a tick at the levels of a test.
unfoldable pub released_at : (ℕ → Bool) → ℕ → List Activity → ℕ
released_at test t [] = 0
released_at test t (a ∷ acts) = (if test (urgency a) then a.work t else 0) + released_at test t acts

pub idle-activities : (acts : List Activity) → activities (idle_threads acts) ≡ acts
unfolding idle_threads
idle-activities [] = refl
idle-activities (a ∷ acts) = ap (λ (bs : List Activity). a ∷ bs) (idle-activities acts)

pub idle-pending :
    (test : ℕ → Bool) (acts : List Activity) → pending_at test (idle_threads acts) ≡ 0
unfolding idle_threads pending_at
idle-pending test [] = refl
idle-pending test (a ∷ acts) = ground (arith, idle-pending test acts)

pub release-activities : (t : ℕ) (ths : List Thread) → activities (release t ths) ≡ activities ths
unfolding release
release-activities t [] = refl
release-activities t (th ∷ ths) =
    ap (λ (bs : List Activity). th.activity ∷ bs) (release-activities t ths)

pub release-pending :
    (test : ℕ → Bool) (t : ℕ) (ths : List Thread)
    → pending_at test (release t ths) ≡ pending_at test ths + released_at test t (activities ths)
unfolding release pending_at released_at
release-pending test t [] = refl
release-pending test t (th ∷ ths) = ground (arith, release-pending test t ths)

pub execute-activities :
    (p : Priority) (ths : List Thread) → activities (execute p ths) ≡ activities ths
unfolding execute
execute-activities p [] = refl
execute-activities p (th ∷ ths) = ground (arith, execute-activities p ths)

-- A tick of work for a level leaves the levels outside a test alone.
pub execute-outside :
    (test : ℕ → Bool) (p : Priority) (ths : List Thread)
    → test p.raw ≡ false
    → pending_at test (execute p ths) ≡ pending_at test ths
unfolding execute pending_at
execute-outside test p [] h = refl
execute-outside test p (th ∷ ths) h =
    elim (Bool-cases (urgency th.activity == p.raw && ltb 0 th.pending)) [
      | inl e ↦
          let same : urgency th.activity ≡ p.raw = ground arith in
          let shut : test (urgency th.activity) ≡ false = ap test same ∙ h in rw e (rw shut refl)
      | inr e ↦ rw e (omega (arith, execute-outside test p ths h))
    ]

-- A level with pending work loses one tick of it.
pub execute-inside :
    (test : ℕ → Bool) (p : Priority) (ths : List Thread)
    → test p.raw ≡ true
    → 0 < pending_at (at_level p.raw) ths
    → pending_at test (execute p ths) + 1 ≡ pending_at test ths
unfolding execute pending_at
execute-inside test p [] h pos = absurd (omega arith)
execute-inside test p (th ∷ ths) h pos =
    elim (Bool-cases (urgency th.activity == p.raw && ltb 0 th.pending)) [
      | inl e ↦
          let same : urgency th.activity ≡ p.raw = ground arith in
          let open_level : test (urgency th.activity) ≡ true = ap test same ∙ h in
          let some_pending : 0 < th.pending = ground arith in rw e (rw open_level (omega arith))
      | inr e ↦
          let later : 0 < pending_at (at_level p.raw) ths = ground arith in
          rw e (omega (arith, execute-inside test p ths h later))
    ]

-- What is pending above a level, and at one, with the levels that make it up.
pub level_below_total :
    (test : ℕ → Bool) (level : ℕ) (ths : List Thread)
    → test level ≡ true
    → pending_at (at_level level) ths ≤ pending_at test ths
unfolding pending_at
level_below_total test level [] h = omega arith
level_below_total test level (th ∷ ths) h = elim (Bool-cases (urgency th.activity == level)) [
  | inl e ↦
      let same : urgency th.activity ≡ level = ground arith in
      let open_level : test (urgency th.activity) ≡ true = ap test same ∙ h in
      rw e (rw open_level (omega (arith, level_below_total test level ths h)))
  | inr e ↦ rw e (omega (arith, level_below_total test level ths h))
]

-- A level with pending work among those of a test.
pub record Occupied (test : ℕ → Bool) (ths : List Thread) : Type 0 where
  pub level : ℕ
  pub valid : IsPriority (record { raw = level })
  pub tested : test level ≡ true
  pub some_pending : 0 < pending_at (at_level level) ths

Occupied-later :
    (test : ℕ → Bool) (th : Thread) (ths : List Thread)
    → Occupied test ths
    → Occupied test (th ∷ ths)
unfolding pending_at
Occupied-later test th ths o = record {
  level = o.level;
  valid = o.valid;
  tested = o.tested;
  some_pending = omega arith;
}

abbrev pub AllPriorities : List Activity → Type 0
AllPriorities = All (λ (a : Activity). IsPriority (priority_of a))

-- Where the levels of a test have pending work, one of them has some.
pub pending_at-Occupied :
    (test : ℕ → Bool) (ths : List Thread)
    → AllPriorities (activities ths)
    → 0 < pending_at test ths
    → Occupied test ths
unfolding pending_at
pending_at-Occupied test [] valid pos = absurd (omega arith)
pending_at-Occupied test (th ∷ ths) (v, valid) pos =
    elim (Bool-cases (test (urgency th.activity))) [
      | inr e ↦ Occupied-later test th ths (pending_at-Occupied test ths valid (ground arith))
      | inl e ↦ elim (dec_lt 0 th.pending) [
        | yes p ↦ record {
          level = urgency th.activity;
          valid = v;
          tested = e;
          some_pending = ground arith;
        }
        | no n ↦ Occupied-later test th ths (pending_at-Occupied test ths valid (ground arith))
      ]
    ]
