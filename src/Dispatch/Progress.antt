-- ===== src/Dispatch/Progress.antt =====
-- What one tick of the device does for a level and for those above it.
use native.Mathlib.Decide.{dec_lt}
use malleus_rtos.Base.{
  ℕ, suc, ◌+◌, ◌-◌, ◌≤◌, ◌<◌, ◌≡◌, refl, sym, ap, ◌∙◌, arith, ltb→lt, lt→ltb, Bool, false,
  Option-cases, inl, inr, List,
}
use malleus_rtos.Kernel.Sched.Priority.{Priority, IsPriority}
use malleus_rtos.Kernel.Sched.ReadySet.{ReadySet, contains, highest}
use malleus_rtos.Kernel.Sched.ReadySet.Highest.{IsHighest, highest_iff, highest-none}
use malleus_rtos.Dispatch.{
  Activity, Thread, wake, release, execute, pending_at, at_level, above, serve_level, serve_ready,
  run,
}
use malleus_rtos.Dispatch.Totals.{
  activities, released_at, AllPriorities, Occupied, pending_at-Occupied, release-activities,
  release-pending, execute-outside, execute-inside,
}
use malleus_rtos.Dispatch.Ready.{Tracks, run-activities, woken-Tracks}

-- One tick serves the levels above first, and the level itself only where they have nothing.
pub record Serves (level : ℕ) (before after : List Thread) : Type 0 where
  pub higher : pending_at (above level) after ≡ pending_at (above level) before - 1
  pub busy :
      0 < pending_at (above level) before
      → pending_at (at_level level) after ≡ pending_at (at_level level) before
  pub free :
      pending_at (above level) before ≡ 0
      → pending_at (at_level level) after ≡ pending_at (at_level level) before - 1

-- Where no level is a member, no test finds pending work.
empty_pending :
    (test : ℕ → Bool) (ths : List Thread) (r : ReadySet)
    → AllPriorities (activities ths)
    → Tracks r ths
    → ((q : Priority) → IsPriority q → contains r q ≡ false)
    → pending_at test ths ≡ 0
empty_pending test ths r valid k absent = elim (dec_lt 0 (pending_at test ths)) [
  | no nothing ↦ omega arith
  | yes pos ↦
      let o : Occupied test ths = pending_at-Occupied test ths valid pos in
      let q : Priority = record { raw = o.level } in
      absurd (ground (arith, k.members q o.valid, absent q o.valid))
]

idle-Serves :
    (level : ℕ) (ths : List Thread)
    → pending_at (above level) ths ≡ 0
    → pending_at (at_level level) ths ≡ 0
    → Serves level ths ths
idle-Serves level ths none_above nothing = record {
  higher = omega arith;
  busy = λ _. refl;
  free = λ _. omega arith;
}

module _ (level : ℕ) (p : Priority) (ths : List Thread) (r : ReadySet)
    (valid : AllPriorities (activities ths)) (k : Tracks r ths) (top : IsHighest r p) where
  -- The level that is served has work.
  pending_top : 0 < pending_at (at_level p.raw) ths
  pending_top = ltb→lt 0 _ (sym (k.members p top.valid) ∙ top.member)

  -- No level with work is more urgent than the one that is served.
  none_beyond : p.raw ≤ level → pending_at (above level) ths ≡ 0
  none_beyond le = elim (dec_lt 0 (pending_at (above level) ths)) [
    | no nothing ↦ omega arith
    | yes pos ↦
        let o : Occupied (above level) ths = pending_at-Occupied (above level) ths valid pos in
        let q : Priority = record { raw = o.level } in
        let urgent : o.level ≤ p.raw =
          top.top q o.valid (k.members q o.valid ∙ lt→ltb 0 _ o.some_pending) in
        absurd (omega (arith, ltb→lt level o.level o.tested))
  ]

  idle_level :
      IsPriority (record { raw = level }) → p.raw < level → pending_at (at_level level) ths ≡ 0
  idle_level hl less = elim (dec_lt 0 (pending_at (at_level level) ths)) [
    | no nothing ↦ omega arith
    | yes pos ↦
        let q : Priority = record { raw = level } in
        absurd (omega (arith, top.top q hl (k.members q hl ∙ lt→ltb 0 _ pos)))
  ]

  execute-Serves : IsPriority (record { raw = level }) → Serves level ths (execute p ths)
  execute-Serves hl = elim (dec_lt level p.raw) [
    | yes beyond ↦
        let inside = execute-inside (above level) p ths (lt→ltb level p.raw beyond) pending_top in
        let outside = execute-outside (at_level level) p ths (ground arith) in
        record {
          higher = omega arith;
          busy = λ _. outside;
          free = λ none_above. absurd (omega arith);
        }
    | no within ↦
        let none_above = none_beyond (omega arith) in
        let outside = execute-outside (above level) p ths (ground arith) in
        record { higher = omega arith; busy = λ pos. absurd (omega arith); free = λ _. own within }
  ]
    where
      own :
          (level < p.raw → ⊥)
          → pending_at (at_level level) (execute p ths) ≡ pending_at (at_level level) ths - 1
      own within = elim (dec_lt p.raw level) [
        | no same ↦
            let inside = execute-inside (at_level level) p ths (ground arith) pending_top in
            omega arith
        | yes less ↦
            let outside = execute-outside (at_level level) p ths (ground arith) in
            let nothing : pending_at (at_level level) ths ≡ 0 = idle_level hl less in omega arith
      ]

serve_ready-Serves :
    (level : ℕ) (ths : List Thread) (r : ReadySet)
    → IsPriority (record { raw = level })
    → AllPriorities (activities ths)
    → Tracks r ths
    → Serves level ths (serve_ready ths r).threads
unfolding serve_ready serve_level
serve_ready-Serves level ths r hl valid k = elim (Option-cases (highest r)) [
  | inl e ↦
      let absent = (highest-none r k.word).1.0 ((highest-none r k.word).0.0 e) in
      rw e (
        idle-Serves level ths (empty_pending (above level) ths r valid k absent)
          (empty_pending (at_level level) ths r valid k absent))
  | inr (p, e) ↦ rw e (execute-Serves level p ths r valid k ((highest_iff r p k.word).0 e) hl)
]

-- The work at the levels of a test when tick `t` is served.
abbrev pub due : (ℕ → Bool) → ℕ → List Activity → ℕ
due test t acts = pending_at test (run t acts).threads + released_at test t acts

abbrev pub left : (ℕ → Bool) → ℕ → List Activity → ℕ
left test t acts = pending_at test (run t acts).threads

due_lem :
    (test : ℕ → Bool) (t : ℕ) (acts : List Activity)
    → pending_at test (release t (run t acts).threads) ≡ due test t acts
due_lem test t acts =
    release-pending test t (run t acts).threads
    ∙ ap (λ (bs : List Activity). left test t acts + released_at test t bs) (run-activities t acts)

-- The most urgent work is served, always: where all priorities are valid, at each tick, with the
-- releases of that tick counted in, the levels above a valid level lose exactly one tick of their
-- work where they have some, and then the level loses nothing; where they have none, the level
-- itself loses a tick of its work, if it has any.
pub run-urgent_first :
    (level t : ℕ) (acts : List Activity)
    → IsPriority (record { raw = level })
    → AllPriorities acts
    → (left (above level) (suc t) acts ≡ due (above level) t acts - 1)
      × (0 < due (above level) t acts
          → left (at_level level) (suc t) acts ≡ due (at_level level) t acts)
      × (due (above level) t acts ≡ 0
          → left (at_level level) (suc t) acts ≡ due (at_level level) t acts - 1)
unfolding run
run-urgent_first level t acts hl valid =
    let d = run t acts in
    let still : AllPriorities (activities (release t d.threads)) =
      rw (release-activities t d.threads, run-activities t acts) valid in
    let s : Serves level (release t d.threads)
        (serve_ready (release t d.threads) (wake t d.threads d.ready)).threads =
      serve_ready-Serves level (release t d.threads) (wake t d.threads d.ready) hl still
        (woken-Tracks t acts valid) in
    let higher_due = due_lem (above level) t acts in
    let own_due = due_lem (at_level level) t acts in
    (
      omega arith,
      (λ pos. omega (arith, s.busy (omega arith))),
      (λ zero_due. omega (arith, s.free (omega arith))),
    )
