-- ===== src/Dispatch/Ready.antt =====
-- The kernel's ready set on the device: its members are the levels with pending work.
use malleus_rtos.Base.{
  ℕ, zero, suc, ◌≡◌, refl, ap, ◌∙◌, arith, ltb, ◌==◌, true, false, not, ◌&&◌, ◌||◌, Bool-cases,
  Option-cases, inl, inr, List, [], ◌∷◌,
}
use malleus_rtos.Kernel.Sched.Priority.{Priority, IsPriority}
use malleus_rtos.Kernel.Sched.ReadySet.{ReadySet, IsWord, new, remove, contains, highest}
use malleus_rtos.Kernel.Sched.ReadySet.Members.{
  contains-new, contains-insert, contains-remove, new-IsWord, insert-IsWord, remove-IsWord,
}
use malleus_rtos.Kernel.Sched.ReadySet.Highest.{IsHighest, highest_iff}
use malleus_rtos.Dispatch.{
  Activity, Thread, priority_of, release, wake, execute, pending_at, at_level, serve_level,
  serve_ready, idle_threads, run,
}
use malleus_rtos.Dispatch.Totals.{
  activities, released_at, AllPriorities, idle-activities, idle-pending, release-activities,
  release-pending, execute-activities, execute-outside,
}

-- The set is a 32-bit word, and a priority is a member exactly when its level has pending work.
pub record Tracks (ready : ReadySet) (ths : List Thread) : Type 0 where
  pub word : IsWord ready
  pub members :
      (q : Priority) → IsPriority q → contains ready q ≡ ltb 0 (pending_at (at_level q.raw) ths)

wake-IsWord :
    (t : ℕ) (ths : List Thread) (r : ReadySet)
    → AllPriorities (activities ths)
    → IsWord r
    → IsWord (wake t ths r)
unfolding wake
wake-IsWord t [] r valid h = h
wake-IsWord t (th ∷ ths) r (v, valid) h = elim (Bool-cases (th.activity.work t == 0)) [
  | inl e ↦ rw e (wake-IsWord t ths r valid h)
  | inr e ↦ rw e (insert-IsWord _ (priority_of th.activity) v (wake-IsWord t ths r valid h))
]

contains-wake :
    (t : ℕ) (ths : List Thread) (r : ReadySet) (q : Priority)
    → AllPriorities (activities ths)
    → IsPriority q
    → contains (wake t ths r) q
      ≡ (ltb 0 (released_at (at_level q.raw) t (activities ths)) || contains r q)
unfolding wake released_at
contains-wake t [] r q valid hq = refl
contains-wake t (th ∷ ths) r q (v, valid) hq = ground (
  arith,
  contains-wake t ths r q valid hq,
  contains-insert (wake t ths r) (priority_of th.activity) q v hq,
)

release-Tracks :
    (t : ℕ) (ths : List Thread) (r : ReadySet)
    → AllPriorities (activities ths)
    → Tracks r ths
    → Tracks (wake t ths r) (release t ths)
release-Tracks t ths r valid k = record {
  word = wake-IsWord t ths r valid k.word;
  members = λ q hq. ground (
    arith,
    contains-wake t ths r q valid hq,
    k.members q hq,
    release-pending (at_level q.raw) t ths,
  );
}

serve_level-Tracks :
    (p : Priority) (ths : List Thread) (r : ReadySet)
    → IsPriority p
    → contains r p ≡ true
    → Tracks r ths
    → let d = serve_level p ths r in Tracks d.ready d.threads
unfolding serve_level
serve_level-Tracks p ths r hp member k =
    elim (Bool-cases (pending_at (at_level p.raw) (execute p ths) == 0)) [
      | inl e ↦ rw e (record {
        word = remove-IsWord r p k.word;
        members = λ q hq. served q hq (contains-remove r p q hp hq) e;
      })
      | inr e ↦ rw e (record { word = k.word; members = λ q hq. kept q hq e })
    ]
  where
    served :
        (q : Priority)
        → IsPriority q
        → contains (remove r p) q ≡ (not (q.raw == p.raw) && contains r q)
        → (pending_at (at_level p.raw) (execute p ths) == 0) ≡ true
        → contains (remove r p) q ≡ ltb 0 (pending_at (at_level q.raw) (execute p ths))
    served q hq c e = elim (Bool-cases (q.raw == p.raw)) [
      | inl same ↦
          let level : q.raw ≡ p.raw = ground arith in
          let nothing = ap (λ (l : ℕ). pending_at (at_level l) (execute p ths)) level in
          ground arith
      | inr other ↦
          ground (arith, k.members q hq, execute-outside (at_level q.raw) p ths (ground arith))
    ]

    kept :
        (q : Priority)
        → IsPriority q
        → (pending_at (at_level p.raw) (execute p ths) == 0) ≡ false
        → contains r q ≡ ltb 0 (pending_at (at_level q.raw) (execute p ths))
    kept q hq e = elim (Bool-cases (q.raw == p.raw)) [
      | inl same ↦
          let level : q.raw ≡ p.raw = ground arith in
          let some_left = ap (λ (l : ℕ). pending_at (at_level l) (execute p ths)) level in
          let still : contains r q ≡ true = cc (level, member) in ground arith
      | inr other ↦
          ground (arith, k.members q hq, execute-outside (at_level q.raw) p ths (ground arith))
    ]

serve_ready-Tracks :
    (ths : List Thread) (r : ReadySet)
    → Tracks r ths
    → let d = serve_ready ths r in Tracks d.ready d.threads
unfolding serve_ready
serve_ready-Tracks ths r k = elim (Option-cases (highest r)) [
  | inl e ↦ rw e k
  | inr (p, e) ↦
      let top : IsHighest r p = (highest_iff r p k.word).0 e in
      rw e (serve_level-Tracks p ths r top.valid top.member k)
]

pub serve_ready-activities :
    (ths : List Thread) (r : ReadySet) → activities (serve_ready ths r).threads ≡ activities ths
unfolding serve_ready serve_level
serve_ready-activities ths r = elim (Option-cases (highest r)) [
  | inl e ↦ rw e refl
  | inr (p, e) ↦ rw e (execute-activities p ths)
]

pub run-activities : (t : ℕ) (acts : List Activity) → activities (run t acts).threads ≡ acts
unfolding run
run-activities zero acts = idle-activities acts
run-activities (suc t) acts =
    let d = run t acts in
    serve_ready-activities (release t d.threads) (wake t d.threads d.ready)
    ∙ release-activities t d.threads
    ∙ run-activities t acts

run-AllPriorities :
    (t : ℕ) (acts : List Activity)
    → AllPriorities acts
    → AllPriorities (activities (run t acts).threads)
run-AllPriorities t acts valid = rw (run-activities t acts) valid

idle-Tracks : (acts : List Activity) → Tracks new (idle_threads acts)
idle-Tracks acts = record {
  word = new-IsWord;
  members = λ q hq. ground (arith, contains-new q hq, idle-pending (at_level q.raw) acts);
}

-- The ready set follows the work: after any number of ticks of tasks with valid priorities it is a
-- 32-bit word whose members, among the valid priorities, are exactly those of the tasks with
-- released work that was not served yet.
pub run-Tracks :
    (t : ℕ) (acts : List Activity)
    → AllPriorities acts
    → Tracks (run t acts).ready (run t acts).threads
unfolding run
run-Tracks zero acts valid = idle-Tracks acts
run-Tracks (suc t) acts valid =
    let d = run t acts in
    serve_ready-Tracks (release t d.threads) (wake t d.threads d.ready) (
      release-Tracks t d.threads d.ready (run-AllPriorities t acts valid) (run-Tracks t acts valid))

-- At each tick the set that is handed to the dispatcher follows the work too.
pub woken-Tracks :
    (t : ℕ) (acts : List Activity)
    → AllPriorities acts
    → let d = run t acts in Tracks (wake t d.threads d.ready) (release t d.threads)
woken-Tracks t acts valid =
    let d = run t acts in
    release-Tracks t d.threads d.ready (run-AllPriorities t acts valid) (run-Tracks t acts valid)
