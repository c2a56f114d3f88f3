-- ===== src/Dispatch.antt =====
-- The device as the kernel and the analysis see it together: sporadic jobs of all tasks on one
-- processor that serves, at each tick, the priority that crates/malleusrt/src/sched.rs's
-- `ReadySet` hands out as the highest. A release wakes the priority of its task, and a priority
-- with nothing left is suspended. The loop itself translates no code: the kernel has the set, and
-- the port is to call it.
pub mod Totals
pub mod Ready
pub mod Progress
pub mod Streams
pub mod Placement
pub mod Bounds
pub mod Deadlines
pub mod Verdict
pub mod Shared
pub mod Synchronous
pub mod Exact
pub mod Periodic
pub mod Driven
mod Examples
use malleus_rtos.Base.{
  ℕ, zero, suc, ◌+◌, ◌-◌, ◌≤◌, ◌<◌, ◌≡◌, ltb, ◌==◌, if◌then◌else◌, Bool, ◌&&◌, Option, none, some,
  List, [], ◌∷◌,
}
use malleus_rtos.Kernel.Sched.Priority.{Priority}
use malleus_rtos.Kernel.Sched.ReadySet.{ReadySet, new, insert, remove, highest}
use malleus_rtos.Analyzer.ResponseTime.{TaskTiming}

-- A task, and for each tick the work of the job that is released at it, 0 where none is.
pub record Activity : Type 0 where
  pub task : TaskTiming
  pub work : ℕ → ℕ

-- What the declarations of a task promise of its jobs.
pub record Conforms (a : Activity) : Type 0 where
  pub spaced :
      (p : ℕ) → a.task.period ≡ some p → (t u : ℕ) → 0 < a.work t → 0 < a.work u → t < u → t + p ≤ u
  pub within : (w : ℕ) → a.task.wcet ≡ some w → (t : ℕ) → a.work t ≤ w

-- A task with the released work that was not served yet.
pub record Thread : Type 0 where
  pub activity : Activity
  pub pending : ℕ

abbrev pub urgency : Activity → ℕ
urgency a = a.task.priority

abbrev pub priority_of : Activity → Priority
priority_of a = record { raw = urgency a }

pub record Device : Type 0 where
  pub threads : List Thread
  pub ready : ReadySet

unfoldable pub release : ℕ → List Thread → List Thread
release t [] = []
release t (th ∷ ths) = record th { pending = th.pending + th.activity.work t } ∷ release t ths

-- Each job that is released makes its priority ready.
unfoldable pub wake : ℕ → List Thread → ReadySet → ReadySet
wake t [] ready = ready
wake t (th ∷ ths) ready =
    let rest = wake t ths ready in
    if th.activity.work t == 0 then rest else insert rest (priority_of th.activity)

-- One tick of work for the first task of the level with some pending.
unfoldable pub execute : Priority → List Thread → List Thread
execute p [] = []
execute p (th ∷ ths) =
    let rest = execute p ths in
    if urgency th.activity == p.raw && ltb 0 th.pending
    then record th { pending = th.pending - 1 } ∷ ths
    else th ∷ rest

-- The work that is pending at the levels of a test.
unfoldable pub pending_at : (ℕ → Bool) → List Thread → ℕ
pending_at test [] = 0
pending_at test (th ∷ ths) =
    (if test (urgency th.activity) then th.pending else 0) + pending_at test ths

abbrev pub at_level : ℕ → ℕ → Bool
at_level level u = u == level

abbrev pub above : ℕ → ℕ → Bool
above level u = ltb level u

unfoldable pub serve_level : Priority → List Thread → ReadySet → Device
unfolding execute pending_at
serve_level p threads ready =
    let left = execute p threads in
    record {
      threads = left;
      ready = if pending_at (at_level p.raw) left == 0 then remove ready p else ready;
    }

unfoldable pub serve_highest : Option Priority → List Thread → ReadySet → Device
unfolding serve_level
serve_highest none threads ready = record { threads = threads; ready = ready }
serve_highest (some p) threads ready = serve_level p threads ready

unfoldable pub serve_ready : List Thread → ReadySet → Device
unfolding serve_highest
serve_ready threads ready = serve_highest (highest ready) threads ready

unfoldable pub idle_threads : List Activity → List Thread
idle_threads [] = []
idle_threads (a ∷ acts) = record { activity = a; pending = 0 } ∷ idle_threads acts

-- The device after `t` ticks.
unfoldable pub run : ℕ → List Activity → Device
unfolding release wake serve_ready idle_threads
run zero acts = record { threads = idle_threads acts; ready = new }
run (suc t) acts =
    let d = run t acts in serve_ready (release t d.threads) (wake t d.threads d.ready)
