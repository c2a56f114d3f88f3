-- ===== src/Analyzer/Schedule.antt =====
-- What a response time is about: a processor that serves the most urgent pending work, one tick
-- at a time, with every task released together and then at each multiple of its period. This is
-- the meaning against which crates/malleus-analyzer is proved; it translates no code.
pub mod Waiting
pub mod Finish
pub mod Verdict
pub mod Sporadic
mod Examples
use malleus_rtos.Base.{ℕ, zero, suc, ◌+◌, ◌-◌, ◌%◌, ◌==◌, if◌then◌else◌, List, [], ◌∷◌}
use malleus_rtos.Analyzer.ResponseTime.{Interferer}

-- A task that can preempt, with the released work that was not served yet.
pub record Backlog : Type 0 where
  pub task : Interferer
  pub pending : ℕ

-- The processor: those tasks, the first with pending work served first, and the work left of the
-- task in question.
pub record Cpu : Type 0 where
  pub backlogs : List Backlog
  pub own : ℕ

-- The jobs that are released at tick `t`.
unfoldable pub release : ℕ → List Backlog → List Backlog
release t [] = []
release t (b ∷ bs) =
    record b { pending = b.pending + (if t % b.task.period == 0 then b.task.wcet else 0) }
    ∷ release t bs

-- One tick of work for the first that has some pending, and for the task itself only if none has.
unfoldable pub serve : List Backlog → ℕ → Cpu
serve [] own = record { backlogs = []; own = own - 1 }
serve (b ∷ bs) own =
    let rest = serve bs own in
    if b.pending == 0
    then record rest { backlogs = b ∷ rest.backlogs }
    else record { backlogs = record b { pending = b.pending - 1 } ∷ bs; own = own }

unfoldable pub idle_backlogs : List Interferer → List Backlog
idle_backlogs [] = []
idle_backlogs (i ∷ is) = record { task = i; pending = 0 } ∷ idle_backlogs is

-- The processor after `t` ticks.
unfoldable pub run : ℕ → List Interferer → ℕ → Cpu
unfolding release serve idle_backlogs
run zero is work = record { backlogs = idle_backlogs is; own = work }
run (suc t) is work = let c = run t is work in serve (release t c.backlogs) c.own
