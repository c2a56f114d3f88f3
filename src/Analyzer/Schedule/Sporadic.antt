-- ===== src/Analyzer/Schedule/Sporadic.antt =====
-- The processor of the schedule where jobs arrive at any time: a stream of jobs for each task that
-- can preempt, at least a period apart, in place of a common release. It translates no code.
pub mod Arrivals
pub mod Backlogs
pub mod Response
use malleus_rtos.Base.{
  ℕ, zero, suc, ◌+◌, ◌*◌, ◌≤◌, ◌<◌, ◌≡◌, Bool, true, if◌then◌else◌, List, [], ◌∷◌, map, div_ceil,
}
use malleus_rtos.Analyzer.ResponseTime.{Interferer}
use malleus_rtos.Analyzer.Schedule.{Backlog, Cpu, serve, idle_backlogs}

-- A task that can preempt, with the ticks at which a job of it arrives.
pub record Stream : Type 0 where
  pub task : Interferer
  pub arrives : ℕ → Bool

abbrev pub tasks_of : List Stream → List Interferer
tasks_of [] = []
tasks_of (s ∷ ss) = s.task ∷ tasks_of ss

-- The arrivals in the `n` ticks from `from` on.
unfoldable pub arrived : (ℕ → Bool) → ℕ → ℕ → ℕ
arrived arrives from zero = 0
arrived arrives from (suc n) = arrived arrives from n + (if arrives (from + n) then 1 else 0)

-- Two jobs arrive at least one period apart.
abbrev pub IsSporadic : Stream → Type 0
IsSporadic s = (t u : ℕ) → s.arrives t ≡ true → s.arrives u ≡ true → t < u → t + s.task.period ≤ u

-- The jobs that arrive at tick `t`.
unfoldable pub admit : ℕ → List Stream → List Backlog → List Backlog
admit t [] bs = bs
admit t (s ∷ ss) [] = []
admit t (s ∷ ss) (b ∷ bs) =
    record b { pending = b.pending + (if s.arrives t then s.task.wcet else 0) } ∷ admit t ss bs

-- What is left of the preempting jobs after `t` ticks, before a job of the task in question.
unfoldable pub before : ℕ → List Stream → List Backlog
unfolding admit serve idle_backlogs
before zero ss = idle_backlogs (tasks_of ss)
before (suc t) ss = let bs = before t ss in (serve (admit t ss bs) 0).backlogs

-- The processor `k` ticks after a job of the task in question was released at tick `at`.
unfoldable pub after : ℕ → ℕ → List Stream → ℕ → Cpu
unfolding before
after zero at ss work = record { backlogs = before at ss; own = work }
after (suc k) at ss work = let c = after k at ss work in serve (admit (at + k) ss c.backlogs) c.own
