-- ===== src/Kernel/Task.antt =====
-- crates/malleusrt/src/task.rs: identity, state and description of a task.
use malleus_rtos.Base.{ℕ, Bool, true, false, ltb, if◌then◌else◌, Option, none, some}
use malleus_rtos.Base.Text.{Text}
use malleus_rtos.Kernel.Sched.Priority.{Priority}

abbrev pub max_tasks : ℕ
max_tasks = 64

pub record TaskId : Type 0 where
  pub raw : ℕ

-- `TaskId::new`; the assertion of `new_const` fails exactly on its `none`.
unfoldable pub task_id : ℕ → Option TaskId
task_id i = if ltb i max_tasks then some (record { raw = i }) else none

abbrev pub index : TaskId → ℕ
index t = t.raw

pub data TaskState : Type 0 where
  running ready blocked waiting faulted stopped : TaskState

-- Whether the scheduler would consider dispatching the task.
unfoldable pub is_dispatchable : TaskState → Bool
is_dispatchable TaskState.running = true
is_dispatchable TaskState.ready = true
is_dispatchable TaskState.blocked = false
is_dispatchable TaskState.waiting = false
is_dispatchable TaskState.faulted = false
is_dispatchable TaskState.stopped = false

-- `OnFault` carries its budget and its window in ticks.
pub data RestartPolicy : Type 0 where
  never : RestartPolicy
  on_fault : ℕ → ℕ → RestartPolicy
  escalate_to_reset : RestartPolicy

pub record TaskDescriptor : Type 0 where
  pub name : Text
  pub priority : Priority
  pub stack_bytes : ℕ
  pub period_ticks : Option ℕ
  pub deadline_ticks : Option ℕ
  pub wcet_ticks : Option ℕ
  pub restart : RestartPolicy
  pub isolated : Bool
