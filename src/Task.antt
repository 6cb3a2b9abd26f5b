-- ===== src/Task.antt =====
-- kernel/core/task/task.hpp: a task, and the tasks in memory as a function from their address. The
-- null pointer is 0.
use planetoid_os.Base.{ℕ, Bool, true, false, update}

pub data TaskStatus : Type 0 where
  ready running sleeping blocked terminated : TaskStatus

-- The registers `x[31]` are a function from their number.
pub record CpuContext : Type 0 where
  pub x : ℕ → ℕ
  pub sp : ℕ
  pub pc : ℕ
  pub pstate : ℕ

pub record TaskState : Type 0 where
  pub cpu_context : CpuContext
  pub stack_base : ℕ
  pub stack_size : ℕ
  pub state : TaskStatus
  pub wake_tick : ℕ
  pub next_task : ℕ
  pub wait_next : ℕ
  pub cleanup_next : ℕ

abbrev pub Tasks : Type 0
Tasks = ℕ → TaskState

abbrev pub null : ℕ
null = 0

abbrev pub is_ready : TaskStatus → Bool
is_ready ready = true
is_ready running = false
is_ready sleeping = false
is_ready blocked = false
is_ready terminated = false

abbrev pub is_running : TaskStatus → Bool
is_running ready = false
is_running running = true
is_running sleeping = false
is_running blocked = false
is_running terminated = false

abbrev pub is_sleeping : TaskStatus → Bool
is_sleeping ready = false
is_sleeping running = false
is_sleeping sleeping = true
is_sleeping blocked = false
is_sleeping terminated = false

-- Writes through a pointer to a task.
abbrev pub set_state : ℕ → TaskStatus → Tasks → Tasks
set_state task status tasks = update tasks task (record (tasks task) { state = status })

abbrev pub set_next_task : ℕ → ℕ → Tasks → Tasks
set_next_task task next tasks = update tasks task (record (tasks task) { next_task = next })

abbrev pub set_wait_next : ℕ → ℕ → Tasks → Tasks
set_wait_next task next tasks = update tasks task (record (tasks task) { wait_next = next })

abbrev pub set_cleanup_next : ℕ → ℕ → Tasks → Tasks
set_cleanup_next task next tasks = update tasks task (record (tasks task) { cleanup_next = next })
