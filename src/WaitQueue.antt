-- ===== src/WaitQueue.antt =====
-- kernel/core/task/wait_queue.cpp: the queue is linked through the tasks' `wait_next`. A null queue
-- is not modelled: every caller passes the address of one.
pub mod Fifo
use planetoid_os.Base.{ℕ, zero, suc, Option, none, some, ◌==◌, if◌then◌else◌}
use planetoid_os.Task.{TaskState, Tasks, null, ready, blocked, set_wait_next, set_state}
use planetoid_os.Scheduler.{Scheduler, Outcome, returns, block_current_task}

pub record TaskWaitQueue : Type 0 where
  pub head : ℕ
  pub tail : ℕ

unfoldable pub init : TaskWaitQueue → TaskWaitQueue
init queue = record { head = null; tail = null }

-- `block_current` up to its call of the scheduler: the current task is blocked and at the tail.
unfoldable pub enqueue : (task : ℕ) → TaskWaitQueue → Tasks → TaskWaitQueue × Tasks
enqueue task queue tasks =
    let marked = set_wait_next task null (set_state task blocked tasks) in
    if queue.tail == null
    then (record { head = task; tail = task }, marked)
    else (record queue { tail = task }, set_wait_next queue.tail task marked)

unfoldable pub block_current :
    (fuel : ℕ) → TaskWaitQueue → Scheduler → Outcome × TaskWaitQueue × Scheduler
block_current fuel queue s =
    if s.current_task == null
    then (returns, queue, s)
    else let (queue', tasks) = enqueue s.current_task queue s.tasks in
      let (outcome, s') = block_current_task fuel (record s { tasks = tasks }) in
      (outcome, queue', s')

unfoldable pub wake_one : TaskWaitQueue → Tasks → TaskWaitQueue × Tasks
wake_one queue tasks =
    if queue.head == null
    then (queue, tasks)
    else let task = queue.head in
      let head = (tasks task).wait_next in
      (
        record { head = head; tail = if head == null then null else queue.tail },
        set_state task ready (set_wait_next task null tasks),
      )

unfoldable pub wake_all : (fuel : ℕ) → TaskWaitQueue → Tasks → Option (TaskWaitQueue × Tasks)
wake_all zero queue tasks = none
wake_all (suc fuel) queue tasks =
    let woken = wake_one queue tasks in
    let rest = wake_all fuel woken.0 woken.1 in
    if queue.head == null then some (queue, tasks) else rest
