-- ===== src/Examples/Tasks.antt =====
-- Three tasks in a ring, for kernel/core/task/scheduler.cpp and kernel/core/task/wait_queue.cpp.
use planetoid_os.Base.{ℕ, ◌≡◌, ◌≢◌, refl, ◌⊎◌, some, [], ◌∷◌, arith, ◌==◌, if◌then◌else◌}
use planetoid_os.Task.{TaskState, TaskStatus, Tasks, ready, running, sleeping, blocked}
use planetoid_os.Scheduler.{returns, Scheduler, yield, block_current_task, update_sleeping_tasks}
use planetoid_os.Scheduler.Ring.{
  IsRing, IsHandedOver, KeepsList, first_ready, yield-first_ready, block_current_task-first_ready,
}
use planetoid_os.Scheduler.Wake.{woken, update_sleeping_tasks_lem}
use planetoid_os.WaitQueue.{TaskWaitQueue, wake_all}
use planetoid_os.WaitQueue.Fifo.{member, IsQueue, wake_all-IsQueue}

abbrev pub task : TaskStatus → (next wait : ℕ) → TaskState
task status next wait = record {
  cpu_context = record { x = λ i. 0; sp = 0; pc = 0; pstate = 0 };
  stack_base = 0;
  stack_size = 0;
  state = status;
  wake_tick = 7;
  next_task = next;
  wait_next = wait;
  cleanup_next = 0;
}

-- Task 1 runs, task 2 sleeps until tick 7, task 3 is ready, and task 9 is the idle task. The tasks
-- 4 and 5 wait in a queue.
abbrev pub tasks : Tasks
tasks t =
    if t == 1
    then task running 2 0
    else if t == 2
    then task sleeping 3 0
    else if t == 3
    then task ready 1 0
    else if t == 4
    then task blocked 0 5
    else if t == 5
    then task blocked 0 0
    else task ready 0 0

abbrev pub three : Scheduler
three = record {
  tasks = tasks;
  current_task = 1;
  task_list = 1;
  pending_cleanup_head = 0;
  pending_cleanup_tail = 0;
  launch_context = 8;
  idle_task = 9;
  daif = 0;
  system_ticks = 7;
  freed = [];
}

pub three-IsRing : IsRing tasks 1 (2 ∷ 3 ∷ [])
three-IsRing = record {
  nonzero = omega arith;
  links = (refl, omega arith, omega arith, (refl, omega arith, omega arith, refl));
}

yield-first_ready_example :
    let n : ℕ = 3 in
    ((n ≡ 1) × (yield 4 three ≡ (returns, three)))
    ⊎ ((n ≢ 1)
        × IsHandedOver 1 3 (λ x. if x == 1 then ready else (tasks x).state) (yield 4 three)
        × KeepsList three (yield 4 three))
unfolding first_ready
yield-first_ready_example = yield-first_ready 4 three (2 ∷ 3 ∷ []) three-IsRing (omega arith)

block_current_task-first_ready_example :
    IsHandedOver 1 3 (λ x. (tasks x).state) (block_current_task 4 three)
    × KeepsList three (block_current_task 4 three)
unfolding first_ready
block_current_task-first_ready_example =
    block_current_task-first_ready 4 three (2 ∷ 3 ∷ []) three-IsRing (omega arith)

update_sleeping_tasks_lem_example :
    (tasks' : Tasks) × (update_sleeping_tasks 4 three ≡ some (record three { tasks = tasks' }))
    × ((y : ℕ) → tasks' y ≡ (if member y (1 ∷ 2 ∷ 3 ∷ []) then woken 7 (tasks y) else tasks y))
update_sleeping_tasks_lem_example =
    update_sleeping_tasks_lem 4 three (2 ∷ 3 ∷ []) three-IsRing (omega arith)

abbrev pub queue : TaskWaitQueue
queue = record { head = 4; tail = 5 }

pub queue-IsQueue : IsQueue tasks queue (4 ∷ 5 ∷ [])
queue-IsQueue = record {
  chain = (refl, omega arith, refl, (refl, omega arith, refl, refl));
  tail = refl;
}

wake_all-IsQueue_example :
    (r : TaskWaitQueue × Tasks) × (wake_all 3 queue tasks ≡ some r)
    × IsQueue r.1 r.0 []
    × ((y : ℕ) → (r.1 y).state ≡ (if member y (4 ∷ 5 ∷ []) then ready else (tasks y).state))
wake_all-IsQueue_example = wake_all-IsQueue 3 tasks queue (4 ∷ 5 ∷ []) queue-IsQueue (omega arith)
