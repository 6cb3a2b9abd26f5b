-- ===== src/Scheduler.antt =====
-- kernel/core/task/scheduler.cpp.
--
-- A function that may leave through `task_switch` or in an endless `wfi` loop says so in its
-- outcome; nothing of its body runs after the switch. The walks of the circular list take fuel, and
-- `stuck` (a walk's `none`) means that it ran out or that the walk read through a null pointer. The calls of `kfree` are
-- recorded, newest first; a call of `irq_save` or `irq_restore` changes `daif`, and `task_switch`
-- (kernel/arch/aarch64/context_switch.s) clears its I bit.
pub mod Ring
pub mod Wake
pub mod Insert
pub mod Rotate
pub mod Terminate
use planetoid_os.Base.{
  ℕ, zero, suc, not, ◌&&◌, ◌||◌, Option, none, some, List, ◌∷◌, bit_and, bit_or, leb, ◌==◌,
  if◌then◌else◌, add64, not64, update,
}
use planetoid_os.Task.{
  TaskStatus, ready, running, sleeping, blocked, terminated, CpuContext, TaskState, Tasks, null,
  is_ready, is_running, is_sleeping, set_state, set_next_task, set_cleanup_next,
}

pub record Scheduler : Type 0 where
  pub tasks : Tasks
  pub current_task : ℕ
  pub task_list : ℕ
  pub pending_cleanup_head : ℕ
  pub pending_cleanup_tail : ℕ
  pub launch_context : ℕ
  pub idle_task : ℕ
  pub daif : ℕ
  pub system_ticks : ℕ
  pub freed : List ℕ

pub data Outcome : Type 0 where
  returns : Outcome
  switches : (current next : ℕ) → Outcome
  parks : Outcome
  stuck : Outcome

abbrev pub status : Scheduler → ℕ → TaskStatus
status s task = (s.tasks task).state

-- `Interrupts::irq_save` sets the I bit of DAIF and returns what DAIF was.
abbrev pub irq_save : Scheduler → Scheduler
irq_save s = record s { daif = bit_or s.daif 0x80 }

abbrev pub irq_restore : ℕ → Scheduler → Scheduler
irq_restore irq_state s = record s { daif = irq_state }

abbrev pub mark : ℕ → TaskStatus → Scheduler → Scheduler
mark task status s = record s { tasks = set_state task status s.tasks }

-- `while (t != stop && t->state != Ready) t = t->next_task`, from `task`.
unfoldable pub skip_to_ready : (fuel : ℕ) → Tasks → (stop task : ℕ) → Option ℕ
skip_to_ready zero tasks stop task = none
skip_to_ready (suc fuel) tasks stop task =
    let rest = skip_to_ready fuel tasks stop (tasks task).next_task in
    if task == stop
    then some task
    else if task == null
    then none
    else if is_ready (tasks task).state
    then some task
    else rest

-- `while (t->next_task != task) t = t->next_task`.
unfoldable pub find_previous : (fuel : ℕ) → Tasks → (task from : ℕ) → Option ℕ
find_previous zero tasks task from = none
find_previous (suc fuel) tasks task from =
    let rest = find_previous fuel tasks task (tasks from).next_task in
    if from == null then none else if (tasks from).next_task == task then some from else rest

-- The `do` loop of `find_next_ready_task`, at `task`. `some null` is its null result.
unfoldable pub find_next_loop : (fuel : ℕ) → Tasks → (start_task task : ℕ) → Option ℕ
find_next_loop zero tasks start_task task = none
find_next_loop (suc fuel) tasks start_task task =
    let next = (tasks task).next_task in
    let rest = find_next_loop fuel tasks start_task next in
    if task == null
    then none
    else if is_ready (tasks task).state
    then some task
    else if next == start_task
    then some null
    else rest

unfoldable pub find_next_ready_task : ℕ → Scheduler → (start_task : ℕ) → Option ℕ
unfolding find_next_loop
find_next_ready_task fuel s start_task =
    if (s.task_list == null) || (start_task == null)
    then some null
    else find_next_loop fuel s.tasks start_task start_task

unfoldable pub remove_task : ℕ → ℕ → Scheduler → Option Scheduler
unfolding find_previous
remove_task fuel task s =
    if (task == null) || (s.task_list == null)
    then some s
    else if (s.tasks task).next_task == task
    then some (record s { task_list = null })
    else elim (find_previous fuel s.tasks task s.task_list) [
      | none ↦ none
      | some previous ↦
          let next = (s.tasks task).next_task in
          some (record s {
            tasks = set_next_task previous next s.tasks;
            task_list = if s.task_list == task then next else s.task_list;
          })
    ]

-- `kfree((void*)task->stack_base); kfree(task);` come last.
unfoldable pub cleanup_terminated_task : Scheduler → Scheduler
cleanup_terminated_task s =
    if s.pending_cleanup_head == null
    then s
    else let task = s.pending_cleanup_head in
      let head = (s.tasks task).cleanup_next in
      record s {
        tasks = set_cleanup_next task null s.tasks;
        pending_cleanup_head = head;
        pending_cleanup_tail = if head == null then null else s.pending_cleanup_tail;
        freed = task ∷ (s.tasks task).stack_base ∷ s.freed;
      }

unfoldable pub add_task : ℕ → Scheduler → Scheduler
add_task task s =
    if task == null
    then s
    else let irq_state = s.daif in
      let s₁ = mark task ready (irq_save s) in
      if s.task_list == null
      then irq_restore irq_state
          (record s₁ { task_list = task; tasks = set_next_task task task s₁.tasks })
      else let linked = set_next_task task (s₁.tasks s.task_list).next_task s₁.tasks in
        irq_restore irq_state (record s₁ { tasks = set_next_task s.task_list task linked })

-- The end of `yield`, `sleep`, `block_current_task` and `terminate_current`.
abbrev pub switch_to : (previous next : ℕ) → Scheduler → Outcome × Scheduler
switch_to previous next s = (
  switches previous next,
  mark next running (record s { current_task = next; daif = bit_and s.daif (not64 0x80) }),
)

unfoldable pub yield : ℕ → Scheduler → Outcome × Scheduler
unfolding skip_to_ready
yield fuel s =
    if s.current_task == null
    then (returns, s)
    else let current = s.current_task in
      elim (skip_to_ready fuel s.tasks current (s.tasks current).next_task) [
        | none ↦ (stuck, irq_save s)
        | some next ↦
            if next == current
            then (returns, s)
            else switch_to current next (mark current ready (irq_save s))
      ]

unfoldable pub start : Scheduler → Outcome × Scheduler
start s =
    let first_task = if not (s.task_list == null) then s.task_list else s.idle_task in
    if first_task == null then (returns, s) else switch_to s.launch_context first_task s

-- The first part of `terminate_current`: the task is queued for its cleanup.
unfoldable pub queue_cleanup : ℕ → Scheduler → Scheduler
queue_cleanup task s =
    let tasks = set_cleanup_next task null s.tasks in
    if s.pending_cleanup_tail == null
    then record s { tasks = tasks; pending_cleanup_head = task; pending_cleanup_tail = task }
    else record s {
      tasks = set_cleanup_next s.pending_cleanup_tail task tasks;
      pending_cleanup_tail = task;
    }

unfoldable pub terminate_current : ℕ → Scheduler → Outcome × Scheduler
terminate_current fuel s =
    if (s.current_task == null) || (s.current_task == s.idle_task)
    then (parks, s)
    else let task = s.current_task in
      elim (remove_task fuel task (queue_cleanup task s)) [
        | none ↦ (stuck, queue_cleanup task s)
        | some s' ↦
            if s'.task_list == null
            then switch_to task s'.idle_task s'
            else elim (find_next_ready_task fuel s' s'.task_list) [
              | none ↦ (stuck, s')
              | some next ↦
                  if next == null then switch_to task s'.idle_task s' else switch_to task next s'
            ]
      ]

-- `Timer::get_ticks` is `system_ticks`.
unfoldable pub sleep : ℕ → ℕ → Scheduler → Outcome × Scheduler
unfolding skip_to_ready
sleep fuel ticks s =
    if (s.current_task == null) || (ticks == 0)
    then (returns, s)
    else let current = s.current_task in
      let task = record (s.tasks current) {
        wake_tick = add64 s.system_ticks ticks;
        state = sleeping;
      } in
      let asleep = record (irq_save s) { tasks = update s.tasks current task } in
      elim (skip_to_ready fuel asleep.tasks current task.next_task) [
        | none ↦ (stuck, asleep)
        | some next ↦
            if next == current
            then switch_to current s.idle_task asleep
            else switch_to current next asleep
      ]

unfoldable pub block_current_task : ℕ → Scheduler → Outcome × Scheduler
unfolding skip_to_ready
block_current_task fuel s =
    if s.current_task == null
    then (returns, s)
    else let current = s.current_task in
      elim (skip_to_ready fuel s.tasks current (s.tasks current).next_task) [
        | none ↦ (stuck, s)
        | some next ↦
            if next == current then switch_to current s.idle_task s else switch_to current next s
      ]

-- One round of `update_sleeping_tasks`.
abbrev pub wake_due : (current_tick task : ℕ) → Tasks → Tasks
wake_due current_tick task tasks =
    if is_sleeping (tasks task).state && leb (tasks task).wake_tick current_tick
    then set_state task ready tasks
    else tasks

unfoldable pub update_sleeping_loop :
    (fuel : ℕ) → (current_tick head task : ℕ) → Tasks → Option Tasks
update_sleeping_loop zero current_tick head task tasks = none
update_sleeping_loop (suc fuel) current_tick head task tasks =
    let woken = wake_due current_tick task tasks in
    let next = (woken task).next_task in
    let rest = update_sleeping_loop fuel current_tick head next woken in
    if task == null then none else if next == head then some woken else rest

unfoldable pub update_sleeping_tasks : ℕ → Scheduler → Option Scheduler
unfolding update_sleeping_loop
update_sleeping_tasks fuel s =
    if s.task_list == null
    then some s
    else elim (update_sleeping_loop fuel s.system_ticks s.task_list s.task_list s.tasks) [
      | none ↦ none
      | some tasks ↦ some (record s { tasks = tasks })
    ]
