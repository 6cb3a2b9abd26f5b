-- ===== src/Preempt.antt =====
-- `Scheduler::preempt` of kernel/core/task/scheduler.cpp, and the exception context of
-- kernel/arch/aarch64/exception.hpp that it reads and overwrites.
pub mod Context
use planetoid_os.Base.{ℕ, zero, suc, not, Option, none, some, ◌==◌, if◌then◌else◌, update}
use planetoid_os.Task.{CpuContext, Tasks, null, ready, running, is_ready, is_running}
use planetoid_os.Scheduler.{Scheduler, status, mark, skip_to_ready, cleanup_terminated_task}

pub record ExceptionContext : Type 0 where
  pub x : ℕ → ℕ
  pub elr : ℕ
  pub esr : ℕ
  pub far : ℕ
  pub spsr : ℕ
  pub sp : ℕ

-- The registers that the exception's return will restore become those of the task.
abbrev pub load_context : CpuContext → ExceptionContext → ExceptionContext
load_context c context = record context { x = c.x; sp = c.sp; elr = c.pc; spsr = c.pstate }

-- The task remembers the registers that it was interrupted with.
abbrev pub save_context : ℕ → ExceptionContext → Scheduler → Scheduler
save_context task context s =
    let c : CpuContext = record {
      x = context.x;
      sp = context.sp;
      pc = context.elr;
      pstate = context.spsr;
    } in
    record s { tasks = update s.tasks task (record (s.tasks task) { cpu_context = c }) }

-- The search of the idle branch, which begins at `task_list`. `some null` finds nothing.
unfoldable pub search_from_idle : (fuel : ℕ) → Tasks → (task_list task : ℕ) → Option ℕ
search_from_idle zero tasks task_list task = none
search_from_idle (suc fuel) tasks task_list task =
    let next = (tasks task).next_task in
    let rest = search_from_idle fuel tasks task_list next in
    if task == null
    then some null
    else if is_ready (tasks task).state
    then some task
    else if next == task_list
    then some null
    else rest

abbrev pub dispatch_to : ℕ → ExceptionContext → Scheduler → ExceptionContext × Scheduler
dispatch_to next context s = (
  load_context (s.tasks next).cpu_context context,
  mark next running (record s { current_task = next }),
)

-- `preempt` of an interrupted task, after the cleanup.
unfoldable pub preempt_running :
    ℕ → ExceptionContext → Scheduler → Option (ExceptionContext × Scheduler)
preempt_running fuel context s =
    let current = s.current_task in
    let saved = mark current ready (save_context current context s) in
    elim (skip_to_ready fuel saved.tasks current (saved.tasks current).next_task) [
      | none ↦ none
      | some next ↦
          if next == current
          then some (context, mark current running saved)
          else some (dispatch_to next context saved)
    ]

-- `preempt` of the idle task, after the cleanup.
unfoldable pub preempt_idle :
    ℕ → ExceptionContext → Scheduler → Option (ExceptionContext × Scheduler)
preempt_idle fuel context s = elim (search_from_idle fuel s.tasks s.task_list s.task_list) [
  | none ↦ none
  | some next ↦ if next == null then some (context, s) else some (dispatch_to next context s)
]

-- `preempt` from the test on the idle task on.
unfoldable pub preempt_cleaned :
    ℕ → ExceptionContext → Scheduler → Option (ExceptionContext × Scheduler)
preempt_cleaned fuel context s =
    if s.current_task == s.idle_task
    then preempt_idle fuel context s
    else if not (is_running (status s s.current_task))
    then some (context, s)
    else preempt_running fuel context s

-- A null context is `none`.
unfoldable pub preempt :
    ℕ → Option ExceptionContext → Scheduler → Option (Option ExceptionContext × Scheduler)
preempt fuel none s = some (none, s)
preempt fuel (some context) s =
    if s.current_task == null
    then some (some context, s)
    else elim (preempt_cleaned fuel context (cleanup_terminated_task s)) [
      | none ↦ none
      | some (context', s') ↦ some (some context', s')
    ]
