-- ===== src/Startup.antt =====
-- `Scheduler::init` of kernel/core/task/scheduler.cpp, which creates the launch context and the idle task.
use planetoid_os.Base.{ℕ, Option, none, some, ◌==◌, if◌then◌else◌}
use planetoid_os.PhysicalMemory.{Platform}
use planetoid_os.Task.{null, ready, running}
use planetoid_os.KernelHeap.{Heap}
use planetoid_os.Creation.{create_task, create_blank_task}
use planetoid_os.Scheduler.{Scheduler, mark}

unfoldable pub get_current_task : Scheduler → ℕ
get_current_task s = s.current_task

module _ (p : Platform) (level1_table fuel : ℕ) where
  -- The state of the scheduler once its pointers are cleared; the tasks are those in the heap.
  abbrev cleared : Scheduler → Scheduler
  cleared s = record s {
    current_task = null;
    task_list = null;
    pending_cleanup_head = null;
    pending_cleanup_tail = null;
  }

  -- The second half, behind the launch context. A failed creation is a write through a null
  -- pointer, `none`; so is a walk of the heap that ran out of fuel.
  abbrev pub init_idle :
      (trampoline idle_task_func : ℕ) → Heap → Scheduler → Option (Heap × Scheduler)
  init_idle trampoline idle_task_func heap s =
      elim (create_task p level1_table fuel trampoline idle_task_func 4096
        (record { heap = heap; tasks = s.tasks })) [
          | none ↦ none
          | some (idle, m) ↦
              if idle == null
              then none
              else some (m.heap, mark idle ready (record s { tasks = m.tasks; idle_task = idle }))
        ]

  unfoldable pub init :
      (trampoline idle_task_func : ℕ) → Heap → Scheduler → Option (Heap × Scheduler)
  init trampoline idle_task_func heap s =
      let start = cleared s in
      elim (create_blank_task p level1_table fuel (record { heap = heap; tasks = start.tasks })) [
        | none ↦ none
        | some (launch, m) ↦
            if launch == null
            then none
            else init_idle trampoline idle_task_func m.heap
                (mark launch running (record start { tasks = m.tasks; launch_context = launch }))
      ]
