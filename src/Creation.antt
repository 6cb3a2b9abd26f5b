-- ===== src/Creation.antt =====
-- kernel/core/task/task.cpp: the creation of tasks in memory of the heap.
pub mod Leaks
pub mod Started
use planetoid_os.Base.{
  ℕ, ◌+◌, Bool, Option, none, some, ◌||◌, bit_and, ◌==◌, if◌then◌else◌, add64, not64, update,
  for_range,
}
use planetoid_os.PhysicalMemory.{Platform}
use planetoid_os.Task.{CpuContext, TaskState, Tasks, ready, null}
use planetoid_os.KernelHeap.{Heap, kmalloc, kfree}

-- The heap, and the tasks that stand in its memory.
pub record Machine : Type 0 where
  pub heap : Heap
  pub tasks : Tasks

-- `sizeof(TaskState)`: 34 registers, the stack's base and size, the state padded to 8 bytes, the tick
-- and three pointers.
abbrev pub task_size : ℕ
task_size = 328

abbrev pub align_stack_size : ℕ → ℕ
align_stack_size stack_size = bit_and (add64 stack_size 15) (not64 15)

-- The loop that clears the registers. Its last round is one past `x`, where `sp` stands, which is set
-- afterwards; so is `pc`.
abbrev pub clear_registers : CpuContext → CpuContext
clear_registers c = record c { x = for_range 31 0 (λ i (x : ℕ → ℕ). update x i 0) c.x; sp = 0 }

-- What both functions write to a task. They leave `cleanup_next` as it was.
abbrev pub fill_task : (pc stack stack_size : ℕ) → TaskState → TaskState
fill_task pc stack stack_size t = record t {
  cpu_context = record (clear_registers t.cpu_context) {
    sp = add64 stack stack_size;
    pc = pc;
    pstate = 0x5;
  };
  stack_base = stack;
  stack_size = stack_size;
  state = ready;
  wake_tick = 0;
  next_task = null;
  wait_next = null;
}

abbrev pub set_entry_point : (entry_point : ℕ) → TaskState → TaskState
set_entry_point entry_point t = record t {
  cpu_context = record (t.cpu_context) { x = update t.cpu_context.x 19 entry_point };
}

module _ (p : Platform) (level1_table fuel : ℕ) where
  -- Memory for a task and its stack, as both functions take it; the task's is given back if there is
  -- none for the stack. `none`: a walk of the heap ran out of fuel.
  unfoldable pub allocate_task :
      (stack_size : ℕ) (fill : (stack : ℕ) → TaskState → TaskState) → Machine → Option (ℕ × Machine)
  allocate_task stack_size fill m = elim (kmalloc p level1_table fuel task_size m.heap) [
    | none ↦ none
    | some (task, heap) ↦
        if task == null
        then some (null, record m { heap = heap })
        else elim (kmalloc p level1_table fuel stack_size heap) [
          | none ↦ none
          | some (stack, heap') ↦
              if stack == null
              then elim (kfree p level1_table fuel task heap') [
                | none ↦ none
                | some heap'' ↦ some (null, record m { heap = heap'' })
              ]
              else some (
                task,
                record { heap = heap'; tasks = update m.tasks task (fill stack (m.tasks task)) },
              )
        ]
  ]

  -- `trampoline` is the address of `task_entry_trampoline`.
  unfoldable pub create_task :
      (trampoline entry_point stack_size : ℕ) → Machine → Option (ℕ × Machine)
  create_task trampoline entry_point stack_size m =
      let aligned = align_stack_size stack_size in
      if (entry_point == null) || (stack_size == 0)
      then some (null, m)
      else allocate_task aligned
          (λ stack t. set_entry_point entry_point (fill_task trampoline stack aligned t)) m

  unfoldable pub create_blank_task : Machine → Option (ℕ × Machine)
  create_blank_task m =
      let aligned = align_stack_size 4096 in
      allocate_task aligned (λ stack t. fill_task 0 stack aligned t) m
