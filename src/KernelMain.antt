-- ===== src/KernelMain.antt =====
-- `kernel_main` of kernel/kernel.cpp: the order in which the kernel starts its parts.
--
-- What the hardware's registers read and what the linker places are arguments, as in the parts. The
-- endless loop of `halt` behind `Scheduler::start` is not entered while a task runs.
pub mod Memory
use planetoid_os.Base.{
  ℕ, zero, suc, ◌+◌, ◌-◌, ◌*◌, ◌/◌, ◌%◌, ◌^◌, ◌≤◌, ◌<◌, ◌≡◌, ◌≢◌, refl, sym, ap, ap₂, ◌∙◌, subst,
  fun_ext, ◌↔◌, ◌⊎◌, inl, inr, Bool, true, false, not, ◌&&◌, ◌||◌, Option, none, some, List, [],
  ◌∷◌, ◌++◌, map, reverse, arith, min, max, bit_and, bit_or, ltb, leb, ◌==◌, if◌then◌else◌, ltb→lt,
  lt→ltb, ltb→le, le→ltb, ==→eq, ==→ne, eq→==, ne→==, Bool-cases, Option-cases, length, get_elem?,
  replicate, All, length-append, length-replicate, u64_mod, u32_mod, add64, sub64, mul64, not64,
  ◌<<◌, ◌>>◌, update, update_self, update-ne, for_range,
}
use Prim.Native.String.{String}
use planetoid_os.PhysicalMemory
use planetoid_os.PhysicalMemory.{Platform}
use planetoid_os.Mmu.{Mmu, maintain, instruction_barrier}
use planetoid_os.BootTables
use planetoid_os.BootTables.{BootTables, MemorySections, TranslationRegisters}
use planetoid_os.VirtualMemory
use planetoid_os.VirtualMemory.{VirtualMemory}
use planetoid_os.KernelHeap
use planetoid_os.KernelHeap.{Heap}
use planetoid_os.Log.{Text, Buffer, codes, info}
use planetoid_os.Gic
use planetoid_os.Interrupts
use planetoid_os.Interrupts.{Handlers}
use planetoid_os.Timer
use planetoid_os.Timer.{Kernel}
use planetoid_os.Mutex
use planetoid_os.Mutex.{MutexState}
use planetoid_os.Scheduler.{Scheduler, Outcome, add_task, start}
use planetoid_os.Startup
use planetoid_os.Creation.{create_task}

pub record KernelState : Type 0 where
  pub handlers : Handlers (Option Kernel)
  pub devices : Kernel
  pub registers : TranslationRegisters
  pub sctlr : ℕ
  pub heap : Heap
  pub mutex : MutexState
  pub output : List Text

-- `MMU::enable`
unfoldable pub enable : ℕ → Mmu → ℕ × Mmu
enable sctlr s = (bit_or sctlr 1, maintain instruction_barrier s)

-- `enable_interrupts`
unfoldable pub enable_interrupts : Scheduler → Scheduler
enable_interrupts s = record s { daif = bit_and s.daif (not64 0x80) }

-- `Option` as a chain of calls: `none` is a call that does not return.
infixl 5 ◌>>=◌
abbrev ◌>>=◌ : {A B : Type 0} → Option A → (A → Option B) → Option B
none >>= f = none
some a >>= f = f a

module _ (p : Platform) (tables : BootTables) where
  -- `MMU::init` and `MMU::enable`.
  unfoldable pub start_mmu : MemorySections → KernelState → KernelState
  unfolding enable
  start_mmu sections k =
      let (registers, mapped) = BootTables.init p.pi5 tables sections k.heap.memory.mmu in
      let (sctlr, enabled) = enable k.sctlr mapped in
      record k {
        registers = registers;
        sctlr = sctlr;
        heap = record (k.heap) { memory = record (k.heap.memory) { mmu = enabled } };
      }

  -- The initialisers of the two allocators and the heap.
  unfoldable pub start_memory : KernelState → KernelState
  start_memory k =
      let mmu = k.heap.memory.mmu in
      let counted = record mmu { physical = PhysicalMemory.init p mmu.physical } in
      let paged = VirtualMemory.init (record (k.heap.memory) { mmu = counted }) in
      record k { heap = KernelHeap.init p tables.level1_table (record (k.heap) { memory = paged }) }

  abbrev set_scheduler : Scheduler → KernelState → KernelState
  set_scheduler s k = record k { devices = record (k.devices) { scheduler = s } }

  module _ (fuel trampoline : ℕ) where
    -- `Scheduler::init`
    unfoldable pub start_scheduler : (idle_task_func : ℕ) → KernelState → Option KernelState
    start_scheduler idle_task_func k = do
      (heap, s) ←
          Startup.init p tables.level1_table fuel trampoline idle_task_func k.heap
            k.devices.scheduler
      some (set_scheduler s (record k { heap = heap }))

    -- `Task::create_task` with a stack of 4096 bytes: the task's address.
    unfoldable pub start_task : (function : ℕ) → KernelState → Option (ℕ × KernelState)
    start_task function k = do
      (task, m) ←
          create_task p tables.level1_table fuel trampoline function 4096
            (record { heap = k.heap; tasks = k.devices.scheduler.tasks })
      some (
        task,
        set_scheduler (record (k.devices.scheduler) { tasks = m.tasks })
            (record k { heap = m.heap }),
      )

    -- The mutex and the two tasks.
    unfoldable pub start_tasks : (task_a_func task_b_func : ℕ) → KernelState → Option KernelState
    unfolding start_task
    start_tasks task_a_func task_b_func k = do
      (task_a, k₁) ← start_task task_a_func (record k { mutex = Mutex.init k.mutex })
      (task_b, k₂) ← start_task task_b_func k₁
      some (set_scheduler (add_task task_b (add_task task_a k₂.devices.scheduler)) k₂)

  -- The timer's interrupt, 100 ticks a second, and the interrupts enabled.
  unfoldable pub start_timer : (fuel counter_frequency : ℕ) → KernelState → Option KernelState
  unfolding enable_interrupts
  start_timer fuel counter_frequency k = do
    let ready = record (k.devices) { gic = Gic.enable_interrupt p.pi5 30 k.devices.gic }
    (handlers, devices) ← Timer.init fuel counter_frequency 100 k.handlers ready
    some (record k {
      handlers = handlers;
      devices = record devices { scheduler = enable_interrupts devices.scheduler };
    })

-- `Log::info` of a line without directives; `stack` is what the buffer holds before.
unfoldable pub print : (stack : Buffer) → String → KernelState → Option KernelState
print stack line k = do
  texts ← info stack (codes line) []
  some (record k { output = k.output ++ texts })

-- The addresses of the four functions, what `GICD_TYPER` and `CNTFRQ_EL0` read, and the fuel for the
-- walks of the heap and the tasks.
pub record Environment : Type 0 where
  pub trampoline : ℕ
  pub idle_task_func : ℕ
  pub task_a_func : ℕ
  pub task_b_func : ℕ
  pub typer : ℕ
  pub counter_frequency : ℕ
  pub fuel : ℕ
  pub stack : Buffer

abbrev start_interrupts : (pi5 : Bool) → Environment → KernelState → KernelState
start_interrupts pi5 e k = record k {
  handlers = Interrupts.init (Option Kernel) k.handlers;
  devices = record (k.devices) { gic = Gic.init pi5 e.typer k.devices.gic };
}

-- The outcome is that of `Scheduler::start`.
unfoldable pub kernel_main :
    (p : Platform)
    → BootTables
    → MemorySections
    → Environment
    → KernelState
    → Option (Outcome × KernelState)
unfolding start_mmu start_memory start_scheduler start_tasks start_timer print
kernel_main p tables sections e k = do
  k₁ ← print e.stack "PlanetoidOS" k
  k₂ ← print e.stack "UART Initialised." k₁
  k₃ ← print e.stack "GIC initialised!" (start_interrupts p.pi5 e k₂)
  k₄ ← print e.stack "MMU Enabled!" (start_mmu p tables sections k₃)
  k₅ ← print e.stack "Memory initialised" (start_memory p tables k₄)
  k₆ ← start_scheduler p tables e.fuel e.trampoline e.idle_task_func k₅
  k₇ ← print e.stack "Scheduler initialised" k₆
  k₈ ← start_tasks p tables e.fuel e.trampoline e.task_a_func e.task_b_func k₇
  k₉ ← start_timer p tables e.fuel e.counter_frequency k₈
  let (outcome, s) = start k₉.devices.scheduler
  some (outcome, record k₉ { devices = record (k₉.devices) { scheduler = s } })
