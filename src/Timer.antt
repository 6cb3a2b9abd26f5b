-- ===== src/Timer.antt =====
-- kernel/arch/aarch64/timer.cpp: the ticks, and the interrupt that counts them.
--
-- `system_ticks` is a field of the scheduler's state, which reads it.
pub mod Tick
use planetoid_os.Base.{
  ℕ, ◌+◌, ◌*◌, ◌/◌, Bool, Option, none, some, ◌==◌, if◌then◌else◌, add64, mul64,
}
use planetoid_os.Scheduler.{Scheduler, Outcome, sleep, update_sleeping_tasks}
use planetoid_os.Preempt.{ExceptionContext, preempt}
use planetoid_os.Interrupts.{Handler, Handlers, register_handler}
use planetoid_os.Gic.{Writes}

-- The counts of the file, and the timer's registers `CNTP_TVAL_EL0` and `CNTP_CTL_EL0`.
pub record Timer : Type 0 where
  pub timer_ticks : ℕ
  pub timer_frequency : ℕ
  pub tval : ℕ
  pub ctl : ℕ

-- What an interrupt finds: the kernel, and the registers that its return restores.
pub record Kernel : Type 0 where
  pub scheduler : Scheduler
  pub context : Option ExceptionContext
  pub timer : Timer
  pub gic : Writes

unfoldable pub on_interrupt : Kernel → Kernel
on_interrupt k = record k {
  timer = record (k.timer) { tval = k.timer.timer_ticks };
  scheduler = record (k.scheduler) { system_ticks = add64 k.scheduler.system_ticks 1 };
}

abbrev pub preempt_kernel : (fuel : ℕ) → Kernel → Option Kernel
preempt_kernel fuel k = elim (preempt fuel k.context k.scheduler) [
  | none ↦ none
  | some (context, scheduler) ↦ some (record k { context = context; scheduler = scheduler })
]

-- `none`: a walk of the list of tasks ran out of fuel.
unfoldable pub on_timer_interrupt : (fuel interrupt_id : ℕ) → Option Kernel → Option Kernel
on_timer_interrupt fuel interrupt_id none = none
on_timer_interrupt fuel interrupt_id (some k) =
    let counted = on_interrupt k in
    elim (update_sleeping_tasks fuel counted.scheduler) [
      | none ↦ none
      | some scheduler ↦ preempt_kernel fuel (record counted { scheduler = scheduler })
    ]

-- `counter_frequency` is what `CNTFRQ_EL0` holds; dividing by zero is undefined, `none`.
unfoldable pub init :
    (fuel counter_frequency frequency : ℕ)
    → Handlers (Option Kernel)
    → Kernel
    → Option (Handlers (Option Kernel) × Kernel)
init fuel counter_frequency frequency handlers k =
    let ticks = counter_frequency / frequency in
    let timer : Timer = record {
      timer_ticks = ticks;
      timer_frequency = frequency;
      tval = ticks;
      ctl = 1;
    } in
    if frequency == 0
    then none
    else some (
      (register_handler (Option Kernel) 30 (some (on_timer_interrupt fuel)) handlers).1,
      record k { timer = timer },
    )

unfoldable pub get_ticks : Kernel → ℕ
get_ticks k = k.scheduler.system_ticks

unfoldable pub delay : (fuel ticks : ℕ) → Scheduler → Outcome × Scheduler
delay fuel ticks s = sleep fuel ticks s

unfoldable pub get_frequency : Kernel → ℕ
get_frequency k = k.timer.timer_frequency

unfoldable pub get_milliseconds : Kernel → Option ℕ
get_milliseconds k =
    if k.timer.timer_frequency == 0
    then none
    else some (mul64 k.scheduler.system_ticks 1000 / k.timer.timer_frequency)
