-- ===== src/Examples/Traps.antt =====
-- A data abort and a timer interrupt, for kernel/arch/aarch64/exception.cpp and kernel/arch/aarch64/timer.cpp.
use planetoid_os.Base.{
  ◌%◌, ◌≡◌, refl, false, Option, none, some, [], ◌∷◌, arith, ◌==◌, if◌then◌else◌,
}
use planetoid_os.Log.{Buffer}
use planetoid_os.Preempt.{ExceptionContext}
use planetoid_os.Interrupts.{Handlers}
use planetoid_os.Timer.{Kernel, on_timer_interrupt}
use planetoid_os.Timer.Tick.{IsTicked, irq_exception_handler-wakes}
use planetoid_os.Exception.{decode_abort_error, sync_exception_handler, irq_exception_handler}
use planetoid_os.Exception.Faults.{described, decode_abort_error-described}
use planetoid_os.Exception.Lines.{printed, report}
use planetoid_os.Exception.Report.{sync_exception_handler-report}
use planetoid_os.Examples.Tasks.{three, three-IsRing}

abbrev noise : Buffer
noise x = 0xFF

-- A write by the kernel to an address that is not mapped.
abbrev fault : ExceptionContext
fault = record {
  x = λ i. 0;
  elr = 0x40080010;
  esr = 0x96000045;
  far = 0x80000000;
  spsr = 5;
  sp = 0x40100000;
}

decode_abort_error-described_example : decode_abort_error 0x96000045 ≡ described (0x96000045 % 64)
decode_abort_error-described_example = decode_abort_error-described 0x96000045

sync_exception_handler-report_example :
    sync_exception_handler noise fault ≡ some (printed (report fault))
sync_exception_handler-report_example =
    sync_exception_handler-report noise fault (omega arith) (omega arith) (omega arith)
      (omega arith)

-- Task 1 runs, and task 2 behind it sleeps until tick 7.
abbrev kernel : Kernel
kernel = record {
  scheduler = three;
  context = some fault;
  timer = record { timer_ticks = 625000; timer_frequency = 100; tval = 0; ctl = 1 };
  gic = [];
}

abbrev handlers : Handlers (Option Kernel)
handlers i = if i == 30 then some (on_timer_interrupt 4) else none

irq_exception_handler-wakes_example :
    (t : Kernel) × (irq_exception_handler false 30 handlers kernel
      ≡ some (record t { gic = (0x08010010, 30) ∷ t.gic }))
    × IsTicked kernel (1 ∷ 2 ∷ 3 ∷ []) fault 2 (some t)
irq_exception_handler-wakes_example =
    irq_exception_handler-wakes false 4 handlers kernel fault (2 ∷ 3 ∷ []) 2 (3 ∷ []) refl refl
      three-IsRing three-IsRing (omega arith) (omega arith) (omega arith) refl refl refl
      (omega arith)
