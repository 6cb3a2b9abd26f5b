-- ===== src/Examples/Running.antt =====
-- The three tasks after `start`, for kernel/core/task/scheduler.cpp.
use planetoid_os.Base.{ℕ, ◌≡◌, refl, sym, ◌∙◌, false, some, [], ◌∷◌, arith, ◌==◌, if◌then◌else◌}
use planetoid_os.Task.{is_running, ready, running, sleeping, blocked}
use planetoid_os.Scheduler.{Scheduler, status, start, yield, terminate_current}
use planetoid_os.WaitQueue.Fifo.{member}
use planetoid_os.Running.{IsScheduled}
use planetoid_os.Running.Reach.{System, yields, terminates, here, next, Reach-IsScheduled}
use planetoid_os.Scheduler.Ring.{first_ready}
use planetoid_os.Preempt.{ExceptionContext, preempt}
use planetoid_os.Preempt.Context.{IsSwitched, preempt-IsSwitched}
use planetoid_os.Examples.Tasks.{task, three, three-IsRing}

-- Before `start` the tasks 1 and 3 are ready, and the launch context 8 is marked as running.
abbrev before_start : Scheduler
before_start = record three {
  tasks = λ t.
      if t == 1
      then task ready 2 0
      else if t == 2
      then task sleeping 3 0
      else if t == 3
      then task ready 1 0
      else if t == 8
      then task running 0 0
      else task blocked 0 0;
  current_task = 0;
}

none_runs : (x : ℕ) → member x (8 ∷ []) ≡ false → is_running (status before_start x) ≡ false
none_runs x apart = ground arith

-- Task 1 yields, and task 3 ends.
abbrev yielded : System
yielded = record { scheduler = (yield 4 (start before_start).1).1; dead = 8 ∷ [] }

abbrev ended : System
ended = record {
  scheduler = (terminate_current 4 yielded.scheduler).1;
  dead = yielded.scheduler.current_task ∷ 8 ∷ [];
}

Reach-IsScheduled_example : IsScheduled ended.dead ended.scheduler
Reach-IsScheduled_example =
    Reach-IsScheduled (8 ∷ []) before_start ended none_runs
      (next (next here (yields 4)) (terminates 4))

abbrev interrupted : ExceptionContext
interrupted = record { x = λ i. i; elr = 0x40080000; esr = 0; far = 0; spsr = 5; sp = 0x40100000 }

three_ready : first_ready three.tasks (2 ∷ 3 ∷ []) 1 ≡ 3
unfolding first_ready
three_ready = refl

preempt-IsSwitched_example :
    IsSwitched three interrupted
      (first_ready three.tasks (2 ∷ 3 ∷ []) 1)
      (preempt 4 (some interrupted) three)
preempt-IsSwitched_example =
    preempt-IsSwitched 4 three interrupted (2 ∷ 3 ∷ []) three-IsRing (omega arith) (omega arith)
      refl (λ e. absurd (omega (arith, sym three_ready ∙ e)))
