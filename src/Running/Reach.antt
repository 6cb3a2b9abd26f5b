-- ===== src/Running/Reach.antt =====
-- The states that any order of calls reaches after `start` of kernel/core/task/scheduler.cpp.
use planetoid_os.Base.{
  ℕ, zero, suc, ◌≡◌, subst, false, Option, some, List, ◌∷◌, arith, add64, update,
}
use planetoid_os.Task.{Tasks, is_running}
use planetoid_os.Scheduler.{
  Scheduler, status, yield, sleep, start, terminate_current, add_task, update_sleeping_tasks,
  update_sleeping_loop, wake_due,
}
use planetoid_os.Preempt.{ExceptionContext, preempt}
use planetoid_os.WaitQueue.{TaskWaitQueue, block_current, wake_one}
use planetoid_os.WaitQueue.Fifo.{member}
use planetoid_os.Running.{
  IsScheduled, yield-IsScheduled, block_current-IsScheduled, sleep-IsScheduled,
}
use planetoid_os.Running.Ends.{IsScheduledAfter, terminate_current-IsScheduled, preempt-IsScheduled}

-- The scheduler, and the tasks that have ended or never take part.
pub record System : Type 0 where
  pub scheduler : Scheduler
  pub dead : List ℕ

-- One call, by a task or by the timer's interrupt.
pub data Step (w : System) : System → Type 0 where
  yields : (fuel : ℕ) → Step w (record w { scheduler = (yield fuel w.scheduler).1 })
  sleeps :
      (fuel tick_count : ℕ)
      → Step w (record w { scheduler = (sleep fuel tick_count w.scheduler).1 })
  waits :
      (fuel : ℕ) (queue : TaskWaitQueue)
      → Step w (record w { scheduler = (block_current fuel queue w.scheduler).2 })
  wakes :
      (queue : TaskWaitQueue)
      → Step w (record w {
        scheduler = record (w.scheduler) { tasks = (wake_one queue w.scheduler.tasks).1 };
      })
  adds : (task : ℕ) → Step w (record w { scheduler = add_task task w.scheduler })
  terminates :
      (fuel : ℕ)
      → Step w (record {
        scheduler = (terminate_current fuel w.scheduler).1;
        dead = w.scheduler.current_task ∷ w.dead;
      })
  ticks :
      (fuel : ℕ) (s : Scheduler)
      → update_sleeping_tasks fuel w.scheduler ≡ some s
      → Step w (record w { scheduler = s })
  preempts :
      (fuel : ℕ) (context : Option ExceptionContext) (r : Option ExceptionContext × Scheduler)
      → preempt fuel context w.scheduler ≡ some r
      → Step w (record w { scheduler = r.1 })
  -- A change of the interrupt mask, and the timer's count.
  masks : (daif : ℕ) → Step w (record w { scheduler = record (w.scheduler) { daif = daif } })
  counts : Step w (record w {
    scheduler = record (w.scheduler) { system_ticks = add64 w.scheduler.system_ticks 1 };
  })

pub data Reach (w : System) : System → Type 0 where
  here : Reach w w
  next : {u v : System} → Reach w u → Step u v → Reach w v

wake_one-running :
    (queue : TaskWaitQueue) (tasks : Tasks) (x : ℕ)
    → is_running (tasks x).state ≡ false
    → is_running ((wake_one queue tasks).1 x).state ≡ false
unfolding wake_one update
wake_one-running queue tasks x stands = ground arith

add_task-running :
    (task : ℕ) (s : Scheduler) (x : ℕ)
    → is_running (status s x) ≡ false
    → is_running (status (add_task task s) x) ≡ false
unfolding add_task update
add_task-running task s x stands = ground arith

add_task-same :
    (task : ℕ) (s : Scheduler)
    → ((add_task task s).current_task ≡ s.current_task)
      × ((add_task task s).idle_task ≡ s.idle_task)
unfolding add_task
add_task-same task s = ground arith

wake_due-running :
    (tick task : ℕ) (tasks : Tasks) (x : ℕ)
    → is_running (tasks x).state ≡ false
    → is_running (wake_due tick task tasks x).state ≡ false
unfolding update
wake_due-running tick task tasks x stands = ground arith

update_sleeping_loop-running :
    (fuel tick head task : ℕ) (tasks tasks' : Tasks) (x : ℕ)
    → is_running (tasks x).state ≡ false
    → update_sleeping_loop fuel tick head task tasks ≡ some tasks'
    → is_running (tasks' x).state ≡ false
unfolding update_sleeping_loop
update_sleeping_loop-running zero tick head task tasks tasks' x stands e = absurd (ground arith)
update_sleeping_loop-running (suc fuel) tick head task tasks tasks' x stands e = ground (
  arith,
  wake_due-running tick task tasks x stands,
  update_sleeping_loop-running fuel tick head (wake_due tick task tasks task).next_task
      (wake_due tick task tasks) tasks' x (wake_due-running tick task tasks x stands),
)

update_sleeping_tasks-running :
    (fuel : ℕ) (s s' : Scheduler) (x : ℕ)
    → update_sleeping_tasks fuel s ≡ some s'
    → is_running (status s x) ≡ false
    → is_running (status s' x) ≡ false
unfolding update_sleeping_tasks
update_sleeping_tasks-running fuel s s' x e stands = ground (
  arith,
  update_sleeping_loop-running fuel s.system_ticks s.task_list s.task_list s.tasks s'.tasks x
      stands,
)

update_sleeping_tasks-same :
    (fuel : ℕ) (s s' : Scheduler)
    → update_sleeping_tasks fuel s ≡ some s'
    → (s'.current_task ≡ s.current_task) × (s'.idle_task ≡ s.idle_task)
unfolding update_sleeping_tasks
update_sleeping_tasks-same fuel s s' e = ground arith

Step-IsScheduled :
    {w w' : System} → Step w w' → IsScheduled w.dead w.scheduler → IsScheduled w'.dead w'.scheduler
Step-IsScheduled {w} (yields fuel) h = yield-IsScheduled w.dead w.scheduler h fuel
Step-IsScheduled {w} (sleeps fuel tick_count) h =
    sleep-IsScheduled w.dead w.scheduler h fuel tick_count
Step-IsScheduled {w} (waits fuel queue) h =
    block_current-IsScheduled w.dead w.scheduler h fuel queue
Step-IsScheduled {w} (wakes queue) h =
    λ x other not_idle alive. wake_one-running queue w.scheduler.tasks x (h x other not_idle alive)
Step-IsScheduled {w} (adds task) h = λ x other not_idle alive.
    ground (arith, add_task-same task w.scheduler, h x, add_task-running task w.scheduler x)
Step-IsScheduled {w} (terminates fuel) h = terminate_current-IsScheduled w.dead w.scheduler h fuel
Step-IsScheduled {w} (ticks fuel s e) h = λ x other not_idle alive. ground (
  arith,
  update_sleeping_tasks-same fuel w.scheduler s e,
  h x,
  update_sleeping_tasks-running fuel w.scheduler s x e,
)
Step-IsScheduled {w} (preempts fuel context r e) h =
    subst (IsScheduledAfter w.dead) e (preempt-IsScheduled w.dead w.scheduler h fuel context)
Step-IsScheduled (masks daif) h = h
Step-IsScheduled counts h = h

start-IsScheduled :
    (apart : List ℕ) (s : Scheduler)
    → ((x : ℕ) → member x apart ≡ false → is_running (status s x) ≡ false)
    → IsScheduled apart (start s).1
unfolding start update
start-IsScheduled apart s still x other not_idle alive = ground (arith, still x alive)

-- Where no task is running before `start` but those of `apart`, such as the launch context, then in
-- every order of whole calls after it, none of them interrupted by another (`terminate_current` and
-- `block_current_task` do not mask interrupts themselves), no task is running but the current one, the idle one, those that have
-- ended and those of `apart`.
pub Reach-IsScheduled :
    (apart : List ℕ) (s : Scheduler) (w : System)
    → ((x : ℕ) → member x apart ≡ false → is_running (status s x) ≡ false)
    → Reach (record { scheduler = (start s).1; dead = apart }) w
    → IsScheduled w.dead w.scheduler
Reach-IsScheduled apart s w still here = start-IsScheduled apart s still
Reach-IsScheduled apart s w still (next r step) =
    Step-IsScheduled step (Reach-IsScheduled apart s _ still r)
