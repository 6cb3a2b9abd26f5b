-- ===== src/Running.antt =====
-- Which tasks run, over every order of the calls of kernel/core/task/scheduler.cpp,
-- kernel/core/task/wait_queue.cpp and the timer's interrupt.
pub mod Ends
pub mod Reach
use planetoid_os.Base.{
  ℕ, zero, suc, ◌+◌, ◌-◌, ◌*◌, ◌/◌, ◌%◌, ◌^◌, ◌≤◌, ◌<◌, ◌≡◌, ◌≢◌, refl, sym, ap, ap₂, ◌∙◌, subst,
  fun_ext, ◌↔◌, ◌⊎◌, inl, inr, Bool, true, false, not, ◌&&◌, ◌||◌, Option, none, some, List, [],
  ◌∷◌, ◌++◌, map, reverse, arith, min, max, bit_and, bit_or, ltb, leb, ◌==◌, if◌then◌else◌, ltb→lt,
  lt→ltb, ltb→le, le→ltb, ==→eq, ==→ne, eq→==, ne→==, Bool-cases, Option-cases, length, get_elem?,
  replicate, All, length-append, length-replicate, u64_mod, u32_mod, add64, sub64, mul64, not64,
  ◌<<◌, ◌>>◌, update, update_self, update-ne, for_range,
}
use planetoid_os.Task.{
  Tasks, TaskStatus, null, ready, running, sleeping, blocked, is_running, set_state,
}
use planetoid_os.Scheduler.{
  Scheduler, Outcome, returns, switches, parks, stuck, status, mark, irq_save, switch_to,
  skip_to_ready, yield, sleep, start, block_current_task, terminate_current, queue_cleanup,
  remove_task, find_next_ready_task, find_previous, add_task, update_sleeping_tasks,
  cleanup_terminated_task,
}
use planetoid_os.Preempt.{
  ExceptionContext, preempt, preempt_running, save_context, search_from_idle, dispatch_to,
}
use planetoid_os.WaitQueue.{TaskWaitQueue, block_current, enqueue, wake_one}
use planetoid_os.WaitQueue.Fifo.{member}

-- No task but the idle one and the dead ones is running.
abbrev pub AreStill : (idle : ℕ) (dead : List ℕ) → Tasks → Type 0
AreStill idle dead tasks =
    (x : ℕ) → x ≢ idle → member x dead ≡ false → is_running (tasks x).state ≡ false

-- No task but the current one, the idle one and the dead ones is running.
abbrev pub IsScheduled : (dead : List ℕ) → Scheduler → Type 0
IsScheduled dead s =
    (x : ℕ)
    → x ≢ s.current_task
    → x ≢ s.idle_task
    → member x dead ≡ false
    → is_running (status s x) ≡ false

pub switch_to-IsScheduled :
    (dead : List ℕ) (s : Scheduler) (previous next : ℕ)
    → AreStill s.idle_task dead s.tasks
    → IsScheduled dead (switch_to previous next s).1
unfolding update
switch_to-IsScheduled dead s previous next still x other not_idle alive =
    ground (arith, still x not_idle alive)

-- The idle task may run.
pub switch_to_idle-IsScheduled :
    (dead : List ℕ) (s : Scheduler) (previous : ℕ)
    → AreStill s.idle_task dead s.tasks
    → IsScheduled dead (switch_to previous s.idle_task s).1
switch_to_idle-IsScheduled dead s previous = switch_to-IsScheduled dead s previous s.idle_task

module _ (dead : List ℕ) (s : Scheduler) (scheduled : IsScheduled dead s) where
  -- The tasks after the current one is marked as one that does not run.
  pub stopped :
      (status : TaskStatus)
      → is_running status ≡ false
      → AreStill s.idle_task dead (set_state s.current_task status s.tasks)
  unfolding update
  stopped status stops x not_idle alive = elim (Bool-cases (x == s.current_task)) [
    | inl here ↦ ground arith
    | inr elsewhere ↦ ground (arith, scheduled x (==→ne x s.current_task elsewhere) not_idle alive)
  ]

  pub yield-IsScheduled : (fuel : ℕ) → IsScheduled dead (yield fuel s).1
  unfolding yield
  yield-IsScheduled fuel = elim (Bool-cases (s.current_task == 0)) [
    | inl none_runs ↦ rw none_runs scheduled
    | inr some_runs ↦
        rw some_runs
          (elim (Option-cases
            (skip_to_ready fuel s.tasks s.current_task (s.tasks s.current_task).next_task)) [
              | inl fails ↦ rw fails scheduled
              | inr (next, found) ↦ rw found (elim (Bool-cases (next == s.current_task)) [
                | inl alone ↦ rw alone scheduled
                | inr another ↦ rw another (
                    switch_to-IsScheduled dead (mark s.current_task ready (irq_save s))
                      s.current_task next (stopped ready refl))
              ])
            ])
  ]

-- `block_current_task` when the current task is already marked.
block_current_task-IsScheduled :
    (dead : List ℕ) (fuel : ℕ) (s : Scheduler)
    → AreStill s.idle_task dead s.tasks
    → IsScheduled dead (block_current_task fuel s).1
unfolding block_current_task
block_current_task-IsScheduled dead fuel s still = elim (Bool-cases (s.current_task == 0)) [
  | inl none_runs ↦ rw none_runs (λ x other. still x)
  | inr some_runs ↦
      rw some_runs
        (elim (Option-cases
          (skip_to_ready fuel s.tasks s.current_task (s.tasks s.current_task).next_task)) [
            | inl fails ↦ rw fails (λ x other. still x)
            | inr (next, found) ↦ rw found (elim (Bool-cases (next == s.current_task)) [
              | inl alone ↦ rw alone (switch_to_idle-IsScheduled dead s s.current_task still)
              | inr another ↦ rw another (switch_to-IsScheduled dead s s.current_task next still)
            ])
          ])
]

enqueue-AreStill :
    (dead : List ℕ) (s : Scheduler) (queue : TaskWaitQueue)
    → IsScheduled dead s
    → AreStill s.idle_task dead (enqueue s.current_task queue s.tasks).1
unfolding enqueue update
enqueue-AreStill dead s queue scheduled x not_idle alive = elim (Bool-cases (x == s.current_task)) [
  | inl here ↦ ground arith
  | inr elsewhere ↦ ground (arith, scheduled x (==→ne x s.current_task elsewhere) not_idle alive)
]

module _ (dead : List ℕ) (s : Scheduler) (scheduled : IsScheduled dead s) where
  pub block_current-IsScheduled :
      (fuel : ℕ) (queue : TaskWaitQueue) → IsScheduled dead (block_current fuel queue s).2
  unfolding block_current
  block_current-IsScheduled fuel queue = elim (Bool-cases (s.current_task == 0)) [
    | inl none_runs ↦ rw none_runs scheduled
    | inr some_runs ↦ rw some_runs (
        block_current_task-IsScheduled dead fuel
          (record s { tasks = (enqueue s.current_task queue s.tasks).1 })
          (enqueue-AreStill dead s queue scheduled))
  ]

  -- The state of `sleep` once the current task is marked.
  abbrev asleep : ℕ → Scheduler
  asleep ticks = record (irq_save s) {
    tasks = update s.tasks s.current_task (record (s.tasks s.current_task) {
      wake_tick = add64 s.system_ticks ticks;
      state = sleeping;
    });
  }

  asleep-AreStill : (ticks : ℕ) → AreStill s.idle_task dead (asleep ticks).tasks
  unfolding update
  asleep-AreStill ticks x not_idle alive = elim (Bool-cases (x == s.current_task)) [
    | inl here ↦ ground arith
    | inr elsewhere ↦ ground (arith, scheduled x (==→ne x s.current_task elsewhere) not_idle alive)
  ]

  pub sleep-IsScheduled : (fuel ticks : ℕ) → IsScheduled dead (sleep fuel ticks s).1
  unfolding sleep
  sleep-IsScheduled fuel ticks = elim (Bool-cases ((s.current_task == 0) || (ticks == 0))) [
    | inl returns_at_once ↦ rw returns_at_once scheduled
    | inr goes_on ↦
        rw goes_on
          (elim (Option-cases (
            skip_to_ready fuel (asleep ticks).tasks s.current_task
              (s.tasks s.current_task).next_task)) [
                | inl fails ↦ rw fails (λ x other. asleep-AreStill ticks x)
                | inr (next, found) ↦ rw found (elim (Bool-cases (next == s.current_task)) [
                  | inl alone ↦ rw alone (
                      switch_to_idle-IsScheduled dead (asleep ticks) s.current_task
                        (asleep-AreStill ticks))
                  | inr another ↦ rw another (
                      switch_to-IsScheduled dead (asleep ticks) s.current_task next
                        (asleep-AreStill ticks))
                ])
              ])
  ]
