-- ===== src/Timer/Tick.antt =====
-- The timer's interrupt, from `irq_exception_handler` of kernel/arch/aarch64/exception.cpp through the table of
-- handlers and kernel/arch/aarch64/timer.cpp to the scheduler.
use planetoid_os.Base.{
  ℕ, ◌≤◌, ◌<◌, ◌≡◌, ◌≢◌, refl, sym, ap, ◌∙◌, subst, fun_ext, inl, inr, Bool, true, false, Option,
  some, List, ◌∷◌, arith, leb, if◌then◌else◌, Bool-cases, length, add64,
}
use planetoid_os.Task.{
  TaskState, TaskStatus, Tasks, is_running, is_sleeping, ready, running, sleeping, blocked,
  terminated,
}
use planetoid_os.Scheduler.{Scheduler, status, update_sleeping_tasks}
use planetoid_os.Scheduler.Ring.{Links-ext, IsRing, first_ready}
use planetoid_os.Scheduler.Wake.{woken, update_sleeping_tasks_lem}
use planetoid_os.WaitQueue.Fifo.{member}
use planetoid_os.Preempt.{ExceptionContext, load_context, preempt}
use planetoid_os.Preempt.Context.{IsSwitched, preempt-IsSwitched}
use planetoid_os.Interrupts.{Handlers, dispatch_interrupt}
use planetoid_os.Timer.{Kernel, on_interrupt, on_timer_interrupt, preempt_kernel}
use planetoid_os.Gic.{end_interrupt}
use planetoid_os.Exception.{irq_exception_handler}

-- The tasks once the tick has woken the sleepers of the list `listed` that are due.
abbrev pub tasks_at : (tick : ℕ) (listed : List ℕ) → Tasks → Tasks
tasks_at tick listed tasks y = if member y listed then woken tick (tasks y) else tasks y

-- The scheduler when the timer's handler calls `preempt`.
abbrev pub ticked : (listed : List ℕ) → Scheduler → Scheduler
ticked listed s =
    let tick = add64 s.system_ticks 1 in
    record s { system_ticks = tick; tasks = tasks_at tick listed s.tasks }

-- The timer's interrupt ended and put task `n` on: the timer runs again.
pub record IsTicked (k : Kernel) (listed : List ℕ) (context : ExceptionContext) (n : ℕ)
    (r : Option Kernel) : Type 0 where
  pub after : Kernel
  pub ends : r ≡ some after
  pub switched :
      IsSwitched (ticked listed k.scheduler) context n (some (after.context, after.scheduler))
  pub rearmed : after.timer ≡ record (k.timer) { tval = k.timer.timer_ticks }

runs-awake : (s : TaskStatus) → is_running s ≡ true → is_sleeping s ≡ false
runs-awake ready runs = refl
runs-awake running runs = refl
runs-awake sleeping runs = sym runs
runs-awake blocked runs = refl
runs-awake terminated runs = refl

tasks_at-awake :
    (tick : ℕ) (listed : List ℕ) (tasks : Tasks) (y : ℕ)
    → is_sleeping (tasks y).state ≡ false
    → tasks_at tick listed tasks y ≡ tasks y
tasks_at-awake tick listed tasks y awake = elim (Bool-cases (member y listed)) [
  | inl inside ↦ rw (inside, awake) refl
  | inr outside ↦ rw outside refl
]

module _ (fuel : ℕ) (k : Kernel) (context : ExceptionContext) (listed others : List ℕ)
    (list : IsRing k.scheduler.tasks k.scheduler.task_list listed)
    (listed_enough : length listed < fuel)
    (ring : IsRing k.scheduler.tasks k.scheduler.current_task others)
    (enough : length others < fuel) where
  abbrev all_listed : List ℕ
  all_listed = k.scheduler.task_list ∷ listed

  abbrev now : Scheduler
  now = ticked all_listed k.scheduler

  update_sleeping_tasks-ticked : update_sleeping_tasks fuel (on_interrupt k).scheduler ≡ some now
  unfolding on_interrupt
  update_sleeping_tasks-ticked =
      let counted = record (k.scheduler) { system_ticks = add64 k.scheduler.system_ticks 1 } in
      let (tasks, e, at) = update_sleeping_tasks_lem fuel counted listed list listed_enough in
      e ∙ ap (λ (t : Tasks). some (record counted { tasks = t })) (fun_ext at)

  now-next_task : (y : ℕ) → (now.tasks y).next_task ≡ (k.scheduler.tasks y).next_task
  now-next_task y = ground arith

  now-IsRing : IsRing now.tasks now.current_task others
  now-IsRing = record {
    nonzero = ring.nonzero;
    links = rw (now-next_task k.scheduler.current_task) (
        Links-ext k.scheduler.tasks now.tasks _ others k.scheduler.current_task now-next_task
          ring.links);
  }

  now-runs :
      is_running (status k.scheduler k.scheduler.current_task) ≡ true
      → is_running (status now now.current_task) ≡ true
  now-runs runs =
      subst (λ (t : TaskState). is_running t.state ≡ true)
        (sym (
          tasks_at-awake (add64 k.scheduler.system_ticks 1) all_listed k.scheduler.tasks
            k.scheduler.current_task
            (runs-awake (status k.scheduler k.scheduler.current_task) runs)))
        runs

  -- The handler of the timer, where `n` is the first task behind the current one that is ready after the tick.
  on_timer_interrupt-IsTicked :
      (interrupt_id : ℕ)
      → k.context ≡ some context
      → k.scheduler.current_task ≢ k.scheduler.idle_task
      → is_running (status k.scheduler k.scheduler.current_task) ≡ true
      → let n = first_ready now.tasks others now.current_task in
        n ≢ now.current_task
        → IsTicked k all_listed context n (on_timer_interrupt fuel interrupt_id (some k))
  unfolding on_timer_interrupt on_interrupt
  on_timer_interrupt-IsTicked interrupt_id interrupted busy runs another =
      let switched =
        preempt-IsSwitched fuel now context others now-IsRing enough busy (now-runs runs) another in
      let ends =
        ap (λ (c : Option ExceptionContext). preempt fuel c now) interrupted ∙ switched.ends in
      rw (on_timer_interrupt, update_sleeping_tasks-ticked, preempt_kernel, ends)
        (record {
          after = record k {
            context = some (
                load_context (now.tasks (first_ready now.tasks others now.current_task)).cpu_context
                  context);
            scheduler = switched.after;
            timer = record (k.timer) { tval = k.timer.timer_ticks };
          };
          ends = refl;
          switched = record {
            after = switched.after;
            ends = refl;
            now_current = switched.now_current;
            now_running = switched.now_running;
            now_ready = switched.now_ready;
            resumes = switched.resumes;
          };
          rearmed = refl;
        })

-- The sleeper is the first behind the current task that is ready after the tick.
sleeper-first_ready :
    (tick : ℕ) (listed : List ℕ) (tasks : Tasks) (x : ℕ) (others : List ℕ) (d : ℕ)
    → member x listed ≡ true
    → (tasks x).state ≡ sleeping
    → (tasks x).wake_tick ≤ tick
    → first_ready (tasks_at tick listed tasks) (x ∷ others) d ≡ x
unfolding first_ready
sleeper-first_ready tick listed tasks x others d inside sleeps due =
    let in_time : leb (tasks x).wake_tick tick ≡ true = ground arith in
    rw (inside, sleeps, in_time) refl

-- The timer's interrupt 30 reaches a kernel whose table calls the timer's handler for it. The tasks form a ring,
-- the current one runs and is not the idle task, and the next one behind it sleeps, until this tick at the latest.
-- Then the handlers end, the sleeper is current and running, the exception returns to its saved registers, the
-- interrupted task is ready, the registers saved for it are those with which it was interrupted, and the last write to
-- the controller is the interrupt's number to its end-of-interrupt register.
pub irq_exception_handler-wakes :
    (pi5 : Bool) (fuel : ℕ) (handlers : Handlers (Option Kernel)) (k : Kernel)
    (context : ExceptionContext) (listed : List ℕ) (x : ℕ) (others : List ℕ)
    → handlers 30 ≡ some (on_timer_interrupt fuel)
    → k.context ≡ some context
    → IsRing k.scheduler.tasks k.scheduler.task_list listed
    → IsRing k.scheduler.tasks k.scheduler.current_task (x ∷ others)
    → length listed < fuel
    → length (x ∷ others) < fuel
    → k.scheduler.current_task ≢ k.scheduler.idle_task
    → is_running (status k.scheduler k.scheduler.current_task) ≡ true
    → member x (k.scheduler.task_list ∷ listed) ≡ true
    → (k.scheduler.tasks x).state ≡ sleeping
    → (k.scheduler.tasks x).wake_tick ≤ add64 k.scheduler.system_ticks 1
    → (t : Kernel) × (irq_exception_handler pi5 30 handlers k
        ≡ some (record t { gic = (if pi5 then 0x107FFFA010 else 0x08010010, 30) ∷ t.gic }))
      × IsTicked k (k.scheduler.task_list ∷ listed) context x (some t)
unfolding irq_exception_handler dispatch_interrupt end_interrupt
irq_exception_handler-wakes pi5 fuel handlers k context listed x others registered interrupted list
      ring listed_enough enough busy runs inside sleeps due =
    let awake =
      sleeper-first_ready (add64 k.scheduler.system_ticks 1) (k.scheduler.task_list ∷ listed)
        k.scheduler.tasks x others k.scheduler.current_task inside sleeps due in
    let handled =
      on_timer_interrupt-IsTicked fuel k context listed (x ∷ others) list listed_enough ring enough
        30 interrupted busy runs (λ e. ring.links.2 (sym awake ∙ e)) in
    let woke =
      subst
        (λ (n : ℕ).
          IsTicked k (k.scheduler.task_list ∷ listed) context n
            (on_timer_interrupt fuel 30 (some k)))
        awake handled in
    (
      woke.after,
      rw (irq_exception_handler, registered, woke.ends) (ground arith),
      record { after = woke.after; ends = refl; switched = woke.switched; rearmed = woke.rearmed },
    )
