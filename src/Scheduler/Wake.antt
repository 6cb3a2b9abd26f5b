-- ===== src/Scheduler/Wake.antt =====
-- `update_sleeping_tasks` of kernel/core/task/scheduler.cpp wakes the sleepers that are due.
use planetoid_os.Base.{
  ℕ, zero, suc, ◌<◌, ◌≡◌, ◌≢◌, refl, ◌∙◌, ◌&&◌, some, List, [], ◌∷◌, arith, leb, ◌==◌,
  if◌then◌else◌, ne→==, length, update,
}
use planetoid_os.Task.{TaskState, Tasks, ready, is_sleeping}
use planetoid_os.Scheduler.{Scheduler, update_sleeping_loop, update_sleeping_tasks, wake_due}
use planetoid_os.Scheduler.Ring.{Links, Links-ext, IsRing}
use planetoid_os.WaitQueue.Fifo.{member}

-- What a task becomes at a tick: ready if it sleeps and its time has come, and else what it was.
abbrev pub woken : ℕ → TaskState → TaskState
woken tick task =
    if is_sleeping task.state && leb task.wake_tick tick
    then record task { state = ready }
    else task

woken_again : (tick : ℕ) (t : TaskState) → woken tick (woken tick t) ≡ woken tick t
woken_again tick t = ground arith

wake_due-lem :
    (tick x : ℕ) (tasks : Tasks) (y : ℕ)
    → wake_due tick x tasks y ≡ (if y == x then woken tick (tasks y) else tasks y)
unfolding update
wake_due-lem tick x tasks y = ground arith

wake_due-next_task :
    (tick x : ℕ) (tasks : Tasks) (y : ℕ) → (wake_due tick x tasks y).next_task ≡ (tasks y).next_task
wake_due-next_task tick x tasks y = ground (arith, wake_due-lem tick x tasks y)

update_sleeping_loop-step :
    (fuel tick head task x : ℕ) (tasks : Tasks)
    → task ≢ 0
    → (tasks task).next_task ≡ x
    → x ≢ head
    → update_sleeping_loop (suc fuel) tick head task tasks
      ≡ update_sleeping_loop fuel tick head x (wake_due tick task tasks)
unfolding update_sleeping_loop
update_sleeping_loop-step fuel tick head task x tasks nonzero at other =
    rw (ne→== task 0 nonzero, wake_due-next_task tick task tasks task, at, ne→== x head other) refl

-- The loop at `task`, with the tasks `xs` still to come before the head of the list.
update_sleeping_loop-lem :
    (fuel tick head task : ℕ) (xs : List ℕ) (tasks : Tasks)
    → task ≢ 0
    → Links tasks (tasks task).next_task xs head
    → length xs < fuel
    → (tasks' : Tasks) × (update_sleeping_loop fuel tick head task tasks ≡ some tasks')
      × ((y : ℕ) → tasks' y ≡ (if member y (task ∷ xs) then woken tick (tasks y) else tasks y))
unfolding update_sleeping_loop
update_sleeping_loop-lem zero tick head task xs tasks nonzero l enough = absurd (omega arith)
update_sleeping_loop-lem (suc fuel) tick head task [] tasks nonzero l enough = (
  wake_due tick task tasks,
  ground (arith, wake_due-next_task tick task tasks task),
  λ y. ground (arith, wake_due-lem tick task tasks y),
)
update_sleeping_loop-lem (suc fuel) tick head task (x ∷ xs) tasks nonzero l enough =
    let passed = wake_due tick task tasks in
    let at = wake_due-next_task tick task tasks in
    let rest =
      update_sleeping_loop-lem fuel tick head x xs passed l.1
        (rw (at x) (Links-ext tasks passed (tasks x).next_task xs head at l.3)) (omega arith) in
    (
      rest.0,
      update_sleeping_loop-step fuel tick head task x tasks nonzero l.0 l.2 ∙ rest.1,
      (λ y. ground (arith, rest.2 y, wake_due-lem tick task tasks y, woken_again tick (tasks y))),
    )

-- A tick makes ready each task of the list that sleeps and whose time has come, and changes no other
-- task and nothing else.
pub update_sleeping_tasks_lem :
    (fuel : ℕ) (s : Scheduler) (others : List ℕ)
    → IsRing s.tasks s.task_list others
    → length others < fuel
    → (tasks : Tasks) × (update_sleeping_tasks fuel s ≡ some (record s { tasks = tasks }))
      × ((y : ℕ)
          → tasks y ≡ (
              if member y (s.task_list ∷ others)
              then woken s.system_ticks (s.tasks y)
              else s.tasks y))
unfolding update_sleeping_tasks
update_sleeping_tasks_lem fuel s others ring enough =
    let r =
      update_sleeping_loop-lem fuel s.system_ticks s.task_list s.task_list others s.tasks
        ring.nonzero ring.links enough in
    (r.0, rw (ne→== s.task_list 0 ring.nonzero, r.1) refl, r.2)
