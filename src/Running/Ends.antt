-- ===== src/Running/Ends.antt =====
-- Termination and preemption of the running task, in kernel/core/task/scheduler.cpp.
use planetoid_os.Base.{
  ℕ, ◌≡◌, subst, inl, inr, ◌||◌, Option, none, some, List, ◌∷◌, arith, ◌==◌, ==→eq, ==→ne,
  Bool-cases, Option-cases, update,
}
use planetoid_os.Task.{ready, is_running}
use planetoid_os.Scheduler.{
  Scheduler, status, mark, skip_to_ready, terminate_current, queue_cleanup, remove_task,
  find_next_ready_task, cleanup_terminated_task,
}
use planetoid_os.Preempt.{
  ExceptionContext, preempt, preempt_running, preempt_idle, preempt_cleaned, save_context,
  search_from_idle, dispatch_to,
}
use planetoid_os.Running.{AreStill, IsScheduled, switch_to-IsScheduled, switch_to_idle-IsScheduled}

queue_cleanup-status :
    (task : ℕ) (s : Scheduler) (x : ℕ)
    → (status (queue_cleanup task s) x ≡ status s x)
      × ((queue_cleanup task s).idle_task ≡ s.idle_task)
unfolding queue_cleanup update
queue_cleanup-status task s x = ground arith

remove_task-status :
    (fuel task : ℕ) (s s' : Scheduler) (x : ℕ)
    → remove_task fuel task s ≡ some s'
    → (status s' x ≡ status s x) × (s'.idle_task ≡ s.idle_task)
unfolding remove_task update
remove_task-status fuel task s s' x e = ground arith

module _ (dead : List ℕ) (s : Scheduler) (scheduled : IsScheduled dead s) where
  -- The task that ends is one more of the dead.
  removed-AreStill :
      (fuel : ℕ) (s' : Scheduler)
      → remove_task fuel s.current_task (queue_cleanup s.current_task s) ≡ some s'
      → AreStill s'.idle_task (s.current_task ∷ dead) s'.tasks
  removed-AreStill fuel s' e x not_idle alive = ground (
    arith,
    scheduled x,
    queue_cleanup-status s.current_task s x,
    remove_task-status fuel s.current_task (queue_cleanup s.current_task s) s' x e,
  )

  queued-IsScheduled : IsScheduled (s.current_task ∷ dead) (queue_cleanup s.current_task s)
  queued-IsScheduled x other not_idle alive =
      ground (arith, scheduled x, queue_cleanup-status s.current_task s x)

  pub terminate_current-IsScheduled :
      (fuel : ℕ) → IsScheduled (s.current_task ∷ dead) (terminate_current fuel s).1
  unfolding terminate_current
  terminate_current-IsScheduled fuel =
      elim (Bool-cases ((s.current_task == 0) || (s.current_task == s.idle_task))) [
        | inl never ↦ rw never (λ x other not_idle alive. ground (arith, scheduled x))
        | inr ends ↦
            rw ends
              (elim (Option-cases
                (remove_task fuel s.current_task (queue_cleanup s.current_task s))) [
                  | inl fails ↦ rw fails queued-IsScheduled
                  | inr (s', found) ↦
                      let still = removed-AreStill fuel s' found in
                      rw found (elim (Bool-cases (s'.task_list == 0)) [
                        | inl nothing_left ↦ rw nothing_left (
                            switch_to_idle-IsScheduled (s.current_task ∷ dead) s' s.current_task
                              still)
                        | inr something_left ↦
                            rw something_left
                              (elim (Option-cases (find_next_ready_task fuel s' s'.task_list)) [
                                | inl lost ↦ rw lost (λ x other. still x)
                                | inr (next, chosen) ↦ rw chosen (elim (Bool-cases (next == 0)) [
                                  | inl none_ready ↦ rw none_ready (
                                      switch_to_idle-IsScheduled (s.current_task ∷ dead) s'
                                        s.current_task still)
                                  | inr one_ready ↦ rw one_ready (
                                      switch_to-IsScheduled (s.current_task ∷ dead) s'
                                        s.current_task next still)
                                ])
                              ])
                      ])
                ])
      ]

cleanup-status :
    (s : Scheduler) (x : ℕ)
    → (status (cleanup_terminated_task s) x ≡ status s x)
      × ((cleanup_terminated_task s).idle_task ≡ s.idle_task)
      × ((cleanup_terminated_task s).current_task ≡ s.current_task)
unfolding cleanup_terminated_task update
cleanup-status s x = ground arith

-- The scheduler that a call leaves, if it ends.
abbrev pub IsScheduledAfter : {A : Type 0} → List ℕ → Option (A × Scheduler) → Type 0
IsScheduledAfter dead none = Unit
IsScheduledAfter dead (some r) = IsScheduled dead r.1

dispatch_to-IsScheduled :
    (dead : List ℕ) (s : Scheduler) (context : ExceptionContext) (next : ℕ)
    → AreStill s.idle_task dead s.tasks
    → IsScheduled dead (dispatch_to next context s).1
unfolding update
dispatch_to-IsScheduled dead s context next still x other not_idle alive =
    ground (arith, still x not_idle alive)

module _ (dead : List ℕ) (s : Scheduler) (scheduled : IsScheduled dead s) where
  -- The state of `preempt_running` once the interrupted task is saved and marked.
  abbrev saved : ExceptionContext → Scheduler
  saved context = mark s.current_task ready (save_context s.current_task context s)

  saved-AreStill : (context : ExceptionContext) → AreStill s.idle_task dead (saved context).tasks
  unfolding update
  saved-AreStill context x not_idle alive = elim (Bool-cases (x == s.current_task)) [
    | inl here ↦ ground arith
    | inr elsewhere ↦ ground (arith, scheduled x (==→ne x s.current_task elsewhere) not_idle alive)
  ]

  preempt_running-IsScheduled :
      (fuel : ℕ) (context : ExceptionContext)
      → IsScheduledAfter dead (preempt_running fuel context s)
  unfolding preempt_running
  preempt_running-IsScheduled fuel context =
      elim (Option-cases (
        skip_to_ready fuel (saved context).tasks s.current_task
          ((saved context).tasks s.current_task).next_task)) [
            | inl fails ↦ rw (IsScheduledAfter, fails) tt
            | inr (next, found) ↦
                rw (IsScheduledAfter, found)
                  (elim (Bool-cases (next == s.current_task)) [
                    | inl alone ↦ rw alone (
                        dispatch_to-IsScheduled dead (saved context) context s.current_task
                          (saved-AreStill context))
                    | inr another ↦ rw another (
                        dispatch_to-IsScheduled dead (saved context) context next
                          (saved-AreStill context))
                  ])
          ]

  cleanup-IsScheduled : IsScheduled dead (cleanup_terminated_task s)
  cleanup-IsScheduled x other not_idle alive = ground (arith, scheduled x, cleanup-status s x)

-- From the idle task on, which may stay marked as running.
idle-AreStill :
    (dead : List ℕ) (s : Scheduler)
    → IsScheduled dead s
    → s.current_task ≡ s.idle_task
    → AreStill s.idle_task dead s.tasks
idle-AreStill dead s scheduled idle x not_idle alive = ground (arith, scheduled x)

module _ (dead : List ℕ) (s : Scheduler) (scheduled : IsScheduled dead s) where
  preempt_idle-IsScheduled :
      (fuel : ℕ) (context : ExceptionContext)
      → s.current_task ≡ s.idle_task
      → IsScheduledAfter dead (preempt_idle fuel context s)
  unfolding preempt_idle
  preempt_idle-IsScheduled fuel context idle =
      elim (Option-cases (search_from_idle fuel s.tasks s.task_list s.task_list)) [
        | inl fails ↦ rw (IsScheduledAfter, fails) tt
        | inr (next, found) ↦
            rw (IsScheduledAfter, found)
              (elim (Bool-cases (next == 0)) [
                | inl nothing ↦ rw nothing scheduled
                | inr something ↦ rw something (
                    dispatch_to-IsScheduled dead s context next
                      (idle-AreStill dead s scheduled idle))
              ])
      ]

  preempt_cleaned-IsScheduled :
      (fuel : ℕ) (context : ExceptionContext)
      → IsScheduledAfter dead (preempt_cleaned fuel context s)
  unfolding preempt_cleaned
  preempt_cleaned-IsScheduled fuel context = elim (Bool-cases (s.current_task == s.idle_task)) [
    | inl idle ↦
        rw (IsScheduledAfter, idle) (preempt_idle-IsScheduled fuel context (==→eq _ _ idle))
    | inr busy ↦ elim (Bool-cases (is_running (status s s.current_task))) [
      | inl runs ↦
          rw (IsScheduledAfter, busy, runs)
            (preempt_running-IsScheduled dead s scheduled fuel context)
      | inr stands ↦ rw (IsScheduledAfter, busy, stands) scheduled
    ]
  ]

preempt_cleaned-after :
    (dead : List ℕ) (s : Scheduler)
    → IsScheduled dead s
    → (fuel : ℕ) (context : ExceptionContext)
    → IsScheduledAfter dead (preempt_cleaned fuel context (cleanup_terminated_task s))
preempt_cleaned-after dead s scheduled =
    preempt_cleaned-IsScheduled dead (cleanup_terminated_task s)
      (cleanup-IsScheduled dead s scheduled)

module _ (dead : List ℕ) (s : Scheduler) (scheduled : IsScheduled dead s) where
  pub preempt-IsScheduled :
      (fuel : ℕ) (context : Option ExceptionContext)
      → IsScheduledAfter dead (preempt fuel context s)
  unfolding preempt
  preempt-IsScheduled fuel none = scheduled
  preempt-IsScheduled fuel (some context) = elim (Bool-cases (s.current_task == 0)) [
    | inl none_runs ↦ rw (IsScheduledAfter, none_runs) scheduled
    | inr some_runs ↦
        let cleaned = preempt_cleaned-after dead s scheduled fuel context in
        elim (Option-cases (preempt_cleaned fuel context (cleanup_terminated_task s))) [
          | inl fails ↦ rw (IsScheduledAfter, some_runs, fails) tt
          | inr (r, found) ↦
              rw (IsScheduledAfter, some_runs, found) (subst (IsScheduledAfter dead) found cleaned)
        ]
  ]
