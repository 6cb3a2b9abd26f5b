-- ===== src/Preempt/Context.antt =====
-- The registers that `preempt` of kernel/core/task/scheduler.cpp saves and loads.
use planetoid_os.Base.{
  ℕ, ◌<◌, ◌≡◌, ◌≢◌, refl, sym, ap, ◌∙◌, subst, true, Option, some, List, [], ◌∷◌, arith, eq→==,
  ne→==, length, update,
}
use planetoid_os.Task.{Tasks, TaskState, is_running, ready, running}
use planetoid_os.Scheduler.{Scheduler, status, mark, skip_to_ready, cleanup_terminated_task}
use planetoid_os.Scheduler.Ring.{Links, Links-ext, IsRing, first_ready, skip_to_ready-first_ready}
use planetoid_os.Preempt.{
  ExceptionContext, load_context, save_context, dispatch_to, preempt_running, preempt_cleaned,
  preempt,
}

first_ready-ext :
    (tasks tasks' : Tasks) (a : ℕ) (xs : List ℕ) (b : ℕ)
    → Links tasks a xs b
    → ((x : ℕ) → x ≢ b → (tasks' x).state ≡ (tasks x).state)
    → first_ready tasks' xs b ≡ first_ready tasks xs b
unfolding first_ready
first_ready-ext tasks tasks' a [] b l same = refl
first_ready-ext tasks tasks' a (x ∷ xs) b l same =
    rw (same x l.2, first_ready-ext tasks tasks' (tasks x).next_task xs b l.3 same)

module _ (fuel : ℕ) (s : Scheduler) (context : ExceptionContext) (others : List ℕ)
    (ring : IsRing s.tasks s.current_task others) (enough : length others < fuel) where
  abbrev saved : Scheduler
  saved = mark s.current_task ready (save_context s.current_task context s)

  saved-next_task : (x : ℕ) → (saved.tasks x).next_task ≡ (s.tasks x).next_task
  unfolding update
  saved-next_task x = ground arith

  saved-other : (x : ℕ) → x ≢ s.current_task → saved.tasks x ≡ s.tasks x
  unfolding update
  saved-other x other = ground arith

  saved-first_ready :
      skip_to_ready fuel saved.tasks s.current_task (saved.tasks s.current_task).next_task
      ≡ some (first_ready s.tasks others s.current_task)
  saved-first_ready = rw (saved-next_task s.current_task) (
      skip_to_ready-first_ready fuel saved.tasks (s.tasks s.current_task).next_task s.current_task
        others (Links-ext s.tasks saved.tasks _ others s.current_task saved-next_task ring.links)
        enough
      ∙ ap some (
          first_ready-ext s.tasks saved.tasks _ others s.current_task ring.links
            (λ x other. ap (λ (t : TaskState). t.state) (saved-other x other))))

  preempt_running-first_ready :
      first_ready s.tasks others s.current_task ≢ s.current_task
      → preempt_running fuel context s
        ≡ some (dispatch_to (first_ready s.tasks others s.current_task) context saved)
  unfolding preempt_running
  preempt_running-first_ready another =
      rw
        (
          preempt_running,
          saved-first_ready,
          ne→== (first_ready s.tasks others s.current_task) s.current_task another,
        )
        refl

-- A call of `preempt` took the interrupted task off and put task `n` on: the exception returns to
-- the registers saved for `n`, and the registers saved for the interrupted task are those with which it
-- was interrupted: loaded for the return from a later exception they are all restored.
pub record IsSwitched (s : Scheduler) (context : ExceptionContext) (n : ℕ)
    (r : Option (Option ExceptionContext × Scheduler)) : Type 0 where
  pub after : Scheduler
  pub ends : r ≡ some (some (load_context (s.tasks n).cpu_context context), after)
  pub now_current : after.current_task ≡ n
  pub now_running : (after.tasks n).state ≡ running
  pub now_ready : (after.tasks s.current_task).state ≡ ready
  pub resumes :
      (later : ExceptionContext)
      → load_context (after.tasks s.current_task).cpu_context later
        ≡ record context { esr = later.esr; far = later.far }

cleanup-current_task : (s : Scheduler) → (cleanup_terminated_task s).current_task ≡ s.current_task
unfolding cleanup_terminated_task
cleanup-current_task s = ground arith

cleanup-idle_task : (s : Scheduler) → (cleanup_terminated_task s).idle_task ≡ s.idle_task
unfolding cleanup_terminated_task
cleanup-idle_task s = ground arith

module _ (s : Scheduler) (x : ℕ) where
  cleanup-next_task : ((cleanup_terminated_task s).tasks x).next_task ≡ (s.tasks x).next_task
  unfolding cleanup_terminated_task update
  cleanup-next_task = ground arith

  cleanup-state : ((cleanup_terminated_task s).tasks x).state ≡ (s.tasks x).state
  unfolding cleanup_terminated_task update
  cleanup-state = ground arith

  cleanup-cpu_context : ((cleanup_terminated_task s).tasks x).cpu_context ≡ (s.tasks x).cpu_context
  unfolding cleanup_terminated_task update
  cleanup-cpu_context = ground arith

module _ (fuel : ℕ) (s : Scheduler) (context : ExceptionContext) (others : List ℕ)
    (ring : IsRing s.tasks s.current_task others) (busy : s.current_task ≢ s.idle_task)
    (runs : is_running (status s s.current_task) ≡ true) (enough : length others < fuel)
    (another : first_ready s.tasks others s.current_task ≢ s.current_task) where
  -- The state that `preempt_cleaned` leaves.
  abbrev switched : Scheduler
  switched =
      (dispatch_to (first_ready s.tasks others s.current_task) context
        (saved fuel s context others ring enough)).1

  preempt_cleaned-switched :
      preempt_cleaned fuel context s
      ≡ some (
        load_context (s.tasks (first_ready s.tasks others s.current_task)).cpu_context context,
        switched,
      )
  unfolding preempt_cleaned
  preempt_cleaned-switched =
      rw (preempt_cleaned, ne→== s.current_task s.idle_task busy, runs)
        (preempt_running-first_ready fuel s context others ring enough another
          ∙ ap (λ (t : TaskState). some (load_context t.cpu_context context, switched))
              (saved-other fuel s context others ring enough _ another))

  switched-resumes :
      (later : ExceptionContext)
      → load_context (switched.tasks s.current_task).cpu_context later
        ≡ record context { esr = later.esr; far = later.far }
  unfolding update
  switched-resumes later =
      rw
        (
          ne→== (first_ready s.tasks others s.current_task) s.current_task another,
          eq→== s.current_task s.current_task refl,
        )
        refl

  switched-ready : (switched.tasks s.current_task).state ≡ ready
  unfolding update
  switched-ready =
      rw
        (
          ne→== (first_ready s.tasks others s.current_task) s.current_task another,
          eq→== s.current_task s.current_task refl,
        )
        refl

  switched-running : (switched.tasks (first_ready s.tasks others s.current_task)).state ≡ running
  unfolding update
  switched-running = rw (eq→== (first_ready s.tasks others s.current_task) _ refl) refl

module _ (fuel : ℕ) (s : Scheduler) (context : ExceptionContext) (others : List ℕ)
    (ring : IsRing s.tasks s.current_task others) (enough : length others < fuel) where
  -- The cleanup changes nothing that the search reads.
  cleaned-IsRing :
      IsRing (cleanup_terminated_task s).tasks (cleanup_terminated_task s).current_task others
  cleaned-IsRing = rw (cleanup-current_task s) (record {
    nonzero = ring.nonzero;
    links = rw (cleanup-next_task s s.current_task) (
        Links-ext s.tasks (cleanup_terminated_task s).tasks _ others s.current_task
          (cleanup-next_task s) ring.links);
  })

  cleaned-first_ready :
      first_ready (cleanup_terminated_task s).tasks others (cleanup_terminated_task s).current_task
      ≡ first_ready s.tasks others s.current_task
  cleaned-first_ready = rw (cleanup-current_task s) (
      first_ready-ext s.tasks (cleanup_terminated_task s).tasks _ others s.current_task ring.links
        (λ x other. cleanup-state s x))

  cleaned-runs :
      is_running (status s s.current_task) ≡ true
      → is_running (status (cleanup_terminated_task s) (cleanup_terminated_task s).current_task)
        ≡ true
  cleaned-runs runs = rw (cleanup-current_task s, cleanup-state s s.current_task) runs

  -- `preempt` of a running task in a ring where another task is ready switches to the first of them: the
  -- exception returns to that task's saved registers, the interrupted task is ready, and the registers saved
  -- for it are those with which it was interrupted.
  pub preempt-IsSwitched :
      s.current_task ≢ s.idle_task
      → is_running (status s s.current_task) ≡ true
      → first_ready s.tasks others s.current_task ≢ s.current_task
      → IsSwitched s context
          (first_ready s.tasks others s.current_task)
          (preempt fuel (some context) s)
  unfolding preempt
  preempt-IsSwitched busy runs another =
      let cleaned = cleanup_terminated_task s in
      let n = first_ready cleaned.tasks others cleaned.current_task in
      let busy' : cleaned.current_task ≢ cleaned.idle_task =
        λ e. busy (sym (cleanup-current_task s) ∙ e ∙ cleanup-idle_task s) in
      let another' : n ≢ cleaned.current_task =
        λ e. another (sym cleaned-first_ready ∙ e ∙ cleanup-current_task s) in
      let runs' = cleaned-runs runs in
      let after = switched fuel cleaned context others cleaned-IsRing busy' runs' enough another' in
      record {
        after = after;
        ends =
            rw
              (
                preempt,
                ne→== s.current_task 0 ring.nonzero,
                preempt_cleaned-switched fuel cleaned context others cleaned-IsRing busy' runs'
                    enough another',
              )
              (ap (λ c. some (some (load_context c context), after))
                (cleanup-cpu_context s n ∙ ap (λ n. (s.tasks n).cpu_context) cleaned-first_ready));
        now_current = cleaned-first_ready;
        now_running =
            subst (λ n. (after.tasks n).state ≡ running) cleaned-first_ready
              (switched-running fuel cleaned context others cleaned-IsRing busy' runs' enough
                another');
        now_ready =
            subst (λ c. (after.tasks c).state ≡ ready) (cleanup-current_task s)
              (switched-ready fuel cleaned context others cleaned-IsRing busy' runs' enough
                another');
        resumes = λ later.
            subst
              (λ c.
                load_context (after.tasks c).cpu_context later
                ≡ record context { esr = later.esr; far = later.far })
              (cleanup-current_task s)
              (switched-resumes fuel cleaned context others cleaned-IsRing busy' runs' enough
                another' later);
      }
