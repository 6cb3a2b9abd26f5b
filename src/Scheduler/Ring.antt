-- ===== src/Scheduler/Ring.antt =====
-- The circular list of kernel/core/task/scheduler.cpp, and the search for the next ready task.
use planetoid_os.Base.{
  ℕ, zero, suc, ◌<◌, ◌≡◌, ◌≢◌, refl, ◌∙◌, ◌⊎◌, inl, inr, some, List, [], ◌∷◌, arith, ◌==◌,
  if◌then◌else◌, ==→eq, ==→ne, ne→==, Bool-cases, length, update,
}
use planetoid_os.Task.{Tasks, TaskStatus, is_ready, ready, running}
use planetoid_os.Scheduler.{
  Scheduler, Outcome, returns, switches, mark, irq_save, switch_to, skip_to_ready, yield,
  block_current_task,
}

-- From `a` the `next_task` pointers lead through the tasks `xs`, none of which is `b`, to `b`.
abbrev pub Links : Tasks → ℕ → List ℕ → ℕ → Type 0
Links tasks a [] b = a ≡ b
Links tasks a (x ∷ xs) b = (a ≡ x) × (x ≢ 0) × (x ≢ b) × Links tasks (tasks x).next_task xs b

-- A change of anything but the links.
pub Links-ext :
    (tasks tasks' : Tasks) (a : ℕ) (xs : List ℕ) (b : ℕ)
    → ((x : ℕ) → (tasks' x).next_task ≡ (tasks x).next_task)
    → Links tasks a xs b
    → Links tasks' a xs b
Links-ext tasks tasks' a [] b same l = l
Links-ext tasks tasks' a (x ∷ xs) b same l =
    (l.0, l.1, l.2, rw (same x) (Links-ext tasks tasks' (tasks x).next_task xs b same l.3))

-- `c` and then `others` are the tasks of the circular list, in its order.
pub record IsRing (tasks : Tasks) (c : ℕ) (others : List ℕ) : Type 0 where
  pub nonzero : c ≢ 0
  pub links : Links tasks (tasks c).next_task others c

-- The first ready task of the list, `d` if there is none.
unfoldable pub first_ready : Tasks → List ℕ → ℕ → ℕ
first_ready tasks [] d = d
first_ready tasks (x ∷ xs) d = if is_ready (tasks x).state then x else first_ready tasks xs d

pub skip_to_ready-first_ready :
    (fuel : ℕ) (tasks : Tasks) (a stop : ℕ) (xs : List ℕ)
    → Links tasks a xs stop
    → length xs < fuel
    → skip_to_ready fuel tasks stop a ≡ some (first_ready tasks xs stop)
unfolding skip_to_ready first_ready
skip_to_ready-first_ready zero tasks a stop xs l enough = absurd (omega arith)
skip_to_ready-first_ready (suc fuel) tasks a stop [] l enough = ground arith
skip_to_ready-first_ready (suc fuel) tasks a stop (x ∷ xs) l enough =
    ground (arith, skip_to_ready-first_ready fuel tasks (tasks x).next_task stop xs l.3)

-- The processor went from one task to another: `to` is current and running, every other task has
-- the state that `states` gives it.
pub record IsHandedOver (from to : ℕ) (states : ℕ → TaskStatus) (r : Outcome × Scheduler)
    : Type 0 where
  pub outcome : r.0 ≡ switches from to
  pub now_current : r.1.current_task ≡ to
  pub now_running : (r.1.tasks to).state ≡ running
  pub others : (x : ℕ) → x ≢ to → (r.1.tasks x).state ≡ states x

-- What a handover leaves alone.
pub record KeepsList (s : Scheduler) (r : Outcome × Scheduler) : Type 0 where
  pub links : (x : ℕ) → (r.1.tasks x).next_task ≡ (s.tasks x).next_task
  pub list : r.1.task_list ≡ s.task_list

pub switch_to-IsHandedOver :
    (from to : ℕ) (s : Scheduler)
    → IsHandedOver from to (λ x. (s.tasks x).state) (switch_to from to s)
unfolding update
switch_to-IsHandedOver from to s = record {
  outcome = refl;
  now_current = refl;
  now_running = ground arith;
  others = λ x other. ground arith;
}

pub switch_to-KeepsList : (from to : ℕ) (s : Scheduler) → KeepsList s (switch_to from to s)
unfolding update
switch_to-KeepsList from to s = record { links = λ x. ground arith; list = refl }

module _ (fuel : ℕ) (s : Scheduler) (others : List ℕ) (ring : IsRing s.tasks s.current_task others)
    (enough : length others < fuel) where
  -- `yield` of a task in a ring, with fuel beyond the number of the others, hands over to the first
  -- ready task behind the current one, which becomes ready itself, and does nothing where no other
  -- task is ready. The ring stays as it is.
  pub yield-first_ready :
      let c = s.current_task in
      let n = first_ready s.tasks others c in
      ((n ≡ c) × (yield fuel s ≡ (returns, s)))
      ⊎ ((n ≢ c)
          × IsHandedOver c n (λ x. if x == c then ready else (s.tasks x).state) (yield fuel s)
          × KeepsList s (yield fuel s))
  unfolding yield update
  yield-first_ready =
      let c = s.current_task in
      let n = first_ready s.tasks others c in
      let found =
        skip_to_ready-first_ready fuel s.tasks (s.tasks s.current_task).next_task s.current_task
          others ring.links enough in
      elim (Bool-cases (n == c)) [
        | inl alone ↦ inl (==→eq n c alone, rw (ne→== c 0 ring.nonzero, found, alone) refl)
        | inr another ↦
            let before = mark c ready (irq_save s) in
            let over = switch_to-IsHandedOver c n before in
            rw (ne→== c 0 ring.nonzero, found, another)
              (inr (
                ==→ne n c another,
                record {
                  outcome = over.outcome;
                  now_current = over.now_current;
                  now_running = over.now_running;
                  others = λ x other. over.others x other ∙ ground arith;
                },
                record { links = λ x. ground arith; list = refl },
              ))
      ]

  -- `block_current_task` of a task in a ring, with that fuel, hands over to the first ready task
  -- behind the current one, and to the idle task where there is none. It changes the state of no
  -- other task, and the ring stays as it is.
  pub block_current_task-first_ready :
      let c = s.current_task in
      let n = first_ready s.tasks others c in
      IsHandedOver c
        (if n == c then s.idle_task else n)
        (λ x. (s.tasks x).state)
        (block_current_task fuel s)
      × KeepsList s (block_current_task fuel s)
  unfolding block_current_task
  block_current_task-first_ready =
      let c = s.current_task in
      let n = first_ready s.tasks others c in
      let to = if n == c then s.idle_task else n in
      let same : block_current_task fuel s ≡ switch_to c to s =
        rw
          (
            ne→== s.current_task 0 ring.nonzero,
            skip_to_ready-first_ready fuel s.tasks (s.tasks s.current_task).next_task s.current_task
                others ring.links enough,
          )
          (ground arith) in
      rw same (switch_to-IsHandedOver c to s, switch_to-KeepsList c to s)
