-- ===== src/Mutex/Exclusion.antt =====
-- Mutual exclusion of kernel/core/task/mutex.cpp over every order of its calls.
use planetoid_os.Base.{
  ℕ, ◌≡◌, ◌≢◌, refl, sym, ◌∙◌, ◌⊎◌, true, false, List, [], ◌∷◌, ◌++◌, arith, ne→==, update,
}
use planetoid_os.Task.{ready}
use planetoid_os.Scheduler.{Scheduler, returns, block_current_task}
use planetoid_os.WaitQueue.{enqueue, block_current}
use planetoid_os.WaitQueue.Fifo.{IsQueue, IsQueue-ext, member, wake_one-IsQueue, enqueue-IsQueue}
use planetoid_os.Mutex.{MutexState, lock, unlock}

-- The mutex, the scheduler, and the tasks whose `lock` returned and that have not called `unlock`.
pub record World : Type 0 where
  pub mutex : MutexState
  pub scheduler : Scheduler
  pub holders : List ℕ

-- One call on the mutex, or any step of the kernel that does not touch it. Only a task that holds
-- the mutex unlocks it.
pub data Step (w : World) : World → Type 0 where
  acquires :
      (fuel : ℕ)
      → (lock fuel w.mutex w.scheduler).0 ≡ returns
      → Step w (record {
        mutex = (lock fuel w.mutex w.scheduler).1;
        scheduler = (lock fuel w.mutex w.scheduler).2;
        holders = w.scheduler.current_task ∷ w.holders;
      })
  waits :
      (fuel : ℕ)
      → (lock fuel w.mutex w.scheduler).0 ≢ returns
      → Step w (record {
        mutex = (lock fuel w.mutex w.scheduler).1;
        scheduler = (lock fuel w.mutex w.scheduler).2;
        holders = w.holders;
      })
  releases :
      (rest : List ℕ)
      → w.holders ≡ w.scheduler.current_task ∷ rest
      → Step w (record {
        mutex = (unlock w.mutex w.scheduler).0;
        scheduler = (unlock w.mutex w.scheduler).1;
        holders = rest;
      })
  elsewhere : (s : Scheduler) → Step w (record w { scheduler = s })

pub data Reach (w : World) : World → Type 0 where
  here : Reach w w
  next : {u v : World} → Reach w u → Step u v → Reach w v

-- The mutex is locked exactly while one task holds it, and never do two.
abbrev pub IsExclusive : World → Type 0
IsExclusive w =
    ((w.mutex.locked ≡ false) × (w.holders ≡ []))
    ⊎ ((t : ℕ) × (w.mutex.locked ≡ true) × (w.holders ≡ t ∷ []))

lock-returns :
    (fuel : ℕ) (m : MutexState) (s : Scheduler)
    → (lock fuel m s).0 ≡ returns
    → (m.locked ≡ false) × ((lock fuel m s).1.locked ≡ true)
unfolding lock
lock-returns fuel m s h = ground arith

lock-waits :
    (fuel : ℕ) (m : MutexState) (s : Scheduler)
    → (lock fuel m s).0 ≢ returns
    → (m.locked ≡ true) × ((lock fuel m s).1.locked ≡ true)
unfolding lock
lock-waits fuel m s h = ground arith

-- `unlock` gives the mutex up, takes the task that has waited longest off the queue and makes it
-- ready; no other task changes its state, and interrupts are masked as before.
pub unlock-IsQueue :
    (m : MutexState) (s : Scheduler) (x : ℕ) (xs : List ℕ)
    → IsQueue s.tasks m.wait_queue (x ∷ xs)
    → let (m', s') = unlock m s in
      (m'.locked ≡ false)
      × IsQueue s'.tasks m'.wait_queue xs
      × ((s'.tasks x).state ≡ ready)
      × ((y : ℕ) → y ≢ x → (s'.tasks y).state ≡ (s.tasks y).state)
      × (s'.daif ≡ s.daif)
unfolding unlock
unlock-IsQueue m s x xs q =
    let woken = wake_one-IsQueue s.tasks m.wait_queue x xs q in
    rw (ne→== m.wait_queue.head 0 (λ e. q.chain.1 (sym q.chain.0 ∙ e)))
      (refl, woken.0, woken.1, woken.2, refl)

-- The scheduler's part of `block_current` relinks nothing.
block_current_task-wait_next :
    (fuel : ℕ) (s : Scheduler) (y : ℕ)
    → ((block_current_task fuel s).1.tasks y).wait_next ≡ (s.tasks y).wait_next
unfolding block_current_task update
block_current_task-wait_next fuel s y = ground arith

locked-IsQueue :
    (fuel : ℕ) (m : MutexState) (s : Scheduler) (ys : List ℕ)
    → m.locked ≡ true
    → s.current_task ≢ 0
    → (let (queue, tasks) = enqueue s.current_task m.wait_queue s.tasks in IsQueue tasks queue ys)
    → IsQueue (lock fuel m s).2.tasks (lock fuel m s).1.wait_queue ys
unfolding lock block_current
locked-IsQueue fuel m s ys locked current q =
    rw (locked, ne→== s.current_task 0 current)
      (IsQueue-ext _ _ _ ys (block_current_task-wait_next fuel _) q)

-- A task that finds the mutex locked goes to the end of its queue, and `lock` does not return to it.
lock-IsQueue :
    (fuel : ℕ) (m : MutexState) (s : Scheduler) (xs : List ℕ)
    → m.locked ≡ true
    → s.current_task ≢ 0
    → member s.current_task xs ≡ false
    → IsQueue s.tasks m.wait_queue xs
    → let r = lock fuel m s in
      (r.0 ≢ returns)
      × (r.1.locked ≡ true)
      × IsQueue r.2.tasks r.1.wait_queue (xs ++ s.current_task ∷ [])
lock-IsQueue fuel m s xs locked current out q = (
  (λ h. cc ((lock-returns fuel m s h).0)),
  (lock-waits fuel m s (λ h. cc ((lock-returns fuel m s h).0))).1,
  locked-IsQueue fuel m s (xs ++ s.current_task ∷ []) locked current
      (enqueue-IsQueue s.tasks m.wait_queue xs s.current_task q current out).0,
)
