-- ===== src/Examples/Locking.antt =====
-- A mutex that one of the three tasks holds, for kernel/core/task/mutex.cpp.
use planetoid_os.Base.{ℕ, ◌≡◌, ◌≢◌, true, false, [], ◌∷◌}
use planetoid_os.Task.{ready}
use planetoid_os.WaitQueue.Fifo.{IsQueue}
use planetoid_os.Mutex.{MutexState, init, lock, unlock}
use planetoid_os.Mutex.Exclusion.{World, unlock-IsQueue}
use planetoid_os.Examples.Tasks.{tasks, three, queue, queue-IsQueue}

abbrev held : MutexState
held = record { locked = true; wait_queue = queue }

-- Task 1 takes the mutex.
abbrev taken : World
taken = record {
  mutex = (lock 4 (init held) three).1;
  scheduler = (lock 4 (init held) three).2;
  holders = 1 ∷ [];
}

unlock-IsQueue_example :
    let (m, s) = unlock held three in
    (m.locked ≡ false)
    × IsQueue s.tasks m.wait_queue (5 ∷ [])
    × ((s.tasks 4).state ≡ ready)
    × ((y : ℕ) → y ≢ 4 → (s.tasks y).state ≡ (tasks y).state)
    × (s.daif ≡ 0)
unlock-IsQueue_example = unlock-IsQueue held three 4 (5 ∷ []) queue-IsQueue
