-- ===== src/Mutex.antt =====
-- kernel/core/task/mutex.cpp. A null mutex is not modelled: every caller passes the address of one.
pub mod Exclusion
use planetoid_os.Base.{ℕ, Bool, true, false, not, ◌==◌, if◌then◌else◌}
use planetoid_os.Task.{null}
use planetoid_os.Scheduler.{
  Scheduler, Outcome, returns, switches, parks, stuck, irq_save, irq_restore,
}
use planetoid_os.WaitQueue.{TaskWaitQueue, block_current, wake_one}
use planetoid_os.WaitQueue

pub record MutexState : Type 0 where
  pub locked : Bool
  pub wait_queue : TaskWaitQueue

unfoldable pub init : MutexState → MutexState
unfolding WaitQueue.init
init mutex = record { locked = false; wait_queue = WaitQueue.init mutex.wait_queue }

-- One round of the loop of `lock`, which the caller enters again each time it is resumed after a
-- switch. Where `block_current` comes back at once the loop spins on the same state: `stuck`.
unfoldable pub lock : (fuel : ℕ) → MutexState → Scheduler → Outcome × MutexState × Scheduler
lock fuel mutex s =
    let irq_state = s.daif in
    if not mutex.locked
    then (returns, record mutex { locked = true }, irq_restore irq_state (irq_save s))
    else let (outcome, queue, s') = block_current fuel mutex.wait_queue (irq_save s) in
      (
        elim outcome [
          | returns ↦ stuck
          | switches a b ↦ switches a b
          | parks ↦ parks
          | stuck ↦ stuck
        ],
        record mutex { wait_queue = queue },
        s',
      )

unfoldable pub unlock : MutexState → Scheduler → MutexState × Scheduler
unlock mutex s =
    let irq_state = s.daif in
    let s₁ = irq_save s in
    if mutex.wait_queue.head == null
    then (record mutex { locked = false }, irq_restore irq_state s₁)
    else let (queue, tasks) = wake_one mutex.wait_queue s₁.tasks in
      (
        record { locked = false; wait_queue = queue },
        irq_restore irq_state (record s₁ { tasks = tasks }),
      )
