-- ===== src/WaitQueue/Fifo.antt =====
-- The wait queue of kernel/core/task/wait_queue.cpp as a list of tasks, first in first out.
use planetoid_os.Base.{
  ℕ, zero, suc, ◌<◌, ◌≡◌, ◌≢◌, refl, sym, ◌∙◌, Bool, true, false, ◌||◌, some, List, [], ◌∷◌, ◌++◌,
  arith, ◌==◌, if◌then◌else◌, ne→==, length, update,
}
use planetoid_os.Task.{Tasks, null, ready, blocked, set_state, set_wait_next}
use planetoid_os.WaitQueue.{TaskWaitQueue, init, enqueue, wake_one, wake_all}

-- `x` is one of the tasks.
abbrev pub member : ℕ → List ℕ → Bool
member x [] = false
member x (y ∷ ys) = (x == y) || member x ys

-- From `a` the `wait_next` pointers lead through the distinct tasks `xs` to `b`.
abbrev pub Waits : Tasks → ℕ → List ℕ → ℕ → Type 0
Waits tasks a [] b = a ≡ b
Waits tasks a (x ∷ xs) b =
    (a ≡ x) × (x ≢ 0) × (member x xs ≡ false) × Waits tasks (tasks x).wait_next xs b

abbrev pub last_or : ℕ → List ℕ → ℕ
last_or d [] = d
last_or d (x ∷ xs) = last_or x xs

-- The queue holds the tasks `xs`, the longest waiting first.
pub record IsQueue (tasks : Tasks) (queue : TaskWaitQueue) (xs : List ℕ) : Type 0 where
  pub chain : Waits tasks queue.head xs 0
  pub tail : queue.tail ≡ last_or 0 xs

last_or-member : (x : ℕ) (xs : List ℕ) → member (last_or x xs) (x ∷ xs) ≡ true
last_or-member x [] = ground arith
last_or-member x (y ∷ ys) = ground (arith, last_or-member y ys)

member-snoc : (y : ℕ) (xs : List ℕ) (t : ℕ) → member y (xs ++ t ∷ []) ≡ (member y xs || (y == t))
member-snoc y [] t = ground arith
member-snoc y (x ∷ xs) t = ground (arith, member-snoc y xs t)

Waits-ext :
    (tasks tasks' : Tasks) (a : ℕ) (xs : List ℕ) (b : ℕ)
    → ((x : ℕ) → member x xs ≡ true → (tasks' x).wait_next ≡ (tasks x).wait_next)
    → Waits tasks a xs b
    → Waits tasks' a xs b
Waits-ext tasks tasks' a [] b same w = w
Waits-ext tasks tasks' a (x ∷ xs) b same w = (
  w.0,
  w.1,
  w.2,
  rw (same x (ground arith))
      (Waits-ext tasks tasks' (tasks x).wait_next xs b (λ y h. same y (ground arith)) w.3),
)

-- The old tail now leads to `t`, which ends the queue.
Waits-snoc :
    (tasks tasks' : Tasks) (t a x : ℕ) (xs : List ℕ)
    → Waits tasks a (x ∷ xs) 0
    → member t (x ∷ xs) ≡ false
    → t ≢ 0
    → (tasks' (last_or x xs)).wait_next ≡ t
    → (tasks' t).wait_next ≡ 0
    → ((y : ℕ) → y ≢ t → y ≢ last_or x xs → (tasks' y).wait_next ≡ (tasks y).wait_next)
    → Waits tasks' a (x ∷ xs ++ t ∷ []) 0
Waits-snoc tasks tasks' t a x [] w out nonzero last end same =
    (w.0, w.1, ground arith, (last, nonzero, refl, end))
Waits-snoc tasks tasks' t a x (y ∷ ys) w out nonzero last end same = (
  w.0,
  w.1,
  ground (arith, member-snoc x (y ∷ ys) t, w.2),
  rw (same x (ground arith) (λ e. ground (arith, last_or-member y ys, w.2)))
      (Waits-snoc tasks tasks' t (tasks x).wait_next y ys w.3 (ground arith) nonzero last end same),
)

pub init-IsQueue : (tasks : Tasks) (queue : TaskWaitQueue) → IsQueue tasks (init queue) []
unfolding init
init-IsQueue tasks queue = record { chain = refl; tail = refl }

-- A change that relinks nothing keeps the queue.
pub IsQueue-ext :
    (tasks tasks' : Tasks) (queue : TaskWaitQueue) (xs : List ℕ)
    → ((y : ℕ) → (tasks' y).wait_next ≡ (tasks y).wait_next)
    → IsQueue tasks queue xs
    → IsQueue tasks' queue xs
IsQueue-ext tasks tasks' queue xs same q = record {
  chain = Waits-ext tasks tasks' queue.head xs 0 (λ y h. same y) q.chain;
  tail = q.tail;
}

last_or-snoc : (d : ℕ) (xs : List ℕ) (t : ℕ) → last_or d (xs ++ t ∷ []) ≡ t
last_or-snoc d [] t = refl
last_or-snoc d (x ∷ xs) t = last_or-snoc x xs t

last_or-ne-zero :
    (tasks : Tasks) (a x : ℕ) (xs : List ℕ) → Waits tasks a (x ∷ xs) 0 → last_or x xs ≢ 0
last_or-ne-zero tasks a x [] w = w.1
last_or-ne-zero tasks a x (y ∷ ys) w = last_or-ne-zero tasks (tasks x).wait_next y ys w.3

-- A task that is not in the queue, made to wait, is blocked and the last; the others keep their
-- places and their states.
pub enqueue-IsQueue :
    (tasks : Tasks) (queue : TaskWaitQueue) (xs : List ℕ) (t : ℕ)
    → IsQueue tasks queue xs
    → t ≢ 0
    → member t xs ≡ false
    → let (queue', tasks') = enqueue t queue tasks in
      IsQueue tasks' queue' (xs ++ t ∷ [])
      × ((tasks' t).state ≡ blocked)
      × ((y : ℕ) → y ≢ t → (tasks' y).state ≡ (tasks y).state)
unfolding enqueue update
enqueue-IsQueue tasks queue [] t q nonzero out = ground arith
enqueue-IsQueue tasks queue (x ∷ xs) t q nonzero out =
    let tail_nonzero : queue.tail ≢ 0 =
      λ e. last_or-ne-zero tasks queue.head x xs q.chain (sym q.tail ∙ e) in
    let tail_old : last_or x xs ≢ t = λ e. ground (arith, last_or-member x xs) in
    rw (ne→== queue.tail 0 tail_nonzero) (
      record {
        chain =
            Waits-snoc tasks
              (set_wait_next queue.tail t (set_wait_next t null (set_state t blocked tasks))) t
              queue.head x xs q.chain out nonzero (ground (arith, q.tail)) (ground (arith, q.tail))
              (λ y other_than_t other_than_last. ground (arith, q.tail));
        tail = sym (last_or-snoc x xs t);
      },
      ground (arith, q.tail),
      λ y other. ground arith,
    )

tail_after :
    (tasks : Tasks) (queue : TaskWaitQueue) (x : ℕ) (xs : List ℕ)
    → IsQueue tasks queue (x ∷ xs)
    → (if (tasks x).wait_next == 0 then 0 else queue.tail) ≡ last_or 0 xs
tail_after tasks queue x [] q = rw q.chain.3
tail_after tasks queue x (y ∷ ys) q = rw (q.chain.3.0, ne→== y 0 q.chain.3.1) q.tail

-- Waking one takes the task that has waited longest, and makes it ready.
pub wake_one-IsQueue :
    (tasks : Tasks) (queue : TaskWaitQueue) (x : ℕ) (xs : List ℕ)
    → IsQueue tasks queue (x ∷ xs)
    → let (queue', tasks') = wake_one queue tasks in
      IsQueue tasks' queue' xs
      × ((tasks' x).state ≡ ready)
      × ((y : ℕ) → y ≢ x → (tasks' y).state ≡ (tasks y).state)
unfolding wake_one update
wake_one-IsQueue tasks queue x xs q =
    rw (q.chain.0, ne→== x 0 q.chain.1)
      (
        record {
          chain =
              Waits-ext tasks (set_state x ready (set_wait_next x null tasks)) (tasks x).wait_next
                xs 0 (λ y h. ground (arith, q.chain.2)) q.chain.3;
          tail = tail_after tasks queue x xs q;
        },
        ground arith,
        λ y other. ground arith,
      )

pub wake_one-nil :
    (tasks : Tasks) (queue : TaskWaitQueue)
    → IsQueue tasks queue []
    → wake_one queue tasks ≡ (queue, tasks)
unfolding wake_one
wake_one-nil tasks queue q = rw (q.chain)

wake_all-suc :
    (fuel : ℕ) (tasks : Tasks) (queue : TaskWaitQueue)
    → queue.head ≢ 0
    → wake_all (suc fuel) queue tasks
      ≡ wake_all fuel (wake_one queue tasks).0 (wake_one queue tasks).1
unfolding wake_all
wake_all-suc fuel tasks queue h = rw (ne→== queue.head 0 h)

-- With more fuel than waiters `wake_all` empties the queue and makes ready its tasks and no other.
pub wake_all-IsQueue :
    (fuel : ℕ) (tasks : Tasks) (queue : TaskWaitQueue) (xs : List ℕ)
    → IsQueue tasks queue xs
    → length xs < fuel
    → (r : TaskWaitQueue × Tasks) × (wake_all fuel queue tasks ≡ some r)
      × IsQueue r.1 r.0 []
      × ((y : ℕ) → (r.1 y).state ≡ (if member y xs then ready else (tasks y).state))
unfolding wake_all
wake_all-IsQueue zero tasks queue xs q enough = absurd (omega arith)
wake_all-IsQueue (suc fuel) tasks queue [] q enough = ((queue, tasks), rw q.chain, q, λ y. refl)
wake_all-IsQueue (suc fuel) tasks queue (x ∷ xs) q enough =
    let first = wake_one-IsQueue tasks queue x xs q in
    let woken = wake_one queue tasks in
    let rest = wake_all-IsQueue fuel woken.1 woken.0 xs first.0 (omega arith) in
    (
      rest.0,
      wake_all-suc fuel tasks queue (λ e. q.chain.1 (sym q.chain.0 ∙ e)) ∙ rest.1,
      rest.2,
      λ y. ground (arith, rest.3 y, first.1, first.2 y, q.chain.2),
    )
