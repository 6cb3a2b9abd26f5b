-- ===== src/Scheduler/Terminate.antt =====
-- `terminate_current` of kernel/core/task/scheduler.cpp on the circular list.
use planetoid_os.Base.{
  ℕ, ◌+◌, ◌<◌, ◌≡◌, ◌≢◌, refl, sym, ap, ◌∙◌, subst, ◌⊎◌, inl, inr, true, not, ◌&&◌, ◌||◌, Option,
  none, some, List, [], ◌∷◌, ◌++◌, arith, ◌==◌, if◌then◌else◌, ==→eq, eq→==, ne→==, Bool-cases,
  Option-cases, length, update,
}
use planetoid_os.Task.{Tasks}
use planetoid_os.Scheduler.{
  Scheduler, Outcome, find_previous, find_next_ready_task, remove_task, queue_cleanup,
  terminate_current, switch_to,
}
use planetoid_os.Scheduler.Ring.{
  IsHandedOver, switch_to-IsHandedOver, switch_to-KeepsList, Links-ext, IsRing, first_ready,
}
use planetoid_os.Scheduler.Insert.{IsRingOf, remove_task-IsRing}
use planetoid_os.WaitQueue.Fifo.{member}
use planetoid_os.Scheduler.Rotate.{
  member-middle, IsRotation, length-IsRotation, IsRing-rotated, find_next_loop-first_ready,
}

module _ (task : ℕ) (s : Scheduler) where
  queue_cleanup-next_task :
      (x : ℕ) → ((queue_cleanup task s).tasks x).next_task ≡ (s.tasks x).next_task
  unfolding queue_cleanup update
  queue_cleanup-next_task x = ground arith

  queue_cleanup-state : (x : ℕ) → ((queue_cleanup task s).tasks x).state ≡ (s.tasks x).state
  unfolding queue_cleanup update
  queue_cleanup-state x = ground arith

  queue_cleanup-idle_task : (queue_cleanup task s).idle_task ≡ s.idle_task
  unfolding queue_cleanup
  queue_cleanup-idle_task = ground arith

  queue_cleanup-task_list : (queue_cleanup task s).task_list ≡ s.task_list
  unfolding queue_cleanup
  queue_cleanup-task_list = ground arith

queue_cleanup-IsRingOf :
    (s : Scheduler) (task : ℕ) (others : List ℕ)
    → IsRingOf s task others
    → IsRingOf (queue_cleanup task s) task others
queue_cleanup-IsRingOf s task others r =
    let same = queue_cleanup-task_list task s in
    record {
      ring = record {
        nonzero = r.ring.nonzero;
        links = rw (queue_cleanup-next_task task s task) (
            Links-ext s.tasks (queue_cleanup task s).tasks (s.tasks task).next_task others task
              (queue_cleanup-next_task task s) r.ring.links);
      };
      distinct = r.distinct;
      nonempty = λ e. r.nonempty (sym same ∙ e);
      entry =
          subst
            (λ (l : ℕ).
              (l ≡ task) ⊎ ((front : List ℕ) × (back : List ℕ) × (others ≡ front ++ l ∷ back)))
            (sym same) r.entry;
    }

-- After the task at which the list is entered was removed, it is entered at the next one.
entered :
    (s : Scheduler) (task next : ℕ) (others : List ℕ)
    → IsRingOf s task (next ∷ others)
    → let l = if s.task_list == task then next else s.task_list in
      (l ≡ next) ⊎ (member l others ≡ true)
entered s task next others r = elim r.entry [
  | inl here ↦ inl (ground (arith, eq→== s.task_list task here))
  | inr (front, back, e) ↦
      let inside : member s.task_list (next ∷ others) ≡ true =
        subst (λ (xs : List ℕ). member s.task_list xs ≡ true) (sym e)
          (member-middle front s.task_list back) in
      elim (Bool-cases (s.task_list == task)) [
        | inl here ↦ inl (rw here refl)
        | inr apart ↦ rw apart (elim (Bool-cases (s.task_list == next)) [
          | inl there ↦ inl (==→eq s.task_list next there)
          | inr beyond ↦ inr (ground arith)
        ])
      ]
]

-- What `remove_task` leaves alone.
record IsKeptBy (s s' : Scheduler) : Type 0 where
  head : s'.pending_cleanup_head ≡ s.pending_cleanup_head
  tail : s'.pending_cleanup_tail ≡ s.pending_cleanup_tail
  idle : s'.idle_task ≡ s.idle_task
  queue : (x : ℕ) → (s'.tasks x).cleanup_next ≡ (s.tasks x).cleanup_next

abbrev KeptBy : Scheduler → Option Scheduler → Type 0
KeptBy s none = Unit
KeptBy s (some s') = IsKeptBy s s'

remove_task-KeptBy : (fuel task : ℕ) (s : Scheduler) → KeptBy s (remove_task fuel task s)
unfolding remove_task update
remove_task-KeptBy fuel task s = elim (Bool-cases ((task == 0) || (s.task_list == 0))) [
  | inl nothing ↦ rw nothing (record { head = refl; tail = refl; idle = refl; queue = λ x. refl })
  | inr something ↦ elim (Bool-cases ((s.tasks task).next_task == task)) [
    | inl alone ↦
        rw (something, alone) (record { head = refl; tail = refl; idle = refl; queue = λ x. refl })
    | inr linked ↦ elim (Option-cases (find_previous fuel s.tasks task s.task_list)) [
      | inl stuck ↦ rw (something, linked, stuck) tt
      | inr (previous, found) ↦
          rw (something, linked, found)
            (record { head = refl; tail = refl; idle = refl; queue = λ x. ground arith })
    ]
  ]
]

-- The task is queued for its cleanup, behind those that wait for it.
pub record IsQueuedForCleanup (s : Scheduler) (task : ℕ) (s' : Scheduler) : Type 0 where
  pub last : s'.pending_cleanup_tail ≡ task
  pub first :
      s'.pending_cleanup_head
      ≡ (if s.pending_cleanup_tail == 0 then task else s.pending_cleanup_head)
  pub links :
      (x : ℕ)
      → (s'.tasks x).cleanup_next ≡ (
          if not (s.pending_cleanup_tail == 0) && (x == s.pending_cleanup_tail)
          then task
          else if x == task
          then 0
          else (s.tasks x).cleanup_next)

queue_cleanup-IsQueuedForCleanup :
    (task : ℕ) (s : Scheduler) → IsQueuedForCleanup s task (queue_cleanup task s)
unfolding queue_cleanup update
queue_cleanup-IsQueuedForCleanup task s = record {
  last = ground arith;
  first = ground arith;
  links = λ x. ground arith;
}

-- The current task has ended: it is queued for its cleanup and in the ring no longer, in which `l`
-- and then `order` are the others; the processor went to the first of them that is ready, or to the
-- idle task where none is.
pub record IsTerminated (s : Scheduler) (l : ℕ) (order : List ℕ) (r : Outcome × Scheduler)
    : Type 0 where
  pub entry : r.1.task_list ≡ l
  pub ring : IsRing r.1.tasks l order
  pub queued : IsQueuedForCleanup s s.current_task r.1
  pub switched :
      let n = first_ready s.tasks (l ∷ order) 0 in
      IsHandedOver s.current_task (if n == 0 then s.idle_task else n) (λ x. (s.tasks x).state) r

first_ready-same :
    (tasks tasks' : Tasks) (xs : List ℕ) (d : ℕ)
    → ((x : ℕ) → (tasks' x).state ≡ (tasks x).state)
    → first_ready tasks' xs d ≡ first_ready tasks xs d
unfolding first_ready
first_ready-same tasks tasks' [] d same = refl
first_ready-same tasks tasks' (x ∷ xs) d same =
    rw (same x, first_ready-same tasks tasks' xs d same) refl

switch_to-cleanup_next :
    (from to x : ℕ) (s : Scheduler)
    → ((switch_to from to s).1.tasks x).cleanup_next ≡ (s.tasks x).cleanup_next
unfolding update
switch_to-cleanup_next from to x s = ground arith

-- The last step, at a scheduler from which the task was removed.
switch_to-IsTerminated :
    (s s' : Scheduler) (order : List ℕ)
    → IsRing s'.tasks s'.task_list order
    → ((x : ℕ) → (s'.tasks x).state ≡ (s.tasks x).state)
    → IsKeptBy (queue_cleanup s.current_task s) s'
    → let n = first_ready s.tasks (s'.task_list ∷ order) 0 in
      IsTerminated s s'.task_list order
        (switch_to s.current_task (if n == 0 then s.idle_task else n) s')
unfolding update
switch_to-IsTerminated s s' order ring states kept =
    let n = first_ready s.tasks (s'.task_list ∷ order) 0 in
    let to = if n == 0 then s.idle_task else n in
    let over = switch_to-IsHandedOver s.current_task to s' in
    let keeps = switch_to-KeepsList s.current_task to s' in
    let queued = queue_cleanup-IsQueuedForCleanup s.current_task s in
    record {
      entry = refl;
      ring = record {
        nonzero = ring.nonzero;
        links = rw (keeps.links s'.task_list) (
            Links-ext s'.tasks (switch_to s.current_task to s').1.tasks _ order s'.task_list
              keeps.links ring.links);
      };
      queued = record {
        last = kept.tail ∙ queued.last;
        first = kept.head ∙ queued.first;
        links = λ x. switch_to-cleanup_next s.current_task to x s' ∙ kept.queue x ∙ queued.links x;
      };
      switched = record {
        outcome = over.outcome;
        now_current = over.now_current;
        now_running = over.now_running;
        others = λ x other. over.others x other ∙ states x;
      };
    }

-- `terminate_current` of a task that is not the idle one and not alone in its ring, with fuel beyond
-- the ring's length: the task is queued for its cleanup and the ring is the others in
-- their order, entered where it was, or at the next task if it was entered at the removed one. From
-- there on the first task of the ring that is ready is current and running, or the idle task where none
-- is; no other task's state changes.
pub terminate_current-first_ready :
    (fuel : ℕ) (s : Scheduler) (next : ℕ) (others : List ℕ)
    → IsRingOf s s.current_task (next ∷ others)
    → s.current_task ≢ s.idle_task
    → length others + 1 < fuel
    → let l = if s.task_list == s.current_task then next else s.task_list in
      (order : List ℕ) × IsRotation (next ∷ others) l order
      × IsTerminated s l order (terminate_current fuel s)
unfolding terminate_current find_next_ready_task
terminate_current-first_ready fuel s next others r busy enough =
    let c = s.current_task in
    let queued = queue_cleanup-IsRingOf s c (next ∷ others) r in
    let (s', removed, ring, entry, states) =
      remove_task-IsRing fuel (queue_cleanup c s) c next others queued enough in
    let (order, rotated, rotation) =
      IsRing-rotated s'.tasks next s'.task_list others ring r.distinct.1 (
        subst (λ (l : ℕ). (l ≡ next) ⊎ (member l others ≡ true)) (sym entry)
          (entered (queue_cleanup c s) c next others queued)) in
    let kept : IsKeptBy (queue_cleanup c s) s' =
      subst (KeptBy (queue_cleanup c s)) removed (remove_task-KeptBy fuel c (queue_cleanup c s)) in
    let same_states : (x : ℕ) → (s'.tasks x).state ≡ (s.tasks x).state =
      λ x. states x ∙ queue_cleanup-state c s x in
    let same_first = first_ready-same s.tasks s'.tasks (s'.task_list ∷ order) 0 same_states in
    let n = first_ready s.tasks (s'.task_list ∷ order) 0 in
    let at : (if s.task_list == c then next else s.task_list) ≡ s'.task_list =
      sym (entry ∙ ap (λ (l : ℕ). if l == c then next else l) (queue_cleanup-task_list c s)) in
    let same_idle : s'.idle_task ≡ s.idle_task = kept.idle ∙ queue_cleanup-idle_task c s in
    let ends : terminate_current fuel s ≡ switch_to c (if n == 0 then s.idle_task else n) s' =
      rw
        (
          terminate_current,
          ne→== c 0 r.ring.nonzero,
          ne→== c s.idle_task busy,
          removed,
          find_next_ready_task,
          ne→== s'.task_list 0 rotated.nonzero,
          find_next_loop-first_ready fuel s'.tasks s'.task_list s'.task_list order rotated.nonzero
              rotated.links
              (omega (arith, length-IsRotation (next ∷ others) s'.task_list order rotation)),
          same_first,
        )
        (elim (Bool-cases (n == 0)) [
          | inl none_ready ↦ rw (none_ready, same_idle) refl
          | inr found ↦ rw found refl
        ]) in
    (
      order,
      rw at rotation,
      subst (λ (l : ℕ). IsTerminated s l order (terminate_current fuel s)) (sym at)
          (rw ends (switch_to-IsTerminated s s' order rotated same_states kept)),
    )
