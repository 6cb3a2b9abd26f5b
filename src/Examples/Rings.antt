-- ===== src/Examples/Rings.antt =====
-- A ring of three tasks that loses one and gains one, for kernel/core/task/scheduler.cpp.
use planetoid_os.Base.{ℕ, ◌≡◌, refl, ◌⊎◌, inl, inr, some, List, [], ◌∷◌, arith, ◌==◌, if◌then◌else◌}
use planetoid_os.Task.{ready}
use planetoid_os.Scheduler.{Scheduler, remove_task, add_task, terminate_current}
use planetoid_os.Scheduler.Ring.{IsRing}
use planetoid_os.Scheduler.Rotate.{IsRotation}
use planetoid_os.Scheduler.Terminate.{IsTerminated, terminate_current-first_ready}
use planetoid_os.Scheduler.Insert.{IsRingOf, remove_task-IsRing, add_task-IsRing}
use planetoid_os.Examples.Tasks.{three, tasks, three-IsRing}

-- The ring seen from task 2; the list is entered at task 1.
two-IsRingOf : IsRingOf three 2 (3 ∷ 1 ∷ [])
two-IsRingOf = record {
  ring = record {
    nonzero = omega arith;
    links = (refl, omega arith, omega arith, (refl, omega arith, omega arith, refl));
  };
  distinct = (refl, (refl, tt));
  nonempty = omega arith;
  entry = inr (3 ∷ [], [], refl);
}

remove_task-IsRing_example :
    (s' : Scheduler) × (remove_task 4 2 three ≡ some s')
    × IsRing s'.tasks 3 (1 ∷ [])
    × (s'.task_list ≡ 1)
    × ((x : ℕ) → (s'.tasks x).state ≡ (tasks x).state)
remove_task-IsRing_example = remove_task-IsRing 4 three 2 3 (1 ∷ []) two-IsRingOf (omega arith)

add_task-IsRing_example :
    let s' = add_task 6 three in
    (((three.task_list ≡ 0) × (s'.task_list ≡ 6) × IsRing s'.tasks 6 [])
      ⊎ ((s'.task_list ≡ 1) × IsRing s'.tasks 1 (6 ∷ 2 ∷ 3 ∷ [])))
    × ((x : ℕ) → (s'.tasks x).state ≡ (if x == 6 then ready else (tasks x).state))
    × (s'.daif ≡ 0)
add_task-IsRing_example =
    add_task-IsRing three 6 (2 ∷ 3 ∷ []) (omega arith) (omega arith) refl (inr three-IsRing)

-- The same ring seen from task 1, which runs.
one-IsRingOf : IsRingOf three 1 (2 ∷ 3 ∷ [])
one-IsRingOf = record {
  ring = three-IsRing;
  distinct = (refl, (refl, tt));
  nonempty = omega arith;
  entry = inl refl;
}

terminate_current-first_ready_example :
    (order : List ℕ) × IsRotation (2 ∷ 3 ∷ []) 2 order
    × IsTerminated three 2 order (terminate_current 4 three)
terminate_current-first_ready_example =
    terminate_current-first_ready 4 three 2 (3 ∷ []) one-IsRingOf (omega arith) (omega arith)
