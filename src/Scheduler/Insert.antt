-- ===== src/Scheduler/Insert.antt =====
-- `add_task` and `remove_task` of kernel/core/task/scheduler.cpp on the circular list.
use planetoid_os.Base.{
  ℕ, zero, suc, ◌+◌, ◌<◌, ◌≡◌, ◌≢◌, refl, sym, ap, ◌∙◌, subst, ◌⊎◌, inl, inr, true, false, some,
  List, [], ◌∷◌, ◌++◌, arith, ◌==◌, if◌then◌else◌, eq→==, ne→==, length, length-append, update,
}
use planetoid_os.Task.{Tasks, ready, set_state, set_next_task}
use planetoid_os.Scheduler.{Scheduler, find_previous, remove_task, add_task}
use planetoid_os.Scheduler.Ring.{Links, IsRing}
use planetoid_os.WaitQueue.Fifo.{member}

-- No task stands in the list twice.
abbrev pub IsDistinct : List ℕ → Type 0
IsDistinct [] = Unit
IsDistinct (x ∷ xs) = (member x xs ≡ false) × IsDistinct xs

abbrev pub last_of : ℕ → List ℕ → ℕ
last_of x [] = x
last_of x (y ∷ ys) = last_of y ys

last_of-member : (x : ℕ) (xs : List ℕ) → (last_of x xs ≡ x) ⊎ (member (last_of x xs) xs ≡ true)
last_of-member x [] = inl refl
last_of-member x (y ∷ ys) = elim (last_of-member y ys) [
  | inl same ↦ inr (ground arith)
  | inr inside ↦ inr (ground arith)
]

last_of-suffix :
    (x : ℕ) (front : List ℕ) (h : ℕ) (bs : List ℕ) → last_of x (front ++ h ∷ bs) ≡ last_of h bs
last_of-suffix x [] h bs = refl
last_of-suffix x (a ∷ front) h bs = last_of-suffix a front h bs

pub Links-suffix :
    (tasks : Tasks) (a : ℕ) (front : List ℕ) (h : ℕ) (bs : List ℕ) (b : ℕ)
    → Links tasks a (front ++ h ∷ bs) b
    → Links tasks (tasks h).next_task bs b
Links-suffix tasks a [] h bs b l = l.3
Links-suffix tasks a (x ∷ front) h bs b l = Links-suffix tasks (tasks x).next_task front h bs b l.3

-- A change of the links of tasks that are not in the list.
Links-same :
    (tasks tasks' : Tasks) (a : ℕ) (xs : List ℕ) (b : ℕ)
    → ((x : ℕ) → member x xs ≡ true → (tasks' x).next_task ≡ (tasks x).next_task)
    → Links tasks a xs b
    → Links tasks' a xs b
Links-same tasks tasks' a [] b same l = l
Links-same tasks tasks' a (x ∷ xs) b same l = (
  l.0,
  l.1,
  l.2,
  rw (same x (ground arith))
      (Links-same tasks tasks' (tasks x).next_task xs b (λ y h. same y (ground arith)) l.3),
)

pub Links-member :
    (tasks : Tasks) (a : ℕ) (xs : List ℕ) (b : ℕ) → Links tasks a xs b → member b xs ≡ false
Links-member tasks a [] b l = refl
Links-member tasks a (x ∷ xs) b l = ground (arith, Links-member tasks (tasks x).next_task xs b l.3)

-- The search for the task in front of `t`.
find_previous-last_of :
    (fuel : ℕ) (tasks : Tasks) (t x : ℕ) (xs : List ℕ)
    → x ≢ 0
    → Links tasks (tasks x).next_task xs t
    → length xs < fuel
    → find_previous fuel tasks t x ≡ some (last_of x xs)
unfolding find_previous
find_previous-last_of zero tasks t x xs ne l enough = absurd (omega arith)
find_previous-last_of (suc fuel) tasks t x [] ne l enough = ground arith
find_previous-last_of (suc fuel) tasks t x (y ∷ ys) ne l enough =
    let next = l.0 in
    let rest = find_previous-last_of fuel tasks t y ys l.1 (l.3) (omega arith) in
    ground (arith, rest, ap (λ (k : ℕ). find_previous fuel tasks t k) next)

-- The last task of a stretch is linked to `e` in place of what was behind it.
relinked :
    (tasks : Tasks) (x : ℕ) (xs : List ℕ) (t e : ℕ)
    → Links tasks (tasks x).next_task xs t
    → IsDistinct (x ∷ xs)
    → member e xs ≡ false
    → let tasks' = set_next_task (last_of x xs) e tasks in Links tasks' (tasks' x).next_task xs e
unfolding update
relinked tasks x [] t e l distinct outside = ground arith
relinked tasks x (y ∷ ys) t e l distinct outside =
    let apart : x ≢ last_of y ys = λ same. elim (last_of-member y ys) [
      | inl at_y ↦ ground arith
      | inr inside ↦ ground (arith, ap (λ (k : ℕ). member k ys) same)
    ] in
    (ground arith, l.1, ground arith, relinked tasks y ys t e l.3 distinct.1 (ground arith))

-- The list of the scheduler is the ring of `task` and `others`, in which it enters somewhere.
pub record IsRingOf (s : Scheduler) (task : ℕ) (others : List ℕ) : Type 0 where
  pub ring : IsRing s.tasks task others
  pub distinct : IsDistinct others
  pub nonempty : s.task_list ≢ 0
  pub entry :
      (s.task_list ≡ task)
      ⊎ ((front : List ℕ) × (back : List ℕ) × (others ≡ front ++ s.task_list ∷ back))

find_previous-IsRingOf :
    (fuel : ℕ) (s : Scheduler) (task : ℕ) (others : List ℕ)
    → IsRingOf s task others
    → length others < fuel
    → find_previous fuel s.tasks task s.task_list ≡ some (last_of task others)
find_previous-IsRingOf fuel s task others r enough = elim r.entry [
  | inl here ↦
      rw here
        (find_previous-last_of fuel s.tasks task task others r.ring.nonzero r.ring.links enough)
  | inr (front, back, split) ↦
      let count = length-append front (s.task_list ∷ back) in
      let shorter : length back < fuel =
        omega (arith, count, ap (λ (l : List ℕ). length l) split) in
      find_previous-last_of fuel s.tasks task s.task_list back r.nonempty
        (Links-suffix s.tasks (s.tasks task).next_task front s.task_list back task (
          subst (λ (l : List ℕ). Links s.tasks (s.tasks task).next_task l task) split r.ring.links))
        shorter
      ∙ ap (λ (x : ℕ). some x)
          (sym (ap (last_of task) split ∙ last_of-suffix task front s.task_list back))
]

-- `remove_task` of a task that is not alone in the list, with fuel beyond its length: the task in
-- front of it is linked to the one behind it, the ring is the others in their order, the list is
-- entered where it was, or at the next task if it was entered at the removed one, and no task's
-- state changes.
pub remove_task-IsRing :
    (fuel : ℕ) (s : Scheduler) (task next : ℕ) (others : List ℕ)
    → IsRingOf s task (next ∷ others)
    → length others + 1 < fuel
    → (s' : Scheduler) × (remove_task fuel task s ≡ some s')
      × IsRing s'.tasks next others
      × (s'.task_list ≡ (if s.task_list == task then next else s.task_list))
      × ((x : ℕ) → (s'.tasks x).state ≡ (s.tasks x).state)
unfolding remove_task
remove_task-IsRing fuel s task next others r enough =
    let previous = last_of next others in
    let behind : (s.tasks task).next_task ≡ next = r.ring.links.0 in
    let differ : next ≢ task = r.ring.links.2 in
    let found = find_previous-IsRingOf fuel s task (next ∷ others) r (omega arith) in
    (
      record s {
        tasks = set_next_task previous next s.tasks;
        task_list = if s.task_list == task then next else s.task_list;
      },
      rw
          (
            ne→== task 0 r.ring.nonzero,
            ne→== s.task_list 0 r.nonempty,
            behind,
            ne→== next task differ,
            found,
            behind,
          )
          refl,
      record {
        nonzero = r.ring.links.1;
        links = relinked s.tasks next others task next r.ring.links.3 r.distinct r.distinct.0;
      },
      refl,
      λ x. unfold update in ground arith,
    )

-- `add_task` of a task that is not in the list puts it behind the one at which the list is entered; an
-- empty list becomes the ring of the task alone. The task is ready, no other task's state changes,
-- and the interrupt mask is as it was.
pub add_task-IsRing :
    (s : Scheduler) (task : ℕ) (others : List ℕ)
    → task ≢ 0
    → task ≢ s.task_list
    → member task others ≡ false
    → ((s.task_list ≡ 0) × (others ≡ [])) ⊎ IsRing s.tasks s.task_list others
    → let s' = add_task task s in
      (((s.task_list ≡ 0) × (s'.task_list ≡ task) × IsRing s'.tasks task [])
        ⊎ ((s'.task_list ≡ s.task_list) × IsRing s'.tasks s.task_list (task ∷ others)))
      × ((x : ℕ) → (s'.tasks x).state ≡ (if x == task then ready else (s.tasks x).state))
      × (s'.daif ≡ s.daif)
unfolding add_task update
add_task-IsRing s task others ne apart outside (inl (empty, none_there)) =
    rw (ne→== task 0 ne, eq→== s.task_list 0 empty)
      (inl (empty, refl, record { nonzero = ne; links = ground arith }), λ x. ground arith, refl)
add_task-IsRing s task others ne apart outside (inr ring) =
    let marked = set_state task ready s.tasks in
    let linked = set_next_task task (marked s.task_list).next_task marked in
    let tasks' = set_next_task s.task_list task linked in
    let first : (tasks' task).next_task ≡ (s.tasks s.task_list).next_task = ground arith in
    let kept : Links tasks' (s.tasks s.task_list).next_task others s.task_list =
      Links-same s.tasks tasks' (s.tasks s.task_list).next_task others s.task_list
        (λ x inside.
          let not_task : x ≢ task = λ e. cc (ap (λ (k : ℕ). member k others) e) in
          let head_outside = Links-member s.tasks _ others s.task_list ring.links in
          let not_head : x ≢ s.task_list = λ e. cc (ap (λ (k : ℕ). member k others) e) in
          ground arith)
        ring.links in
    rw (ne→== task 0 ne, ne→== s.task_list 0 ring.nonzero)
      (
        inr (
          refl,
          record {
            nonzero = ring.nonzero;
            links = (
              ground arith,
              ne,
              apart,
              subst (λ (a : ℕ). Links tasks' a others s.task_list) (sym first) kept,
            );
          },
        ),
        λ x. ground arith,
        refl,
      )
