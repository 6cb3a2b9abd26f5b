-- ===== src/Scheduler/Rotate.antt =====
-- The circular list of kernel/core/task/scheduler.cpp seen from another of its tasks, and the search of
-- `find_next_ready_task` in it.
use planetoid_os.Base.{
  ℕ, zero, suc, ◌+◌, ◌<◌, ◌≡◌, ◌≢◌, refl, sym, ap, subst, ◌⊎◌, inl, inr, true, false, some, List,
  [], ◌∷◌, ◌++◌, arith, ◌==◌, ==→eq, Bool-cases, length, length-append,
}
use mathlib.Core.List.{append-nil}
use planetoid_os.Task.{Tasks}
use planetoid_os.Scheduler.{find_next_loop}
use planetoid_os.Scheduler.Ring.{Links, IsRing, first_ready}
use planetoid_os.Scheduler.Insert.{IsDistinct, Links-suffix}
use planetoid_os.WaitQueue.Fifo.{member}

pub member-middle : (front : List ℕ) (l : ℕ) (back : List ℕ) → member l (front ++ l ∷ back) ≡ true
member-middle [] l back = ground arith
member-middle (x ∷ front) l back = ground (arith, member-middle front l back)

member-front :
    (x : ℕ) (front : List ℕ) (l : ℕ) (back : List ℕ) → member x (front ++ l ∷ back) ≡ false → x ≢ l
member-front x front l back outside same =
    let inside =
      subst (λ (y : ℕ). member y (front ++ l ∷ back) ≡ true) (sym same)
        (member-middle front l back) in
    ground arith

-- A list at a task that stands in it.
split_at :
    (l : ℕ) (xs : List ℕ)
    → member l xs ≡ true
    → (front : List ℕ) × (back : List ℕ) × (xs ≡ front ++ l ∷ back)
split_at l [] inside = absurd (ground arith)
split_at l (x ∷ xs) inside = elim (Bool-cases (l == x)) [
  | inl same ↦ ([], xs, ap (λ (y : ℕ). y ∷ xs) (sym (==→eq l x same)))
  | inr differ ↦
      let (front, back, e) = split_at l xs (ground arith) in
      (x ∷ front, back, ap (λ (ys : List ℕ). x ∷ ys) e)
]

distinct_apart :
    (front : List ℕ) (l : ℕ) (back : List ℕ)
    → IsDistinct (front ++ l ∷ back)
    → (member l front ≡ false) × (member l back ≡ false)
distinct_apart [] l back d = (refl, d.0)
distinct_apart (x ∷ front) l back d =
    let rest = distinct_apart front l back d.1 in
    let differ = member-front x front l back d.0 in (ground arith, rest.1)

Links-prefix :
    (tasks : Tasks) (a : ℕ) (front : List ℕ) (l : ℕ) (back : List ℕ) (b : ℕ)
    → Links tasks a (front ++ l ∷ back) b
    → member l front ≡ false
    → Links tasks a front l
Links-prefix tasks a [] l back b links outside = links.0
Links-prefix tasks a (x ∷ front) l back b links outside = (
  links.0,
  links.1,
  ground arith,
  Links-prefix tasks (tasks x).next_task front l back b links.3 (ground arith),
)

Links-middle :
    (tasks : Tasks) (a : ℕ) (front : List ℕ) (l : ℕ) (back : List ℕ) (b : ℕ)
    → Links tasks a (front ++ l ∷ back) b
    → (l ≢ 0) × (l ≢ b)
Links-middle tasks a [] l back b links = (links.1, links.2)
Links-middle tasks a (x ∷ front) l back b links =
    Links-middle tasks (tasks x).next_task front l back b links.3

Links-join :
    (tasks : Tasks) (a : ℕ) (xs : List ℕ) (b : ℕ) (ys : List ℕ) (l : ℕ)
    → Links tasks a xs b
    → b ≢ 0
    → b ≢ l
    → member l xs ≡ false
    → Links tasks (tasks b).next_task ys l
    → Links tasks a (xs ++ b ∷ ys) l
Links-join tasks a [] b ys l links ne apart outside rest = (links, ne, apart, rest)
Links-join tasks a (x ∷ xs) b ys l links ne apart outside rest = (
  links.0,
  links.1,
  ground arith,
  Links-join tasks (tasks x).next_task xs b ys l links.3 ne apart (ground arith) rest,
)

-- `order` is the ring from behind `l` on, around to it.
pub record IsRotation (ring : List ℕ) (l : ℕ) (order : List ℕ) : Type 0 where
  pub front : List ℕ
  pub back : List ℕ
  pub split : ring ≡ front ++ l ∷ back
  pub around : order ≡ back ++ front

pub length-IsRotation :
    (ring : List ℕ) (l : ℕ) (order : List ℕ)
    → IsRotation ring l order
    → length ring ≡ length order + 1
length-IsRotation ring l order r = omega (
  arith,
  ap (λ (xs : List ℕ). length xs) r.split,
  ap (λ (xs : List ℕ). length xs) r.around,
  length-append r.front (l ∷ r.back),
  length-append r.back r.front,
)

-- The same ring, seen from another of its tasks.
pub IsRing-rotated :
    (tasks : Tasks) (first l : ℕ) (others : List ℕ)
    → IsRing tasks first others
    → IsDistinct others
    → (l ≡ first) ⊎ (member l others ≡ true)
    → (order : List ℕ) × IsRing tasks l order × IsRotation (first ∷ others) l order
IsRing-rotated tasks first l others ring distinct (inl same) = (
  others,
  subst (λ (x : ℕ). IsRing tasks x others) (sym same) ring,
  record {
    front = [];
    back = others;
    split = ap (λ (x : ℕ). x ∷ others) (sym same);
    around = sym (append-nil others);
  },
)
IsRing-rotated tasks first l others ring distinct (inr inside) =
    let (front, back, e) = split_at l others inside in
    let links =
      subst (λ (xs : List ℕ). Links tasks (tasks first).next_task xs first) e ring.links in
    let (outside_front, outside_back) = distinct_apart front l back (subst IsDistinct e distinct) in
    let (nonzero, apart) = Links-middle tasks (tasks first).next_task front l back first links in
    (
      back ++ first ∷ front,
      record {
        nonzero = nonzero;
        links =
            Links-join tasks (tasks l).next_task back first front l
              (Links-suffix tasks (tasks first).next_task front l back first links) ring.nonzero
              (λ same. apart (sym same)) outside_back
              (Links-prefix tasks (tasks first).next_task front l back first links outside_front);
      },
      record {
        front = first ∷ front;
        back = back;
        split = ap (λ (xs : List ℕ). first ∷ xs) e;
        around = refl;
      },
    )

-- The search comes back to where it began only when no task is ready.
pub find_next_loop-first_ready :
    (fuel : ℕ) (tasks : Tasks) (start task : ℕ) (xs : List ℕ)
    → task ≢ 0
    → Links tasks (tasks task).next_task xs start
    → length xs < fuel
    → find_next_loop fuel tasks start task ≡ some (first_ready tasks (task ∷ xs) 0)
unfolding find_next_loop first_ready
find_next_loop-first_ready zero tasks start task xs ne links enough = absurd (omega arith)
find_next_loop-first_ready (suc fuel) tasks start task [] ne links enough = ground arith
find_next_loop-first_ready (suc fuel) tasks start task (x ∷ xs) ne links enough =
    let next = links.0 in
    let rest = find_next_loop-first_ready fuel tasks start x xs links.1 links.3 (omega arith) in
    ground (arith, rest, ap (λ (k : ℕ). find_next_loop fuel tasks start k) next)
