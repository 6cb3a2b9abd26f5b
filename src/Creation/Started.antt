-- ===== src/Creation/Started.antt =====
-- `create_task` of kernel/core/task/task.cpp: the task that it makes, and what it leaves where it fails.
use planetoid_os.Base.{
  ℕ, zero, suc, ◌+◌, ◌-◌, ◌*◌, ◌/◌, ◌^◌, ◌<◌, ◌≡◌, ◌≢◌, refl, sym, ◌∙◌, subst, ◌⊎◌, inl, inr, ◌&&◌,
  some, List, arith, ltb, leb, if◌then◌else◌, ne→==, length, add64, update, update_self, update-ne,
  for_range,
}
use planetoid_os.Base.Bits.{bit_and_mask, bit_and_shifted}
use planetoid_os.PhysicalMemory.{Platform}
use planetoid_os.VirtualMemory.Invariant.{IsVirtual}
use planetoid_os.Task.{TaskState, ready}
use planetoid_os.KernelHeap.Allocate.{IsHeap}
use planetoid_os.Creation.{Machine, create_task, align_stack_size, fill_task, set_entry_point}
use planetoid_os.Creation.Leaks.{NoneLarge, IsFailed, IsMade, allocate_task_lem}

for_range-cleared :
    (count first : ℕ) (x : ℕ → ℕ) (j : ℕ)
    → for_range count first (λ i (y : ℕ → ℕ). update y i 0) x j
      ≡ (if leb first j && ltb j (first + count) then 0 else x j)
unfolding for_range update
for_range-cleared zero first x j = ground arith
for_range-cleared (suc count) first x j =
    rw (for_range-cleared count (first + 1) (update x first 0) j) (ground arith)

-- The size is rounded up to a multiple of 16.
align_stack_size_lem :
    (size : ℕ) → size + 15 < 2 ^ 64 → align_stack_size size ≡ (size + 15) / 16 * 16
align_stack_size_lem size small =
    bit_and_shifted 4 (add64 size 15) (2 ^ 60 - 1)
    ∙ omega (arith, bit_and_mask 60 (add64 size 15 / 2 ^ 4))

-- A task that was just made: it starts at the trampoline with the entry point in `x[19]`, zeros in the other
-- registers and an empty stack, and it is ready and in no list.
pub record IsStarted (trampoline entry_point stack stack_size : ℕ) (t : TaskState) : Type 0 where
  pub pc : t.cpu_context.pc ≡ trampoline
  pub sp : t.cpu_context.sp ≡ add64 stack stack_size
  pub entry : t.cpu_context.x 19 ≡ entry_point
  pub cleared : (i : ℕ) → i < 31 → i ≢ 19 → t.cpu_context.x i ≡ 0
  pub base : t.stack_base ≡ stack
  pub size : t.stack_size ≡ stack_size
  pub is_ready_now : t.state ≡ ready
  pub unlisted : (t.next_task ≡ 0) × (t.wait_next ≡ 0)

filled-IsStarted :
    (trampoline entry_point stack stack_size : ℕ) (t : TaskState)
    → IsStarted trampoline entry_point stack stack_size
        (set_entry_point entry_point (fill_task trampoline stack stack_size t))
filled-IsStarted trampoline entry_point stack stack_size t = record {
  pc = refl;
  sp = refl;
  entry = update_self _ 19 entry_point;
  cleared = λ i small other.
      update-ne _ 19 entry_point i (λ e. other (sym e))
      ∙ for_range-cleared 31 0 t.cpu_context.x i
      ∙ ground arith;
  base = refl;
  size = refl;
  is_ready_now = refl;
  unlisted = (refl, refl);
}

-- The new task and its neighbours.
pub record IsCreatedTask (p : Platform) (top trampoline entry_point stack_size : ℕ) (m : Machine)
    (cs : List ℕ) (r : ℕ × Machine) : Type 0 where
  pub fill : ℕ → TaskState → TaskState
  pub made : IsMade p top stack_size m cs fill r
  pub started : IsStarted trampoline entry_point made.stack stack_size (r.1.tasks r.0)

create_task_aligned :
    (p : Platform) (top fuel trampoline entry_point stack_size : ℕ) (m : Machine) (cs : List ℕ)
    → IsHeap m.heap cs
    → IsVirtual p top m.heap.memory
    → NoneLarge m.heap.blocks cs
    → length cs + 2 < fuel
    → entry_point ≢ 0
    → stack_size ≢ 0
    → 4072 < align_stack_size stack_size
    → align_stack_size stack_size < 2 ^ 63
    → (r : ℕ × Machine) × (create_task p (top * 4096) fuel trampoline entry_point stack_size m
        ≡ some r)
      × (IsFailed m cs r
          ⊎ IsCreatedTask p top trampoline entry_point (align_stack_size stack_size) m cs r)
unfolding create_task
create_task_aligned p top fuel trampoline entry_point stack_size m cs heap virtual small enough
      entry some_size large word =
    let a = align_stack_size stack_size in
    let fill : ℕ → TaskState → TaskState =
      λ stack t. set_entry_point entry_point (fill_task trampoline stack a t) in
    let (r, ends, outcome) =
      allocate_task_lem p top fuel a fill m cs heap virtual small enough large word in
    (
      r,
      rw (create_task, ne→== entry_point 0 entry, ne→== stack_size 0 some_size) ends,
      elim outcome [
        | inl failed ↦ inl failed
        | inr made ↦ inr (record {
          fill = fill;
          made = made;
          started =
              rw (made.filled, update_self m.tasks r.0 (fill made.stack (m.tasks r.0)))
                (filled-IsStarted trampoline entry_point made.stack a (m.tasks r.0));
        })
      ],
    )

-- `create_task` with an entry point and a stack that no page holds, on a heap whose listed blocks are not marked
-- as pages of their own, under the invariant of the virtual pages and with fuel beyond two blocks more than
-- there are, ends: either the task is made, in memory of the heap that was not given out, starts at its entry point
-- with an empty stack of that size rounded up to a multiple of 16, which stands on pages of its own that were not
-- marked, and no other task changed; or it returns null, no task changed, and the bytes of the list that are given
-- out are those that were.
pub create_task_lem :
    (p : Platform) (top fuel trampoline entry_point stack_size : ℕ) (m : Machine) (cs : List ℕ)
    → IsHeap m.heap cs
    → IsVirtual p top m.heap.memory
    → NoneLarge m.heap.blocks cs
    → length cs + 2 < fuel
    → entry_point ≢ 0
    → 4072 < stack_size
    → stack_size < 2 ^ 62
    → (r : ℕ × Machine) × (create_task p (top * 4096) fuel trampoline entry_point stack_size m
        ≡ some r)
      × (IsFailed m cs r
          ⊎ IsCreatedTask p top trampoline entry_point ((stack_size + 15) / 16 * 16) m cs r)
create_task_lem p top fuel trampoline entry_point stack_size m cs heap virtual small enough entry
      large word =
    let aligned = align_stack_size_lem stack_size (omega arith) in
    subst
      (λ (a : ℕ).
        (r : ℕ × Machine) × (create_task p (top * 4096) fuel trampoline entry_point stack_size m
          ≡ some r)
        × (IsFailed m cs r ⊎ IsCreatedTask p top trampoline entry_point a m cs r))
      aligned
      (create_task_aligned p top fuel trampoline entry_point stack_size m cs heap virtual small
        enough entry (λ e. absurd (omega (arith, e))) (omega (arith, aligned))
        (omega (arith, aligned)))
