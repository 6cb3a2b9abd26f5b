-- ===== src/Creation/Leaks.antt =====
-- What `create_task` of kernel/core/task/task.cpp leaves of the heap when there is no stack to be had.
use planetoid_os.Base.{
  ℕ, ◌+◌, ◌-◌, ◌*◌, ◌/◌, ◌^◌, ◌<◌, ◌≡◌, ◌≢◌, refl, sym, ap, ◌∙◌, subst, ◌⊎◌, inl, inr, true, false,
  some, List, [], ◌∷◌, ◌++◌, arith, ◌==◌, ne→==, Bool-cases, length, update,
}
use planetoid_os.PhysicalMemory.{Platform}
use planetoid_os.WaitQueue.Fifo.{member, last_or}
use planetoid_os.VirtualMemory.Invariant.{IsVirtual}
use planetoid_os.KernelHeap.Search.{find_block-cases}
use planetoid_os.KernelHeap.Create.{create_block-cases}
use planetoid_os.KernelHeap.Large.{IsLarge, kmalloc-IsLarge}
use planetoid_os.KernelHeap.Pages.{kmalloc-IsVirtual}
use planetoid_os.Mmu.Tree.{Role, IsMmu}
use planetoid_os.Task.{TaskState}
use planetoid_os.KernelHeap.{
  Blocks, Heap, allocate_from_block, split_block, create_block, allocate_new, kmalloc,
}
use planetoid_os.KernelHeap.Chain.{in_use, covering-member}
use planetoid_os.KernelHeap.Invariant.{IsList}
use planetoid_os.KernelHeap.Allocate.{IsHeap, IsAllocated}
use planetoid_os.KernelHeap.Kmalloc.{kmalloc_lem}
use planetoid_os.KernelHeap.Cycle.{kfree-IsAllocated}
use planetoid_os.Creation.{Machine, allocate_task, task_size}

-- No block of the list is marked as pages of its own.
abbrev pub NoneLarge : Blocks → List ℕ → Type 0
NoneLarge blocks cs = (c : ℕ) → member c cs ≡ true → (blocks c).large ≡ false

-- Giving out a part of a block marks none.
allocate_from_block-large :
    (c size : ℕ) (h : Heap) (x : ℕ)
    → ((allocate_from_block c size h).1.blocks x).large ≡ (h.blocks x).large
unfolding allocate_from_block split_block update
allocate_from_block-large c size h x = ground arith

-- The memory given out is behind the block's header.
allocate_from_block-header :
    (c size : ℕ) (h : Heap)
    → c + 24 < 2 ^ 64
    → (h.blocks c).large ≡ false
    → let r = allocate_from_block c size h in r.0 ≢ 0 → (r.1.blocks (r.0 - 24)).large ≡ false
allocate_from_block-header c size h word small nonnull =
    let r = allocate_from_block c size h in
    let at : r.0 - 24 ≡ c = unfold allocate_from_block in ground arith in
    rw at (allocate_from_block-large c size h c ∙ small)

given-header :
    (r : ℕ × Heap) (c size : ℕ) (h : Heap)
    → r ≡ allocate_from_block c size h
    → c + 24 < 2 ^ 64
    → (h.blocks c).large ≡ false
    → r.0 ≢ 0
    → (r.1.blocks (r.0 - 24)).large ≡ false
given-header r c size h same word small nonnull =
    subst (λ (t : ℕ × Heap). (t.1.blocks (t.0 - 24)).large ≡ false) (sym same)
      (allocate_from_block-header c size h word small
        (λ e. nonnull (ap (λ (t : ℕ × Heap). t.0) same ∙ e)))

member-split : (pre : List ℕ) (c : ℕ) (post : List ℕ) → member c (pre ++ c ∷ post) ≡ true
member-split [] c post = ground arith
member-split (x ∷ pre) c post = ground (arith, member-split pre c post)

-- A block of the list is in the pages of the heap.
listed-small : (h : Heap) (cs : List ℕ) (c : ℕ) → IsHeap h cs → member c cs ≡ true → c + 24 < 2 ^ 64
listed-small h cs c heap listed = ground (arith, heap.placed c, covering-member h.blocks c cs c)

module _ (p : Platform) (top fuel : ℕ) (owner : ℕ → Role) (h : Heap) (cs : List ℕ)
    (heap : IsHeap h cs) (mmu : IsMmu p top owner h.memory.mmu) (small : NoneLarge h.blocks cs)
    (enough : length cs < fuel) where
  allocate_new-header :
      (previous : ℕ)
      → let r = allocate_new p (top * 4096) 328 previous h in
        r.0 ≢ 0 → (r.1.blocks (r.0 - 24)).large ≡ false
  unfolding allocate_new update
  allocate_new-header previous nonnull = elim (create_block-cases p top owner h mmu heap.bytes) [
    | inr (failed, same_blocks, same_first, same_pages) ↦
        absurd (nonnull (unfold allocate_new in ground arith))
    | inl made ↦
        let b = create_block p (top * 4096) h in
        let nonzero : (b.0 == 0) ≡ false =
          ground (arith, made.nonnull, ap (λ (t : ℕ × Heap). t.0) made.result) in
        let word : b.0 + 24 < 2 ^ 64 = rw made.result (omega (arith, made.high)) in
        let new : (b.1.blocks b.0).large ≡ false = rw made.result (ground arith) in
        elim (Bool-cases (previous == 0)) [
          | inl first ↦
              given-header (allocate_new p (top * 4096) 328 previous h) b.0 328
                (record (b.1) { first_block = b.0 }) (rw (allocate_new, nonzero, first) refl) word
                new nonnull
          | inr linked ↦
              given-header (allocate_new p (top * 4096) 328 previous h) b.0 328
                (record (b.1) {
                  blocks = update b.1.blocks previous (record (b.1.blocks previous) { next = b.0 });
                })
                (rw (allocate_new, nonzero, linked) refl) word (ground (arith, new)) nonnull
        ]
  ]

  -- Memory of a task is behind a block that is not marked.
  kmalloc_task-header :
      (r : ℕ × Heap)
      → kmalloc p (top * 4096) fuel task_size h ≡ some r
      → r.0 ≢ 0
      → (r.1.blocks (r.0 - 24)).large ≡ false
  unfolding kmalloc
  kmalloc_task-header r ends nonnull =
      elim (find_block-cases fuel h.blocks 328 0 h.first_block cs heap.list.chain enough) [
        | inl (c, q, nonzero, found, fit) ↦
            let listed : member c cs ≡ true =
              subst (λ (l : List ℕ). member c l ≡ true) (sym fit.splits)
                (member-split fit.pre c fit.post) in
            let same : r ≡ allocate_from_block c 328 h = ground (arith, ends, found) in
            given-header r c 328 h same (listed-small h cs c heap listed) (small c listed) nonnull
        | inr (found, none_fits) ↦
            let same : r ≡ allocate_new p (top * 4096) 328 (last_or 0 cs) h =
              ground (arith, ends, found) in
            subst (λ (t : ℕ × Heap). (t.1.blocks (t.0 - 24)).large ≡ false) (sym same)
              (allocate_new-header (last_or 0 cs)
                (λ e. nonnull (ap (λ (t : ℕ × Heap). t.0) same ∙ e)))
      ]

-- There was no memory: no task changed, and the bytes of the heap that are given out are those that were.
pub record IsFailed (m : Machine) (cs : List ℕ) (r : ℕ × Machine) : Type 0 where
  pub null : r.0 ≡ 0
  pub same_tasks : r.1.tasks ≡ m.tasks
  pub blocks_after : List ℕ
  pub list : IsList r.1.heap.blocks r.1.heap.first_block blocks_after
  pub same_use : (x : ℕ) → in_use r.1.heap.blocks blocks_after x ≡ in_use m.heap.blocks cs x

-- The task `r.0` stands in memory of the heap that was not given out, and is filled in with a stack of
-- `stack_size` bytes, rounded up to a multiple of 8, on pages of its own that were not marked; no other task changed.
pub record IsMade (p : Platform) (top stack_size : ℕ) (m : Machine) (cs : List ℕ)
    (fill : ℕ → TaskState → TaskState) (r : ℕ × Machine) : Type 0 where
  pub between : Heap
  pub allocated : IsAllocated m.heap cs 328 (r.0, between)
  pub stack : ℕ
  pub stack_memory :
      IsLarge p top between allocated.blocks_after ((stack_size + 7) / 8 * 8) (stack, r.1.heap)
  pub filled : r.1.tasks ≡ update m.tasks r.0 (fill stack (m.tasks r.0))

module _ (p : Platform) (top fuel stack_size : ℕ) (fill : ℕ → TaskState → TaskState) (m : Machine)
    (cs : List ℕ) (heap : IsHeap m.heap cs) (virtual : IsVirtual p top m.heap.memory)
    (small : NoneLarge m.heap.blocks cs) (enough : length cs + 2 < fuel) (large : 4072 < stack_size)
    (word : stack_size < 2 ^ 63) where
  -- The task's memory is there: the stack decides.
  allocate_task-allocated :
      (r : ℕ × Heap)
      → kmalloc p (top * 4096) fuel task_size m.heap ≡ some r
      → IsAllocated m.heap cs 328 r
      → (s : ℕ × Machine) × (allocate_task p (top * 4096) fuel stack_size fill m ≡ some s)
        × (IsFailed m cs s ⊎ IsMade p top stack_size m cs fill s)
  unfolding allocate_task
  allocate_task-allocated r ends allocated =
      let g = allocated.given in
      let still =
        kmalloc_task-header p top fuel virtual.roles m.heap cs heap virtual.mmu small (omega arith)
          r ends g.nonnull in
      let kept = kmalloc-IsVirtual p top fuel task_size m.heap r ends virtual in
      let (stack, got, outcome) =
        kmalloc-IsLarge p top r.1 allocated.blocks_after allocated.heap kept fuel stack_size large
          (omega arith) in
      elim outcome [
        | inr (nothing, restored, same) ↦
            let (h', cs', freed, list, same_use) =
              kfree-IsAllocated p (top * 4096) fuel m.heap cs 328 r stack.1.memory allocated still
                enough in
            (
              (0, record m { heap = h' }),
              rw (allocate_task, ends, ne→== r.0 0 g.nonnull, got, nothing, same, freed) refl,
              inl (record {
                null = refl;
                same_tasks = refl;
                blocks_after = cs';
                list = list;
                same_use = same_use;
              }),
            )
        | inl own ↦
            let nonzero : (stack.0 == 0) ≡ false = ground (arith, own.at) in
            (
              (
                r.0,
                record { heap = stack.1; tasks = update m.tasks r.0 (fill stack.0 (m.tasks r.0)) },
              ),
              rw (allocate_task, ends, ne→== r.0 0 g.nonnull, got, nonzero) refl,
              inr (record {
                between = r.1;
                allocated = allocated;
                stack = stack.0;
                stack_memory = own;
                filled = refl;
              }),
            )
      ]

  pub allocate_task_lem :
      (s : ℕ × Machine) × (allocate_task p (top * 4096) fuel stack_size fill m ≡ some s)
      × (IsFailed m cs s ⊎ IsMade p top stack_size m cs fill s)
  unfolding allocate_task
  allocate_task_lem =
      let (r, ends, outcome) =
        kmalloc_lem p top fuel task_size virtual.roles m.heap cs heap virtual.mmu (omega arith)
          (omega arith) (omega arith) in
      elim outcome [
        | inl allocated ↦ allocate_task-allocated r ends allocated
        | inr exhausted ↦
            rw (allocate_task, ends, exhausted.null)
              (
                (0, record m { heap = r.1 }),
                refl,
                inl (record {
                  null = refl;
                  same_tasks = refl;
                  blocks_after = cs;
                  list = exhausted.heap.list;
                  same_use = λ x. rw exhausted.same_blocks refl;
                }),
              )
      ]
