-- ===== src/Examples/Heap.antt =====
-- An empty heap and one of a single page, for kernel/memory/kernel_heap.cpp.
use planetoid_os.Base.{
  ℕ, ◌+◌, ◌-◌, ◌*◌, ◌/◌, ◌≡◌, refl, ◌⊎◌, false, some, List, [], ◌∷◌, arith, update,
}
use planetoid_os.Bitmap.{set_frame_used}
use planetoid_os.Bitmap.Marks.{set_frame_used-IsBytes, is_frame_used-set_frame_used}
use planetoid_os.VirtualMemory.{VirtualMemory, allocate_page}
use planetoid_os.KernelHeap.{Block, Heap, init, kfree, kmalloc, allocate_from_block, split_block}
use planetoid_os.KernelHeap.Chain.{in_use}
use planetoid_os.KernelHeap.Extend.{fresh, first-IsExtended}
use planetoid_os.KernelHeap.Invariant.{IsList}
use planetoid_os.KernelHeap.Allocate.{IsHeap, IsAllocated, IsExhausted, first_fit-IsAllocated}
use planetoid_os.KernelHeap.Boot.{IsFresh, init-IsFresh}
use planetoid_os.KernelHeap.Kmalloc.{kmalloc_lem}
use planetoid_os.KernelHeap.Kfree.{IsFreed, kfree_lem}
use planetoid_os.KernelHeap.Cycle.{kfree-IsAllocated}
use planetoid_os.Examples.Frames.{virt}
use planetoid_os.Examples.Paging.{top, roles, empty-IsMmu, empty_tables}
use planetoid_os.Examples.Virtual.{unused}

abbrev blank : Block
blank = record { size = 0; free = false; large = false; next = 0 }

abbrev empty : Heap
empty = record { blocks = λ a. blank; first_block = 0; memory = unused }

-- The page at 0x80000000 belongs to the heap.
abbrev paged_memory : VirtualMemory
paged_memory = record { virtual_bitmap = set_frame_used (λ i. 0) 0; mmu = empty_tables }

abbrev one_block : Heap
one_block = record {
  blocks = update (λ a. blank) 0x80000000 fresh;
  first_block = 0x80000000;
  memory = paged_memory;
}

one_block-IsHeap : IsHeap one_block (0x80000000 ∷ [])
one_block-IsHeap =
    let extended =
      first-IsExtended (λ a. blank) 0 0x80000000 (λ e. absurd (omega (arith, e))) (omega arith) in
    record {
      list = extended.list;
      placed = λ x.
          rw
            (
              extended.bytes x,
              is_frame_used-set_frame_used (λ i. 0) 0 (λ i. omega arith) ((x - 0x80000000) / 4096),
            )
            (ground arith);
      bytes = set_frame_used-IsBytes (λ i. 0) 0 (λ i. omega arith);
    }

init-IsFresh_example :
    IsFresh (init virt (top * 4096) empty)
    × ((init virt (top * 4096) empty).first_block
        ≡ (allocate_page virt (top * 4096) empty.memory).0)
    × ((init virt (top * 4096) empty).memory ≡ (allocate_page virt (top * 4096) empty.memory).1)
init-IsFresh_example = init-IsFresh virt top roles empty empty-IsMmu (λ i. omega arith)

kmalloc_lem_example :
    (r : ℕ × Heap) × (kmalloc virt (top * 4096) 2 100 one_block ≡ some r)
    × (IsAllocated one_block (0x80000000 ∷ []) 104 r
        ⊎ IsExhausted one_block (0x80000000 ∷ []) 104 r)
kmalloc_lem_example =
    kmalloc_lem virt top 2 100 roles one_block (0x80000000 ∷ []) one_block-IsHeap empty-IsMmu
      (omega arith) (omega arith) (omega arith)

kfree_lem_example :
    (h' : Heap) × (kfree virt (top * 4096) 2 (0x80000000 + 24) one_block ≡ some h')
    × IsFreed one_block (0x80000000 ∷ []) 0x80000000 h'
unfolding update
kfree_lem_example =
    kfree_lem virt (top * 4096) 2 one_block (0x80000000 ∷ []) 0x80000000 one_block-IsHeap refl refl
      (omega arith)

-- 100 bytes of the page.
hundred : IsAllocated one_block (0x80000000 ∷ []) 104 (allocate_from_block 0x80000000 104 one_block)
unfolding update
hundred =
    first_fit-IsAllocated one_block (0x80000000 ∷ []) 104 0x80000000 one_block-IsHeap (record {
      pre = [];
      post = [];
      splits = refl;
      free = refl;
      enough = omega arith;
      first = λ d h. absurd (ground arith);
    })

hundred-small :
    let r = allocate_from_block 0x80000000 104 one_block in (r.1.blocks (r.0 - 24)).large ≡ false
unfolding allocate_from_block split_block update
hundred-small = refl

kfree-IsAllocated_example :
    let r = allocate_from_block 0x80000000 104 one_block in
    (h' : Heap) × (cs' : List ℕ) × (kfree virt (top * 4096) 4 r.0 (record (r.1) { memory = unused })
      ≡ some h')
    × IsList h'.blocks h'.first_block cs'
    × ((x : ℕ) → in_use h'.blocks cs' x ≡ in_use one_block.blocks (0x80000000 ∷ []) x)
kfree-IsAllocated_example =
    kfree-IsAllocated virt (top * 4096) 4 one_block (0x80000000 ∷ []) 104
      (allocate_from_block 0x80000000 104 one_block) unused hundred hundred-small (omega arith)
