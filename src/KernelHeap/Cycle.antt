-- ===== src/KernelHeap/Cycle.antt =====
-- `kmalloc` followed by `kfree`, in kernel/memory/kernel_heap.cpp.
use planetoid_os.Base.{ℕ, ◌-◌, ◌<◌, ◌≡◌, sym, ap, ◌∙◌, subst, false, some, List, arith, length, ◌+◌}
use planetoid_os.PhysicalMemory.{Platform}
use planetoid_os.KernelHeap.{Heap, kfree}
use planetoid_os.KernelHeap.Chain.{in_use}
use planetoid_os.KernelHeap.Invariant.{IsList}
use planetoid_os.KernelHeap.Allocate.{IsAllocated}
use planetoid_os.KernelHeap.Kfree.{kfree-IsReleased}
use planetoid_os.VirtualMemory.{VirtualMemory}

-- Memory that was just allocated, in a block whose `large` is false, is freed with fuel beyond two blocks more than
-- there were, whatever became of the pages in the meantime: `kfree` ends, the blocks form a list, and the bytes that
-- are given out are those that were before the allocation.
pub kfree-IsAllocated :
    (p : Platform) (level1_table fuel : ℕ) (h : Heap) (cs : List ℕ) (size : ℕ) (r : ℕ × Heap)
    (memory : VirtualMemory)
    → IsAllocated h cs size r
    → (r.1.blocks (r.0 - 24)).large ≡ false
    → length cs + 2 < fuel
    → (h' : Heap) × (cs' : List ℕ) × (kfree p level1_table fuel r.0
          (record (r.1) { memory = memory })
        ≡ some h')
      × IsList h'.blocks h'.first_block cs'
      × ((x : ℕ) → in_use h'.blocks cs' x ≡ in_use h.blocks cs x)
kfree-IsAllocated p level1_table fuel h cs size r memory allocated small enough =
    let g = allocated.given in
    let now = record (r.1) { memory = memory } in
    let block : r.0 - 24 ≡ g.block = omega (arith, g.at) in
    let (h', ends, released) =
      kfree-IsReleased p level1_table fuel now allocated.blocks_after g.block allocated.heap.list
        g.listed (sym (ap (λ (a : ℕ). (r.1.blocks a).large) block) ∙ small)
        (omega (arith, allocated.few)) in
    (
      h',
      released.blocks_after,
      subst (λ (a : ℕ). kfree p level1_table fuel a now ≡ some h') (sym g.at) ends,
      released.list,
      λ x. ground (arith, released.now_used x, g.now_used x, g.was_unused x, g.at, g.size_of),
    )
