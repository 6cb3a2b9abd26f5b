-- ===== src/Examples/Large.antt =====
-- 5000 bytes on two pages, for kernel/memory/kernel_heap.cpp, and a task
-- on a heap that has no block yet, for kernel/core/task/task.cpp.
use planetoid_os.Base.{ℕ, ◌*◌, ◌≡◌, refl, ◌⊎◌, false, some, [], arith, update}
use planetoid_os.VirtualMemory
use planetoid_os.VirtualMemory.{VirtualMemory}
use planetoid_os.VirtualMemory.AllocatePages.{IsRestored}
use planetoid_os.KernelHeap.{Block, Heap, kmalloc, kfree}
use planetoid_os.KernelHeap.Allocate.{IsHeap}
use planetoid_os.KernelHeap.Boot.{no_blocks-IsHeap}
use planetoid_os.KernelHeap.Large.{
  large_block, IsLarge, pages-IsLarge, kmalloc-IsLarge, kfree-IsLarge,
}
use planetoid_os.Task.{ready}
use planetoid_os.Creation.{Machine, create_task}
use planetoid_os.Creation.Leaks.{IsFailed}
use planetoid_os.Creation.Started.{IsCreatedTask, create_task_lem}
use planetoid_os.Examples.Tasks.{task}
use planetoid_os.Examples.Frames.{virt}
use planetoid_os.Examples.Paging.{top}
use planetoid_os.Examples.Virtual.{unused, started-IsVirtual, two_pages, two_pages-IsRunAllocated}

abbrev no_block : Block
no_block = record { size = 0; free = false; large = false; next = 0 }

abbrev no_heap : Heap
no_heap = record { blocks = λ a. no_block; first_block = 0; memory = VirtualMemory.init unused }

no_heap-IsHeap : IsHeap no_heap []
no_heap-IsHeap = no_blocks-IsHeap no_heap refl started-IsVirtual.bytes

kmalloc-IsLarge_example :
    (r : ℕ × Heap) × (kmalloc virt (top * 4096) 1 5000 no_heap ≡ some r)
    × (IsLarge virt top no_heap [] 5000 r
        ⊎ ((r.0 ≡ 0)
            × IsRestored virt top no_heap.memory r.1.memory
            × (r.1 ≡ record no_heap { memory = r.1.memory })))
kmalloc-IsLarge_example =
    kmalloc-IsLarge virt top no_heap [] no_heap-IsHeap started-IsVirtual 1 5000 (omega arith)
      (omega arith)

-- The memory behind the two pages.
abbrev large_memory : ℕ × Heap
large_memory = (
  0x80000018,
  record no_heap {
    blocks = update no_heap.blocks 0x80000000 (large_block 5000);
    memory = two_pages.1;
  },
)

large_memory-IsLarge : IsLarge virt top no_heap [] 5000 large_memory
large_memory-IsLarge =
    pages-IsLarge virt top no_heap [] no_heap-IsHeap started-IsVirtual 5000 0 two_pages.1
      (omega arith)
      (record {
        positive = two_pages-IsRunAllocated.positive;
        run = two_pages-IsRunAllocated.run;
        address = refl;
        filled = two_pages-IsRunAllocated.filled;
      })

kfree-IsLarge_example :
    (h' : Heap) × (kfree virt (top * 4096) 0 0x80000018 large_memory.1 ≡ some h')
    × IsRestored virt top no_heap.memory h'.memory
    × (h' ≡ record (large_memory.1) { memory = h'.memory })
kfree-IsLarge_example =
    kfree-IsLarge virt top no_heap [] no_heap-IsHeap started-IsVirtual 0 5000 large_memory
      large_memory-IsLarge

-- No task stands in the heap.
abbrev machine : Machine
machine = record { heap = no_heap; tasks = λ t. task ready 0 0 }

create_task_lem_example :
    (r : ℕ × Machine) × (create_task virt (top * 4096) 4 0x40080000 0x40081000 4096 machine
      ≡ some r)
    × (IsFailed machine [] r ⊎ IsCreatedTask virt top 0x40080000 0x40081000 4096 machine [] r)
create_task_lem_example =
    create_task_lem virt top 4 0x40080000 0x40081000 4096 machine [] no_heap-IsHeap
      started-IsVirtual (λ c e. absurd (ground arith)) (omega arith)
      (λ e. absurd (omega (arith, e))) (omega arith) (omega arith)
