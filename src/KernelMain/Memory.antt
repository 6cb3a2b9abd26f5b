-- ===== src/KernelMain/Memory.antt =====
-- The memory of the kernel once `kernel_main` of kernel/kernel.cpp has started it: the parts together.
use planetoid_os.Base.{
  ℕ, ◌+◌, ◌-◌, ◌*◌, ◌/◌, ◌%◌, ◌≤◌, ◌<◌, ◌≡◌, refl, ◌∙◌, subst, inl, inr, true, false, arith, ◌==◌,
  Bool-cases,
}
use planetoid_os.Bitmap.Marks.{IsBytes}
use planetoid_os.Descriptor.{get_level1_index, get_level2_index, get_level3_index}
use planetoid_os.Descriptor.Fields.{level1-lt, level2-lt, level3-lt, page_of_indices}
use planetoid_os.PhysicalMemory
use planetoid_os.PhysicalMemory.{Platform, PhysicalMemory, physical_memory_base}
use planetoid_os.PhysicalMemory.Init.{IsLinked}
use planetoid_os.PhysicalMemory.Allocate.{available}
use planetoid_os.PhysicalMemory.Boot.{
  CoversMemory, init_frame_count, init-managed, init-IsWellFormed,
}
use planetoid_os.PhysicalMemory.Ranges.{base_lem}
use planetoid_os.Mmu.{Mmu}
use planetoid_os.Mmu.Tree.{other, IsMmu, get_physical_address-leaf}
use planetoid_os.Mmu.Entry.{address_of, same_page, resolve-zero}
use planetoid_os.BootTables
use planetoid_os.BootTables.{BootTables, MemorySections, kernel_base}
use planetoid_os.BootTables.Entries.{IsPlaced}
use planetoid_os.BootTables.Links.{AreInside}
use planetoid_os.BootTables.Established.{boot_roles, booted, init-IsTree, leaf-elsewhere}
use planetoid_os.BootTables.Frames.{init-physical}
use planetoid_os.BootTables.Identity.{init-identity}
use planetoid_os.VirtualMemory
use planetoid_os.VirtualMemory.{VirtualMemory, page_address, allocate_page}
use planetoid_os.VirtualMemory.Invariant.{IsVirtual}
use planetoid_os.VirtualMemory.Allocate.{allocate_page_lem}
use planetoid_os.VirtualMemory.Reach.{init-IsVirtual, allocate_page-IsVirtual}
use planetoid_os.KernelHeap
use planetoid_os.KernelHeap.{Heap}
use planetoid_os.KernelHeap.Boot.{IsFresh, init-IsFresh}
use planetoid_os.KernelMain.{KernelState, enable, start_mmu, start_memory}

-- The linker puts the four tables into the image of the kernel.
abbrev pub IsInImage : Platform → ℕ → Type 0
IsInImage p a = (p.kernel_start ≤ a) × (a < p.kernel_end)

pub record AreInImage (p : Platform) (tables : BootTables) : Type 0 where
  pub level1 : IsInImage p tables.level1_table
  pub first : IsInImage p tables.first
  pub second : IsInImage p tables.second
  pub kernel : IsInImage p tables.level3_kernel_table

-- What the linker and the loader give: the image, the tables in it, the sections, and arrays of bytes.
pub record IsLoaded (p : Platform) (tables : BootTables) (sections : MemorySections)
    (k : KernelState) : Type 0 where
  pub linked : IsLinked p
  pub covers : CoversMemory p
  pub placed : IsPlaced tables
  pub in_image : AreInImage p tables
  pub inside : AreInside p.pi5 tables placed sections
  pub frame_bytes : IsBytes k.heap.memory.mmu.physical.bitmap
  pub page_bytes : IsBytes k.heap.memory.virtual_bitmap

module _ (p : Platform) (tables : BootTables) (sections : MemorySections) (k : KernelState)
    (loaded : IsLoaded p tables sections k) where
  abbrev top : ℕ
  top = tables.level1_table / 4096

  abbrev physical : PhysicalMemory
  physical = (BootTables.init p.pi5 tables sections k.heap.memory.mmu).1.physical

  physical-IsBytes : IsBytes physical.bitmap
  physical-IsBytes = rw (init-physical p.pi5 tables sections k.heap.memory.mmu) loaded.frame_bytes

  top_address : top * 4096 ≡ tables.level1_table
  top_address = omega (arith, loaded.placed.level1_aligned)

  -- No table stands on a free frame.
  image-unavailable :
      (a : ℕ)
      → IsInImage p a
      → a % 4096 ≡ 0
      → available p (PhysicalMemory.init p physical) a ≡ false
  image-unavailable a image aligned =
      ground
        (arith, init-managed p physical loaded.linked loaded.covers physical-IsBytes a, base_lem p)

  table-taken :
      (a t : ℕ)
      → available p (PhysicalMemory.init p physical) a ≡ true
      → IsInImage p t
      → t % 4096 ≡ 0
      → (t == a / 4096 * 4096) ≡ false
  table-taken a t free image aligned = elim (Bool-cases (t == a / 4096 * 4096)) [
    | inr differ ↦ differ
    | inl same ↦
        let here : t ≡ a = ground arith in
        let taken = rw here at (image-unavailable t image aligned) in cc
  ]

  free-other :
      (a : ℕ)
      → available p (PhysicalMemory.init p physical) a ≡ true
      → boot_roles p.pi5 tables loaded.placed (a / 4096) ≡ other
  free-other a free =
      rw
        (
          table-taken a tables.level1_table free loaded.in_image.level1
              loaded.placed.level1_aligned,
          table-taken a tables.first free loaded.in_image.first loaded.placed.first_aligned,
          table-taken a tables.second free loaded.in_image.second loaded.placed.second_aligned,
          table-taken a tables.level3_kernel_table free loaded.in_image.kernel
              loaded.placed.kernel_aligned,
        )
        refl

  -- The state between `PhysicalMemory::init` and `VirtualMemory::init`.
  abbrev counted : Mmu
  counted =
      record ((enable k.sctlr (BootTables.init p.pi5 tables sections k.heap.memory.mmu).1).1) {
        physical = PhysicalMemory.init p physical;
      }

  counted-memory :
      counted.memory ≡ booted p.pi5 tables loaded.placed sections loaded.inside k.heap.memory.mmu
  unfolding enable
  counted-memory = refl

  counted-IsMmu : IsMmu p top (boot_roles p.pi5 tables loaded.placed) counted
  counted-IsMmu = record {
    tree =
        rw counted-memory
          (init-IsTree p.pi5 tables loaded.placed sections loaded.inside k.heap.memory.mmu);
    allocator = init-IsWellFormed p physical loaded.linked loaded.covers physical-IsBytes;
    addressable = ground (arith, init_frame_count p physical);
    free_frames = free-other;
  }

  virtual-index :
      (page vb : ℕ)
      → page < 4096
      → same_page (page_address page) vb ≡ true
      → get_level1_index vb ≡ 2
  virtual-index page vb h same =
      let e = page_of_indices (page_address page) (omega arith) in
      ground (
        arith,
        level1-lt (page_address page),
        level2-lt (page_address page),
        level3-lt (page_address page),
      )

  counted-unmapped :
      (page vb : ℕ)
      → page < 4096
      → same_page (page_address page) vb ≡ true
      → address_of top counted vb ≡ 0
  unfolding enable
  counted-unmapped page vb h same =
      get_physical_address-leaf counted.memory top vb
      ∙ rw
          (leaf-elsewhere p.pi5 tables loaded.placed sections loaded.inside k.heap.memory.mmu
            (get_level1_index vb) (get_level2_index vb) (get_level3_index vb) (level1-lt vb)
            (rw (virtual-index page vb h same) refl)
            (rw (virtual-index page vb h same) (ground arith)))
          (resolve-zero _)

  -- The state between `VirtualMemory::init` and `KernelHeapAllocator::init`.
  paged : VirtualMemory
  paged = VirtualMemory.init (record (k.heap.memory) { mmu = counted })

  paged-IsVirtual : IsVirtual p top paged
  unfolding paged
  paged-IsVirtual =
      init-IsVirtual p top (boot_roles p.pi5 tables loaded.placed)
        (record (k.heap.memory) { mmu = counted }) counted-IsMmu loaded.page_bytes counted-unmapped

  -- The kernel's addresses lie on no page that is handed out.
  kernel-not_virtual :
      (page va : ℕ) → page < 4096 → va < 0x80000000 → same_page (page_address page) va ≡ false
  kernel-not_virtual page va h below = elim (Bool-cases (same_page (page_address page) va)) [
    | inr differ ↦ differ
    | inl same ↦
        let index = virtual-index page va h same in
        let e = page_of_indices va (omega arith) in absurd (omega (arith, index, e))
  ]

  counted-identity :
      (va : ℕ)
      → kernel_base p.pi5 ≤ va
      → va < kernel_base p.pi5 + 0x200000
      → address_of top counted va ≡ va
  unfolding enable
  counted-identity va low high =
      (init-identity p.pi5 tables loaded.placed sections loaded.inside k.heap.memory.mmu
        ((va - kernel_base p.pi5) / 4096) va (omega arith) (omega arith, omega arith)).0

  kernel_below : (va : ℕ) → va < kernel_base p.pi5 + 0x200000 → va < 0x80000000
  kernel_below va high = ground arith

  -- One page is handed out, and the kernel's own translation stays.
  allocated-identity :
      (va : ℕ)
      → kernel_base p.pi5 ≤ va
      → va < kernel_base p.pi5 + 0x200000
      → address_of top (allocate_page p (top * 4096) paged).1.mmu va ≡ va
  unfolding paged VirtualMemory.init
  allocated-identity va low high =
      elim (allocate_page_lem p top (boot_roles p.pi5 tables loaded.placed) paged counted-IsMmu) [
        | inl (page, h, address, unmarked, backed) ↦
            backed.translated va
            ∙ rw (kernel-not_virtual page va h (kernel_below va high))
                (counted-identity va low high)
        | inr (e, unbacked) ↦ unbacked.translated va ∙ counted-identity va low high
      ]

  heap-memory : (l : ℕ) (h : Heap) → (KernelHeap.init p l h).memory ≡ (allocate_page p l h.memory).1
  unfolding KernelHeap.init KernelHeap.create_block
  heap-memory l h = ground arith

-- The memory is started: the invariant of the pages holds, the heap is fresh, and the kernel's
-- 2 MiB translate to themselves.
pub record IsMemoryStarted (p : Platform) (top : ℕ) (heap : Heap) : Type 0 where
  pub virtual : IsVirtual p top heap.memory
  pub fresh : IsFresh heap
  pub identity :
      (va : ℕ)
      → kernel_base p.pi5 ≤ va
      → va < kernel_base p.pi5 + 0x200000
      → address_of top heap.memory.mmu va ≡ va

module _ (p : Platform) (tables : BootTables) (sections : MemorySections) (k : KernelState)
    (loaded : IsLoaded p tables sections k) where
  paged_heap : Heap
  paged_heap = record (k.heap) { memory = paged p tables sections k loaded }

  started-heap :
      (start_memory p tables (start_mmu p tables sections k)).heap
      ≡ KernelHeap.init p tables.level1_table paged_heap
  unfolding start_memory start_mmu paged paged_heap
  started-heap = refl

  paged_heap-IsMemoryStarted :
      IsMemoryStarted p
        (tables.level1_table / 4096)
        (KernelHeap.init p (tables.level1_table / 4096 * 4096) paged_heap)
  unfolding paged_heap
  paged_heap-IsMemoryStarted = record {
    virtual =
        rw (heap-memory p tables sections k loaded (tables.level1_table / 4096 * 4096) paged_heap) (
          allocate_page-IsVirtual p (tables.level1_table / 4096) _
            (paged-IsVirtual p tables sections k loaded));
    fresh =
        (init-IsFresh p (tables.level1_table / 4096)
          (paged-IsVirtual p tables sections k loaded).roles paged_heap
          (paged-IsVirtual p tables sections k loaded).mmu
          (paged-IsVirtual p tables sections k loaded).bytes).0;
    identity = λ va low high.
        rw (heap-memory p tables sections k loaded (tables.level1_table / 4096 * 4096) paged_heap)
          (allocated-identity p tables sections k loaded va low high);
  }

  -- On the image that the linker and the loader give, the initialisers of memory in the order of
  -- `kernel_main` leave the pages under their invariant, a heap of which nothing is given out, and
  -- tables that translate the kernel's 2 MiB to themselves.
  pub start_memory-IsMemoryStarted :
      IsMemoryStarted p
        (tables.level1_table / 4096)
        (start_memory p tables (start_mmu p tables sections k)).heap
  start_memory-IsMemoryStarted = rw started-heap (
      subst
        (λ (l : ℕ). IsMemoryStarted p (tables.level1_table / 4096) (KernelHeap.init p l paged_heap))
        (top_address p tables sections k loaded) paged_heap-IsMemoryStarted)
