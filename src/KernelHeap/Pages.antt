-- ===== src/KernelHeap/Pages.antt =====
-- The pages that `kmalloc` of kernel/memory/kernel_heap.cpp takes.
use planetoid_os.Base.{
  ℕ, ◌-◌, ◌*◌, ◌≡◌, ◌∙◌, ◌⊎◌, inl, inr, ◌||◌, some, arith, ltb, ◌==◌, Bool-cases, Option-cases,
  u64_mod, add64,
}
use planetoid_os.PhysicalMemory.{Platform}
use planetoid_os.VirtualMemory.{VirtualMemory, allocate_page, allocate_pages}
use planetoid_os.VirtualMemory.Invariant.{IsVirtual}
use planetoid_os.VirtualMemory.AllocatePages.{allocate_pages_lem}
use planetoid_os.VirtualMemory.Reach.{allocate_page-IsVirtual}
use planetoid_os.KernelHeap.{
  Heap, align_size, allocate_from_block, pages_of, create_block, allocate_new, allocate_large,
  find_block, kmalloc,
}

module _ (p : Platform) (top : ℕ) where
  allocate_from_block-memory :
      (block size : ℕ) (h : Heap) → (allocate_from_block block size h).1.memory ≡ h.memory
  unfolding allocate_from_block
  allocate_from_block-memory block size h = ground arith

  create_block-memory :
      (h : Heap)
      → (create_block p (top * 4096) h).1.memory ≡ (allocate_page p (top * 4096) h.memory).1
  unfolding create_block
  create_block-memory h = ground arith

  allocate_new-memory :
      (size previous : ℕ) (h : Heap)
      → (allocate_new p (top * 4096) size previous h).1.memory
        ≡ (allocate_page p (top * 4096) h.memory).1
  unfolding allocate_new
  allocate_new-memory size previous h = elim (Bool-cases ((create_block p (top * 4096) h).0 == 0)) [
    | inl failed ↦ rw failed (create_block-memory h)
    | inr made ↦
        rw made (allocate_from_block-memory _ size _ ∙ ground (arith, create_block-memory h))
  ]

  allocate_large-memory :
      (size : ℕ) (h : Heap)
      → (allocate_large p (top * 4096) size h).1.memory
        ≡ (allocate_pages p (top * 4096) (pages_of (add64 size 24)) h.memory).1
  unfolding allocate_large
  allocate_large-memory size h = ground arith

  allocate_pages-IsVirtual :
      (count : ℕ) (v : VirtualMemory)
      → IsVirtual p top v
      → IsVirtual p top (allocate_pages p (top * 4096) count v).1
  allocate_pages-IsVirtual count v virtual = elim (allocate_pages_lem p top count v virtual) [
    | inl (first, run) ↦ run.filled.virtual
    | inr (e, restored) ↦ restored.virtual
  ]

  -- The pages after a call of `kmalloc` are those before, or those after `allocate_page` or
  -- `allocate_pages`.
  abbrev Takes : VirtualMemory → VirtualMemory → Type 0
  Takes v v' =
      (v' ≡ v)
      ⊎ ((v' ≡ (allocate_page p (top * 4096) v).1)
          ⊎ ((count : ℕ) × (v' ≡ (allocate_pages p (top * 4096) count v).1)))

  kmalloc-Takes :
      (fuel size : ℕ) (h : Heap) (r : ℕ × Heap)
      → kmalloc p (top * 4096) fuel size h ≡ some r
      → Takes h.memory r.1.memory
  unfolding kmalloc
  kmalloc-Takes fuel size h r e =
      let aligned = align_size size in
      elim (Bool-cases ((size == 0) || ltb (u64_mod - 1 - 24) aligned)) [
        | inl refused ↦ inl (ground arith)
        | inr fits ↦ elim (Bool-cases (ltb 4072 aligned)) [
          | inl large ↦
              inr
                (inr (pages_of (add64 aligned 24), ground (arith, allocate_large-memory aligned h)))
          | inr small ↦ elim (Option-cases (find_block fuel h.blocks aligned 0 h.first_block)) [
            | inl stuck ↦ absurd (ground arith)
            | inr ((block, previous), found) ↦ elim (Bool-cases (block == 0)) [
              | inl none_fits ↦ inr (inl (ground (arith, allocate_new-memory aligned previous h)))
              | inr fits_in ↦ inl (ground (arith, allocate_from_block-memory block aligned h))
            ]
          ]
        ]
      ]

  Takes-IsVirtual : (v v' : VirtualMemory) → Takes v v' → IsVirtual p top v → IsVirtual p top v'
  Takes-IsVirtual v v' (inl same) virtual = rw same virtual
  Takes-IsVirtual v v' (inr (inl one)) virtual = rw one (allocate_page-IsVirtual p top v virtual)
  Takes-IsVirtual v v' (inr (inr (count, several))) virtual =
      rw several (allocate_pages-IsVirtual count v virtual)

  -- A call of `kmalloc` that ends keeps the invariant of the pages.
  pub kmalloc-IsVirtual :
      (fuel size : ℕ) (h : Heap) (r : ℕ × Heap)
      → kmalloc p (top * 4096) fuel size h ≡ some r
      → IsVirtual p top h.memory
      → IsVirtual p top r.1.memory
  kmalloc-IsVirtual fuel size h r e virtual =
      Takes-IsVirtual h.memory r.1.memory (kmalloc-Takes fuel size h r e) virtual
