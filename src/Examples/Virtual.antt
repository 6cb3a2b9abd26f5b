-- ===== src/Examples/Virtual.antt =====
-- No virtual page is in use, for kernel/memory/virtual_memory.cpp.
use planetoid_os.Base.{
  inl, inr, subst, ℕ, ◌+◌, ◌*◌, ◌<◌, ◌≡◌, refl, ◌∙◌, ◌⊎◌, true, false, arith, update, for_range,
}
use planetoid_os.Bitmap.{is_frame_used, set_frame_used}
use planetoid_os.Descriptor.{
  get_level1_index, get_level2_index, get_level3_index, make_table_descriptor,
}
use planetoid_os.PhysicalMemory.{allocate_frame, allocate_from}
use planetoid_os.Mmu.{map_page, clear_table}
use planetoid_os.Mmu.Tree.{leaf, next, get_physical_address-leaf}
use planetoid_os.Mmu.Entry.{address_of, resolve-zero}
use planetoid_os.VirtualMemory.Invariant.{IsVirtual}
use planetoid_os.VirtualMemory.Reach.{
  with_frame_taken, init-IsVirtual, Calls-init-IsVirtual, none_yet, then_call, allocate_run,
  free_one, take_frame,
}
use planetoid_os.VirtualMemory.AllocatePages.{IsRestored, IsRunAllocated, allocate_pages_lem}
use planetoid_os.VirtualMemory.FreePages.{FreesRun, free_pages_lem, free_pages-allocate_pages}
use planetoid_os.VirtualMemory.{
  VirtualMemory, init, find_free_run, back_pages, allocate_pages, free_pages, back_page,
  allocate_page, free_page,
}
use planetoid_os.VirtualMemory.Back.{IsBacked, IsUnbacked}
use planetoid_os.VirtualMemory.Allocate.{allocate_page_lem}
use planetoid_os.Examples.Frames.{virt}
use planetoid_os.Examples.Paging.{empty_tables, top, roles, empty-IsMmu, one_page}

abbrev pub unused : VirtualMemory
unused = record { virtual_bitmap = λ i. 0; mmu = empty_tables }

allocate_page_lem_example :
    let r = allocate_page virt (top * 4096) unused in
    ((page : ℕ) × (page < 4096)
      × (r.0 ≡ 0x80000000 + page * 4096)
      × (is_frame_used (λ i. 0) page ≡ false)
      × IsBacked virt top page roles unused r.1)
    ⊎ ((r.0 ≡ 0) × IsUnbacked virt top roles unused r.1)
allocate_page_lem_example = allocate_page_lem virt top roles unused empty-IsMmu

-- The page at 0x80000000 is mapped.
abbrev used : VirtualMemory
used = record { virtual_bitmap = λ i. 0xFF; mmu = one_page }

leaf-empty_tables : (i j k : ℕ) → leaf empty_tables.memory top i j k ≡ 0
unfolding leaf next
leaf-empty_tables i j k = refl

unused-unmapped : (vb : ℕ) → address_of top empty_tables vb ≡ 0
unused-unmapped vb =
    get_physical_address-leaf empty_tables.memory top vb
    ∙ rw (leaf-empty_tables (get_level1_index vb) (get_level2_index vb) (get_level3_index vb))
        (resolve-zero _)

pub started-IsVirtual : IsVirtual virt top (init unused)
started-IsVirtual =
    init-IsVirtual virt top roles unused empty-IsMmu (λ i. omega arith)
      (λ page vb h same. unused-unmapped vb)

-- Two pages, which take two frames and two tables.
abbrev pub two_pages : ℕ × VirtualMemory
two_pages = allocate_pages virt (top * 4096) 2 (init unused)

pub two_pages-address : two_pages.0 ≡ 0x80000000
unfolding allocate_pages init find_free_run back_pages back_page allocate_frame allocate_from
    is_frame_used set_frame_used map_page clear_table for_range update get_level1_index
    get_level2_index get_level3_index make_table_descriptor
two_pages-address = refl

allocate_pages_lem_example :
    ((first : ℕ) × IsRunAllocated virt top 2 (init unused) two_pages first)
    ⊎ ((two_pages.0 ≡ 0) × IsRestored virt top (init unused) two_pages.1)
allocate_pages_lem_example = allocate_pages_lem virt top 2 (init unused) started-IsVirtual

-- Two pages, a frame for another caller, and the first page back.
Calls-init-IsVirtual_example :
    IsVirtual virt top
      (free_page virt (top * 4096) 0x80000000 (with_frame_taken virt top two_pages.1)).1
Calls-init-IsVirtual_example =
    Calls-init-IsVirtual virt top roles unused
      (free_page virt (top * 4096) 0x80000000 (with_frame_taken virt top two_pages.1)).1 empty-IsMmu
      (λ i. omega arith) (λ page vb h same. unused-unmapped vb)
      (then_call
        (then_call (then_call none_yet (allocate_run 2 (init unused))) (take_frame two_pages.1))
        (free_one 0x80000000 (with_frame_taken virt top two_pages.1)))

two_pages-IsVirtual : IsVirtual virt top two_pages.1
two_pages-IsVirtual =
    Calls-init-IsVirtual virt top roles unused two_pages.1 empty-IsMmu (λ i. omega arith)
      (λ page vb h same. unused-unmapped vb) (then_call none_yet (allocate_run 2 (init unused)))

free_pages_lem_example :
    FreesRun virt top 0x80000000 2 two_pages.1
      (free_pages virt (top * 4096) 0x80000000 2 two_pages.1)
free_pages_lem_example = free_pages_lem virt top 0x80000000 2 two_pages.1 two_pages-IsVirtual

free_pages-allocate_pages_example :
    let r = free_pages virt (top * 4096) two_pages.0 2 two_pages.1 in
    (r.0 ≡ true) × IsRestored virt top (init unused) r.1
free_pages-allocate_pages_example =
    free_pages-allocate_pages virt top 2 (init unused) started-IsVirtual
      (rw two_pages-address (omega arith))

pub two_pages-IsRunAllocated : IsRunAllocated virt top 2 (init unused) two_pages 0
two_pages-IsRunAllocated = elim (allocate_pages_lem virt top 2 (init unused) started-IsVirtual) [
  | inr (failed, restored) ↦ absurd (omega (arith, failed, two_pages-address))
  | inl (first, run) ↦
      subst (λ (k : ℕ). IsRunAllocated virt top 2 (init unused) two_pages k)
        (omega (arith, run.address, two_pages-address)) run
]
