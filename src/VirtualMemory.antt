-- ===== src/VirtualMemory.antt =====
-- kernel/memory/virtual_memory.cpp: the virtual pages that the kernel hands out, each backed by a
-- physical frame. The bitmap's three functions are those of the frames.
pub mod Pages
pub mod Back
pub mod Invariant
pub mod Release
pub mod Runs
pub mod Fill
pub mod Search
pub mod AllocatePages
pub mod FreePages
pub mod Reach
pub mod Allocate
pub mod Free
use planetoid_os.Base.{
  ℕ, zero, suc, ◌+◌, ◌/◌, ◌-◌, Bool, true, false, not, ◌||◌, bit_and, bit_or, leb, ltb, ◌==◌,
  if◌then◌else◌, add64, sub64, mul64, update, for_range,
}
use planetoid_os.Bitmap.{Bitmap, set_frame_used, set_frame_free, is_frame_used}
use planetoid_os.Descriptor.{attr_el1_rw, attr_pxn}
use planetoid_os.PhysicalMemory.{Platform, page_size, allocate_frame, free_frame}
use planetoid_os.Mmu.{Mmu, normal, map_page, unmap_page, get_physical_address}

abbrev pub virtual_memory_start : ℕ
virtual_memory_start = 0x80000000

abbrev pub virtual_memory_end : ℕ
virtual_memory_end = 0x81000000

abbrev pub virtual_page_count : ℕ
virtual_page_count = (virtual_memory_end - virtual_memory_start) / page_size

abbrev pub virtual_bitmap_size : ℕ
virtual_bitmap_size = virtual_page_count / 8

pub record VirtualMemory : Type 0 where
  pub virtual_bitmap : Bitmap
  pub mmu : Mmu

-- The loop of `find_free_page`, at `page` with `left` rounds to go.
unfoldable pub find_free_from : (left page : ℕ) → Bitmap → ℕ
find_free_from zero page bitmap = virtual_page_count
find_free_from (suc left) page bitmap =
    let rest = find_free_from left (page + 1) bitmap in
    if not (is_frame_used bitmap page) then page else rest

abbrev pub find_free_page : Bitmap → ℕ
find_free_page = find_free_from virtual_page_count 0

unfoldable pub init : VirtualMemory → VirtualMemory
init v = record v {
  virtual_bitmap = for_range virtual_bitmap_size 0 (λ i bitmap. update bitmap i 0) v.virtual_bitmap;
}

abbrev pub page_address : ℕ → ℕ
page_address page = add64 virtual_memory_start (mul64 page page_size)

-- The search of `allocate_pages`, at `current_page` behind `consecutive` free pages.
unfoldable pub find_free_run : (left current_page consecutive page_count : ℕ) → Bitmap → ℕ
find_free_run zero current_page consecutive page_count bitmap = virtual_page_count
find_free_run (suc left) current_page consecutive page_count bitmap =
    let used = is_frame_used bitmap current_page in
    let now = if used then 0 else consecutive + 1 in
    let rest = find_free_run left (current_page + 1) now page_count bitmap in
    if used
    then rest
    else if now == page_count
    then add64 (sub64 current_page page_count) 1
    else rest

abbrev pub out_of_range : ℕ → Bool
out_of_range virtual_address =
    (ltb virtual_address virtual_memory_start || leb virtual_memory_end virtual_address)
    || not (bit_and virtual_address (page_size - 1) == 0)

abbrev pub page_of : ℕ → ℕ
page_of virtual_address = sub64 virtual_address virtual_memory_start / page_size

-- `level1_table` is the address of `MMU::level1_table`.
module _ (p : Platform) (level1_table : ℕ) where
  -- `PhysicalMemory::free_frame`
  abbrev pub give_back : ℕ → Mmu → Mmu
  give_back frame s = record s { physical = free_frame p frame s.physical }

  -- A frame for `page`, mapped at its address: what `allocate_page` and a round of
  -- `allocate_pages` share. If it fails the frame is given back.
  unfoldable pub back_page : (page : ℕ) → VirtualMemory → Bool × VirtualMemory
  back_page page v =
      let (frame, physical) = allocate_frame p v.mmu.physical in
      let s = record (v.mmu) { physical = physical } in
      if frame == 0
      then (false, record v { mmu = s })
      else let (mapped, s') =
          map_page p level1_table (page_address page) frame normal (bit_or attr_el1_rw attr_pxn)
            s in
        if mapped
        then (true, record { virtual_bitmap = set_frame_used v.virtual_bitmap page; mmu = s' })
        else (false, record v { mmu = give_back frame s' })

  unfoldable pub allocate_page : VirtualMemory → ℕ × VirtualMemory
  allocate_page v =
      let page = find_free_page v.virtual_bitmap in
      if page == virtual_page_count
      then (0, v)
      else let (backed, v') = back_page page v in
        if backed then (page_address page, v') else (0, v')

  -- The rounds of `allocate_pages` that back its pages, and how many succeeded.
  unfoldable pub back_pages : (left page allocated : ℕ) → VirtualMemory → ℕ × VirtualMemory
  back_pages zero page allocated v = (allocated, v)
  back_pages (suc left) page allocated v =
      let backed = back_page page v in
      let rest = back_pages left (page + 1) (allocated + 1) backed.1 in
      if backed.0 then rest else (allocated, backed.1)

  -- The rollback of `allocate_pages`.
  unfoldable pub undo_pages : (left page : ℕ) → VirtualMemory → VirtualMemory
  undo_pages zero page v = v
  undo_pages (suc left) page v =
      let address = page_address page in
      let frame = get_physical_address level1_table address v.mmu.memory in
      let s = (unmap_page level1_table address v.mmu).1 in
      undo_pages left (page + 1)
        (record { virtual_bitmap = set_frame_free v.virtual_bitmap page; mmu = give_back frame s })

  unfoldable pub allocate_pages : (page_count : ℕ) → VirtualMemory → ℕ × VirtualMemory
  allocate_pages page_count v =
      if (page_count == 0) || ltb virtual_page_count page_count
      then (0, v)
      else let first_page = find_free_run virtual_page_count 0 0 page_count v.virtual_bitmap in
        if first_page == virtual_page_count
        then (0, v)
        else let (allocated, v') = back_pages page_count first_page 0 v in
          if not (allocated == page_count)
          then (0, undo_pages allocated first_page v')
          else (page_address first_page, v')

  unfoldable pub free_page : (virtual_address : ℕ) → VirtualMemory → Bool × VirtualMemory
  free_page virtual_address v =
      let page = page_of virtual_address in
      if out_of_range virtual_address || not (is_frame_used v.virtual_bitmap page)
      then (false, v)
      else let physical_address = get_physical_address level1_table virtual_address v.mmu.memory in
        if physical_address == 0
        then (false, v)
        else let (unmapped, s) = unmap_page level1_table virtual_address v.mmu in
          if not unmapped then (false, record v { mmu = s }) else (
            true,
            record {
              virtual_bitmap = set_frame_free v.virtual_bitmap page;
              mmu = give_back physical_address s;
            },
          )

  -- The first loop of `free_pages`: every page is in use and mapped.
  unfoldable pub are_pages_used : (left i virtual_address : ℕ) → VirtualMemory → Bool
  are_pages_used zero i virtual_address v = true
  are_pages_used (suc left) i virtual_address v =
      let address = add64 virtual_address (mul64 i page_size) in
      let rest = are_pages_used left (i + 1) virtual_address v in
      if not (is_frame_used v.virtual_bitmap (page_of address))
      then false
      else if get_physical_address level1_table address v.mmu.memory == 0
      then false
      else rest

  -- The second loop of `free_pages`.
  unfoldable pub free_each : (left i virtual_address : ℕ) → VirtualMemory → Bool × VirtualMemory
  free_each zero i virtual_address v = (true, v)
  free_each (suc left) i virtual_address v =
      let freed = free_page (add64 virtual_address (mul64 i page_size)) v in
      let rest = free_each left (i + 1) virtual_address freed.1 in
      if not freed.0 then (false, freed.1) else rest

  unfoldable pub free_pages :
      (virtual_address page_count : ℕ) → VirtualMemory → Bool × VirtualMemory
  free_pages virtual_address page_count v =
      let last = add64 virtual_address (mul64 (sub64 page_count 1) page_size) in
      if (page_count == 0) || ltb virtual_page_count page_count || out_of_range virtual_address
      then (false, v)
      else if leb virtual_memory_end last
      then (false, v)
      else if not (are_pages_used page_count 0 virtual_address v)
      then (false, v)
      else free_each page_count 0 virtual_address v
