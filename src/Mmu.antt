-- ===== src/Mmu.antt =====
-- kernel/memory/mmu.hpp and kernel/memory/mmu.cpp: the operations on the translation tables.
--
-- The words of memory are a function from a byte address: an entry of a table stands at the table's
-- address plus eight times its index. The tables are read and written through the identity mapping,
-- so a table's pointer is its physical address, and a null pointer is 0. The barriers and the
-- invalidations of the TLB are recorded, newest first.
pub mod Tree
pub mod Create
pub mod Grow
pub mod Leaf
pub mod Entry
pub mod Map
pub mod Unmap
use planetoid_os.Base.{
  ℕ, ◌+◌, ◌*◌, Bool, true, false, not, ◌||◌, Option, none, some, List, ◌∷◌, bit_and, ◌==◌,
  if◌then◌else◌, add64, mul64, ◌>>◌, update, for_range,
}
use planetoid_os.Descriptor.{
  table_descriptor, page_descriptor, address_mask, make_table_descriptor,
  make_normal_page_descriptor, make_device_page_descriptor, get_level1_index, get_level2_index,
  get_level3_index,
}
use planetoid_os.PhysicalMemory.{Platform, PhysicalMemory, allocate_frame}

-- `tlbi vae1` takes a page number.
pub data Maintenance : Type 0 where
  data_barrier instruction_barrier invalidate_all : Maintenance
  invalidate_page : ℕ → Maintenance

pub record Mmu : Type 0 where
  pub memory : ℕ → ℕ
  pub physical : PhysicalMemory
  pub maintenance : List Maintenance

pub data MemoryType : Type 0 where
  normal device : MemoryType

pub record PageTable : Type 0 where
  pub physical_address : ℕ
  pub virtual_address : ℕ

abbrev pub null : ℕ
null = 0

-- `table[index]`
abbrev pub entry_address : (table index : ℕ) → ℕ
entry_address table index = table + 8 * index

abbrev pub write_entry : (table index value : ℕ) → Mmu → Mmu
write_entry table index value s = record s {
  memory = update s.memory (entry_address table index) value;
}

abbrev pub maintain : Maintenance → Mmu → Mmu
maintain m s = record s { maintenance = m ∷ s.maintenance }

abbrev pub invalidate_tlb : ℕ → Mmu → Mmu
invalidate_tlb virtual_address = maintain (invalidate_page (virtual_address >> 12))

-- The calls that follow each write of a level 3 entry.
unfoldable pub synchronise : ℕ → Mmu → Mmu
synchronise virtual_address s =
    maintain instruction_barrier
      (maintain data_barrier (invalidate_tlb virtual_address (maintain data_barrier s)))

unfoldable pub invalidate_tlb_range : (virtual_address page_count : ℕ) → Mmu → Mmu
invalidate_tlb_range virtual_address page_count s = maintain instruction_barrier (
    maintain data_barrier
      (for_range page_count 0 (λ i. invalidate_tlb (add64 virtual_address (mul64 i 0x1000))) s))

unfoldable pub clear_table : ℕ → (ℕ → ℕ) → ℕ → ℕ
clear_table table = for_range 512 0 λ i memory. update memory (entry_address table i) 0

-- Both pointers null when there is no frame.
unfoldable pub allocate_page_table : Platform → Mmu → PageTable × Mmu
allocate_page_table p s =
    let (physical_address, physical) = allocate_frame p s.physical in
    if physical_address == 0
    then (record { physical_address = 0; virtual_address = null }, record s { physical = physical })
    else (
      record { physical_address = physical_address; virtual_address = physical_address },
      record s { memory = clear_table physical_address s.memory; physical = physical },
    )

-- What `get_or_create_level2_table` and `get_or_create_level3_table` do at an entry that is 0.
unfoldable pub create_table : Platform → (table index : ℕ) → Mmu → ℕ × Mmu
unfolding allocate_page_table
create_table p table index s =
    let (page_table, s') = allocate_page_table p s in
    if page_table.virtual_address == null then (null, s') else (
      page_table.virtual_address,
      write_entry table index (make_table_descriptor page_table.physical_address) s',
    )

-- `level1_table` is the address of `MMU::level1_table`.
module _ (p : Platform) (level1_table : ℕ) where
  unfoldable pub get_or_create_level2_table : ℕ → Mmu → ℕ × Mmu
  unfolding create_table
  get_or_create_level2_table virtual_address s =
      let level1_index = get_level1_index virtual_address in
      let level1_entry = s.memory (entry_address level1_table level1_index) in
      if not (level1_entry == 0)
      then (bit_and level1_entry address_mask, s)
      else create_table p level1_table level1_index s

  unfoldable pub get_or_create_level3_table : (level2_table virtual_address : ℕ) → Mmu → ℕ × Mmu
  unfolding create_table
  get_or_create_level3_table level2_table virtual_address s =
      let level2_index = get_level2_index virtual_address in
      let level2_entry = s.memory (entry_address level2_table level2_index) in
      if not (level2_entry == 0)
      then if not (bit_and level2_entry 0b11 == table_descriptor)
        then (null, s)
        else (bit_and level2_entry address_mask, s)
      else create_table p level2_table level2_index s

  -- The rest of `map_page`, once the level 3 table is there.
  unfoldable pub map_entry :
      (level3_table virtual_address physical_address : ℕ) → MemoryType → ℕ → Mmu → Bool × Mmu
  unfolding synchronise
  map_entry level3_table virtual_address physical_address memory_type permissions s =
      let level3_index = get_level3_index virtual_address in
      if not (s.memory (entry_address level3_table level3_index) == 0)
      then (false, s)
      else let descriptor : ℕ = elim memory_type [
        | normal ↦ make_normal_page_descriptor physical_address permissions
        | device ↦ make_device_page_descriptor physical_address permissions
      ] in
        (true, synchronise virtual_address (write_entry level3_table level3_index descriptor s))

  unfoldable pub map_page :
      (virtual_address physical_address : ℕ) → MemoryType → ℕ → Mmu → Bool × Mmu
  unfolding get_or_create_level2_table get_or_create_level3_table map_entry
  map_page virtual_address physical_address memory_type permissions s =
      if not (bit_and virtual_address 0xFFF == 0) || not (bit_and physical_address 0xFFF == 0)
      then (false, s)
      else let (level2_table, s') = get_or_create_level2_table virtual_address s in
        if level2_table == null
        then (false, s')
        else let (level3_table, s'') = get_or_create_level3_table level2_table virtual_address s' in
          if level3_table == null
          then (false, s'')
          else map_entry level3_table virtual_address physical_address memory_type permissions s''

-- The walk that `unmap_page` and `get_physical_address` share: the level 3 table, or `none` where
-- the two functions return early.
unfoldable pub find_level3_table : (level1_table virtual_address : ℕ) → (ℕ → ℕ) → Option ℕ
find_level3_table level1_table virtual_address memory =
    let level1_entry = memory (entry_address level1_table (get_level1_index virtual_address)) in
    if level1_entry == 0
    then none
    else if not (bit_and level1_entry 0b11 == table_descriptor)
    then none
    else let level2_table = bit_and level1_entry address_mask in
      let level2_entry = memory (entry_address level2_table (get_level2_index virtual_address)) in
      if level2_entry == 0
      then none
      else if not (bit_and level2_entry 0b11 == table_descriptor)
      then none
      else some (bit_and level2_entry address_mask)

unfoldable pub unmap_page : (level1_table virtual_address : ℕ) → Mmu → Bool × Mmu
unfolding find_level3_table synchronise
unmap_page level1_table virtual_address s =
    if not (bit_and virtual_address 0xFFF == 0)
    then (false, s)
    else elim (find_level3_table level1_table virtual_address s.memory) [
      | none ↦ (false, s)
      | some level3_table ↦
          let level3_index = get_level3_index virtual_address in
          if s.memory (entry_address level3_table level3_index) == 0
          then (false, s)
          else (true, synchronise virtual_address (write_entry level3_table level3_index 0 s))
    ]

unfoldable pub get_physical_address : (level1_table virtual_address : ℕ) → (ℕ → ℕ) → ℕ
unfolding find_level3_table
get_physical_address level1_table virtual_address memory =
    let page_offset = bit_and virtual_address 0xFFF in
    elim (find_level3_table level1_table virtual_address memory) [
      | none ↦ 0
      | some level3_table ↦
          let level3_entry =
            memory (entry_address level3_table (get_level3_index virtual_address)) in
          if level3_entry == 0
          then 0
          else if not (bit_and level3_entry 0b11 == page_descriptor)
          then 0
          else add64 (bit_and level3_entry address_mask) page_offset
    ]
