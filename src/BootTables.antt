-- ===== src/BootTables.antt =====
-- `MMU::init` of kernel/memory/mmu.cpp: the tables that the kernel starts with, and the registers that
-- describe them. The tables and the sections of the image are symbols of the linker.
pub mod Entries
pub mod Links
pub mod Established
pub mod Identity
pub mod Frames
use planetoid_os.Base.{
  ℕ, ◌+◌, ◌-◌, ◌*◌, ◌/◌, ◌%◌, Bool, if◌then◌else◌, bit_or, add64, sub64, mul64, u32_mod, ◌<<◌,
  for_range,
}
use planetoid_os.Descriptor.{
  make_table_descriptor, make_normal_block_descriptor, make_device_block_descriptor,
  make_normal_page_descriptor, attr_el1_rw, attr_el1_ro, attr_pxn, attr_uxn,
}
use planetoid_os.Mmu.{Mmu, write_entry, maintain, data_barrier, instruction_barrier, invalidate_all}

-- `first` and `second` are `level2_low_table` and `level2_peripheral_table` on the Pi, else `level2_table`
-- and `level2_ram_table`.
pub record BootTables : Type 0 where
  pub level1_table : ℕ
  pub level3_kernel_table : ℕ
  pub first : ℕ
  pub second : ℕ

pub record Section : Type 0 where
  pub start : ℕ
  pub end : ℕ

pub record MemorySections : Type 0 where
  pub text : Section
  pub rodata : Section
  pub data_section : Section
  pub bss : Section
  pub stack : Section

-- `TTBR0_EL1`, `MAIR_EL1` and `TCR_EL1`.
pub record TranslationRegisters : Type 0 where
  pub ttbr0 : ℕ
  pub mair : ℕ
  pub tcr : ℕ

abbrev pub device_permissions : ℕ
device_permissions = bit_or (bit_or attr_el1_rw attr_pxn) attr_uxn

-- The argument is `OS_PLATFORM_PI5`.
abbrev pub kernel_base : Bool → ℕ
kernel_base pi5 = if pi5 then 0x00200000 else 0x40000000

module _ (pi5 : Bool) (tables : BootTables) where
  unfoldable pub clear_boot_tables : Mmu → Mmu
  clear_boot_tables = for_range 512 0 (λ i s. write_entry tables.second i 0 (
      write_entry tables.first i 0
        (write_entry tables.level3_kernel_table i 0 (write_entry tables.level1_table i 0 s))))

  unfoldable pub init_pi5 : Mmu → Mmu
  init_pi5 s =
      let low = write_entry tables.level1_table 0 (make_table_descriptor tables.first) s in
      let linked = write_entry tables.level1_table 65 (make_table_descriptor tables.second) low in
      let blocks =
        for_range 512 0
          (λ i (t : Mmu).
            write_entry tables.first i (make_normal_block_descriptor (mul64 i 0x200000) attr_el1_rw)
              t)
          linked in
      let kernel =
        write_entry tables.first 1 (make_table_descriptor tables.level3_kernel_table) blocks in
      let uart =
        write_entry tables.second 488 (make_device_block_descriptor 0x107D000000 device_permissions)
          kernel in
      let led =
        write_entry tables.second 490 (make_device_block_descriptor 0x107D400000 device_permissions)
          uart in
      write_entry tables.second 511 (make_device_block_descriptor 0x107FE00000 device_permissions)
        led

  unfoldable pub init_virt : Mmu → Mmu
  init_virt s =
      let low = write_entry tables.level1_table 0 (make_table_descriptor tables.first) s in
      let linked = write_entry tables.level1_table 1 (make_table_descriptor tables.second) low in
      let gic =
        write_entry tables.first 64 (make_device_block_descriptor 0x08000000 device_permissions)
          linked in
      let uart =
        write_entry tables.first 72 (make_device_block_descriptor 0x09000000 device_permissions)
          gic in
      let kernel =
        write_entry tables.second 0 (make_table_descriptor tables.level3_kernel_table) uart in
      for_range 511 1
        (λ i (t : Mmu).
          write_entry tables.second i
            (make_normal_block_descriptor ((0x40000000 + i * 0x200000) % u32_mod) attr_el1_rw) t)
        kernel

  unfoldable pub map_kernel : Mmu → Mmu
  map_kernel = for_range 512 0 (λ i s.
      write_entry tables.level3_kernel_table i
        (make_normal_page_descriptor (add64 (kernel_base pi5) (mul64 i 0x1000)) attr_el1_rw) s)

  -- The loop over a section, one round for each page that begins in it.
  unfoldable pub map_section : (permissions : ℕ) → Section → Mmu → Mmu
  map_section permissions section =
      for_range ((section.end - section.start + 0xFFF) / 0x1000) 0 (λ i s.
        let address = section.start + i * 0x1000 in
        let index = sub64 address (kernel_base pi5) / 0x1000 % u32_mod in
        write_entry tables.level3_kernel_table index
          (make_normal_page_descriptor address permissions) s)

  abbrev pub translation_regime : ℕ
  translation_regime =
      bit_or
        (bit_or (bit_or (bit_or (bit_or 25 (0 << 14)) (0b11 << 12)) (0b01 << 8))
          (if pi5 then 0b010 << 32 else 0))
        (0b01 << 10)

  unfoldable pub init : MemorySections → Mmu → TranslationRegisters × Mmu
  init sections s =
      let cleared = clear_boot_tables s in
      let linked = if pi5 then init_pi5 cleared else init_virt cleared in
      let text = map_section attr_el1_ro sections.text (map_kernel linked) in
      let rodata = map_section (bit_or attr_el1_ro attr_pxn) sections.rodata text in
      let data_mapped = map_section (bit_or attr_el1_rw attr_pxn) sections.data_section rodata in
      let bss = map_section (bit_or attr_el1_rw attr_pxn) sections.bss data_mapped in
      let stack = map_section (bit_or attr_el1_rw attr_pxn) sections.stack bss in
      (
        record {
          ttbr0 = tables.level1_table;
          mair = bit_or (0x04 << 8) (0xFF << 0);
          tcr = translation_regime;
        },
        maintain instruction_barrier
            (maintain data_barrier (maintain invalidate_all (maintain data_barrier stack))),
      )
