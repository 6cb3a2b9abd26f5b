-- ===== src/BootTables/Links.antt =====
-- The tables above the level 3 table that `MMU::init` of kernel/memory/mmu.cpp writes.
use planetoid_os.Base.{
  ℕ, zero, suc, ◌+◌, ◌*◌, ◌%◌, ◌≤◌, ◌<◌, ◌≡◌, refl, ◌∙◌, inl, inr, Bool, true, false, ◌&&◌, ◌||◌,
  arith, bit_or, ltb, leb, ◌==◌, if◌then◌else◌, Bool-cases, u32_mod, mul64, for_range,
}
use planetoid_os.Descriptor.{
  make_table_descriptor, make_normal_block_descriptor, make_device_block_descriptor,
  make_normal_page_descriptor, attr_el1_rw, attr_el1_ro, attr_pxn,
}
use planetoid_os.Mmu.{Mmu, write_entry}
use planetoid_os.Mmu.Tree.{entry_at}
use planetoid_os.BootTables.{
  BootTables, Section, MemorySections, device_permissions, kernel_base, clear_boot_tables, init_pi5,
  init_virt, map_kernel, map_section, init,
}
use planetoid_os.BootTables.Entries.{
  IsPlaced, IsInside, in_section, written-entry, filled-entry, map_section-entry, map_kernel-entry,
}

entry_at-if :
    (b : Bool) (s s' : Mmu) (x x' t j : ℕ)
    → entry_at s.memory t j ≡ x
    → entry_at s'.memory t j ≡ x'
    → entry_at (if b then s else s').memory t j ≡ (if b then x else x')
entry_at-if true s s' x x' t j e e' = e
entry_at-if false s s' x x' t j e e' = e'

module _ (pi5 : Bool) (tables : BootTables) (placed : IsPlaced tables) where
  -- Page `t` holds one of the tables.
  abbrev pub is_boot_table : ℕ → Bool
  is_boot_table t =
      (tables.level1_table == t * 4096)
      || (tables.level3_kernel_table == t * 4096)
      || (tables.first == t * 4096)
      || (tables.second == t * 4096)

  -- What `init_virt` writes behind the level 1 table.
  abbrev pub virt_entry : (t j : ℕ) → ℕ
  virt_entry t j =
      if tables.level1_table == t * 4096
      then (if j == 0
          then make_table_descriptor tables.first
          else if j == 1
          then make_table_descriptor tables.second
          else 0)
      else if tables.first == t * 4096
      then (if j == 64
          then make_device_block_descriptor 0x08000000 device_permissions
          else if j == 72
          then make_device_block_descriptor 0x09000000 device_permissions
          else 0)
      else if tables.second == t * 4096
      then (if j == 0
          then make_table_descriptor tables.level3_kernel_table
          else make_normal_block_descriptor ((0x40000000 + j * 0x200000) % u32_mod) attr_el1_rw)
      else 0

  -- What `init_pi5` writes behind the level 1 table.
  abbrev pub pi5_entry : (t j : ℕ) → ℕ
  pi5_entry t j =
      if tables.level1_table == t * 4096
      then (if j == 0
          then make_table_descriptor tables.first
          else if j == 65
          then make_table_descriptor tables.second
          else 0)
      else if tables.first == t * 4096
      then (if j == 1
          then make_table_descriptor tables.level3_kernel_table
          else make_normal_block_descriptor (mul64 j 0x200000) attr_el1_rw)
      else if tables.second == t * 4096
      then (if j == 488
          then make_device_block_descriptor 0x107D000000 device_permissions
          else if j == 490
          then make_device_block_descriptor 0x107D400000 device_permissions
          else if j == 511
          then make_device_block_descriptor 0x107FE00000 device_permissions
          else 0)
      else 0

  clear_loop :
      (n k : ℕ) (s : Mmu) (t j : ℕ)
      → k + n ≤ 512
      → j < 512
      → entry_at
          (for_range n k
            (λ i s. write_entry tables.second i 0 (
              write_entry tables.first i 0 (
                write_entry tables.level3_kernel_table i 0
                  (write_entry tables.level1_table i 0 s))))
            s).memory
          t
          j
        ≡ (if is_boot_table t && leb k j && ltb j (k + n) then 0 else entry_at s.memory t j)
  unfolding for_range
  clear_loop zero k s t j h hj = ground arith
  clear_loop (suc n) k s t j h hj =
      let one = write_entry tables.level1_table k 0 s in
      let two = write_entry tables.level3_kernel_table k 0 one in
      let three = write_entry tables.first k 0 two in
      ground (
        arith,
        clear_loop n (k + 1) (write_entry tables.second k 0 three) t j (omega arith) hj,
        written-entry tables.second k 0 three t j placed.second_aligned (omega arith) hj,
        written-entry tables.first k 0 two t j placed.first_aligned (omega arith) hj,
        written-entry tables.level3_kernel_table k 0 one t j placed.kernel_aligned (omega arith) hj,
        written-entry tables.level1_table k 0 s t j placed.level1_aligned (omega arith) hj,
      )

  clear_boot_tables-entry :
      (s : Mmu) (t j : ℕ)
      → j < 512
      → entry_at (clear_boot_tables pi5 tables s).memory t j
        ≡ (if is_boot_table t then 0 else entry_at s.memory t j)
  unfolding clear_boot_tables
  clear_boot_tables-entry s t j hj = ground (arith, clear_loop 512 0 s t j (omega arith) hj)

  -- `init_virt` behind `clear_boot_tables`.
  init_virt-entry :
      (s : Mmu) (t j : ℕ)
      → j < 512
      → is_boot_table t ≡ true
      → (tables.level3_kernel_table == t * 4096) ≡ false
      → entry_at (init_virt pi5 tables (clear_boot_tables pi5 tables s)).memory t j ≡ virt_entry t j
  unfolding init_virt
  init_virt-entry s t j hj table no_kernel =
      let cleared = clear_boot_tables pi5 tables s in
      let low = write_entry tables.level1_table 0 (make_table_descriptor tables.first) cleared in
      let linked = write_entry tables.level1_table 1 (make_table_descriptor tables.second) low in
      let gic =
        write_entry tables.first 64 (make_device_block_descriptor 0x08000000 device_permissions)
          linked in
      let uart =
        write_entry tables.first 72 (make_device_block_descriptor 0x09000000 device_permissions)
          gic in
      let kernel =
        write_entry tables.second 0 (make_table_descriptor tables.level3_kernel_table) uart in
      ground (
        arith,
        placed.level1-first,
        placed.level1-second,
        placed.first-second,
        filled-entry tables.second
            (λ i. make_normal_block_descriptor ((0x40000000 + i * 0x200000) % u32_mod) attr_el1_rw)
            511 1 kernel t j placed.second_aligned (omega arith) hj,
        written-entry tables.second 0 (make_table_descriptor tables.level3_kernel_table) uart t j
            placed.second_aligned (omega arith) hj,
        written-entry tables.first 72 (make_device_block_descriptor 0x09000000 device_permissions)
            gic t j placed.first_aligned (omega arith) hj,
        written-entry tables.first 64 (make_device_block_descriptor 0x08000000 device_permissions)
            linked t j placed.first_aligned (omega arith) hj,
        written-entry tables.level1_table 1 (make_table_descriptor tables.second) low t j
            placed.level1_aligned (omega arith) hj,
        written-entry tables.level1_table 0 (make_table_descriptor tables.first) cleared t j
            placed.level1_aligned (omega arith) hj,
        clear_boot_tables-entry s t j hj,
      )

  -- `init_pi5` behind `clear_boot_tables`.
  init_pi5-entry :
      (s : Mmu) (t j : ℕ)
      → j < 512
      → is_boot_table t ≡ true
      → (tables.level3_kernel_table == t * 4096) ≡ false
      → entry_at (init_pi5 pi5 tables (clear_boot_tables pi5 tables s)).memory t j ≡ pi5_entry t j
  unfolding init_pi5
  init_pi5-entry s t j hj table no_kernel =
      let cleared = clear_boot_tables pi5 tables s in
      let low = write_entry tables.level1_table 0 (make_table_descriptor tables.first) cleared in
      let linked = write_entry tables.level1_table 65 (make_table_descriptor tables.second) low in
      let blocks =
        for_range 512 0
          (λ i (t : Mmu).
            write_entry tables.first i (make_normal_block_descriptor (mul64 i 0x200000) attr_el1_rw)
              t)
          linked in
      let kernel =
        write_entry tables.first 1 (make_table_descriptor tables.level3_kernel_table) blocks in
      let uart =
        write_entry tables.second 488 (make_device_block_descriptor 0x107D000000 device_permissions)
          kernel in
      let led =
        write_entry tables.second 490 (make_device_block_descriptor 0x107D400000 device_permissions)
          uart in
      ground (
        arith,
        placed.level1-first,
        placed.level1-second,
        placed.first-second,
        written-entry tables.second 511
            (make_device_block_descriptor 0x107FE00000 device_permissions) led t j
            placed.second_aligned (omega arith) hj,
        written-entry tables.second 490
            (make_device_block_descriptor 0x107D400000 device_permissions) uart t j
            placed.second_aligned (omega arith) hj,
        written-entry tables.second 488
            (make_device_block_descriptor 0x107D000000 device_permissions) kernel t j
            placed.second_aligned (omega arith) hj,
        written-entry tables.first 1 (make_table_descriptor tables.level3_kernel_table) blocks t j
            placed.first_aligned (omega arith) hj,
        filled-entry tables.first (λ i. make_normal_block_descriptor (mul64 i 0x200000) attr_el1_rw)
            512 0 linked t j placed.first_aligned (omega arith) hj,
        written-entry tables.level1_table 65 (make_table_descriptor tables.second) low t j
            placed.level1_aligned (omega arith) hj,
        written-entry tables.level1_table 0 (make_table_descriptor tables.first) cleared t j
            placed.level1_aligned (omega arith) hj,
        clear_boot_tables-entry s t j hj,
      )

  -- The permissions of page `j` of the kernel: those of the last section that it lies in.
  abbrev pub permissions_of : MemorySections → ℕ → ℕ
  permissions_of sections j =
      if in_section pi5 sections.stack j
      then bit_or attr_el1_rw attr_pxn
      else if in_section pi5 sections.bss j
      then bit_or attr_el1_rw attr_pxn
      else if in_section pi5 sections.data_section j
      then bit_or attr_el1_rw attr_pxn
      else if in_section pi5 sections.rodata j
      then bit_or attr_el1_ro attr_pxn
      else if in_section pi5 sections.text j
      then attr_el1_ro
      else attr_el1_rw

  pub record AreInside (sections : MemorySections) : Type 0 where
    pub text : IsInside pi5 sections.text
    pub rodata : IsInside pi5 sections.rodata
    pub data_section : IsInside pi5 sections.data_section
    pub bss : IsInside pi5 sections.bss
    pub stack : IsInside pi5 sections.stack

  -- The tests of the five sections, in the order in which the last one decides.
  permission_chain :
      (kernel text rodata data_mapped bss stack : Bool) (x : ℕ) (d : ℕ → ℕ)
      → (if kernel && stack
          then d (bit_or attr_el1_rw attr_pxn)
          else if kernel && bss
          then d (bit_or attr_el1_rw attr_pxn)
          else if kernel && data_mapped
          then d (bit_or attr_el1_rw attr_pxn)
          else if kernel && rodata
          then d (bit_or attr_el1_ro attr_pxn)
          else if kernel && text
          then d attr_el1_ro
          else if kernel
          then d attr_el1_rw
          else x)
        ≡ (if kernel
            then d (
                if stack
                then bit_or attr_el1_rw attr_pxn
                else if bss
                then bit_or attr_el1_rw attr_pxn
                else if data_mapped
                then bit_or attr_el1_rw attr_pxn
                else if rodata
                then bit_or attr_el1_ro attr_pxn
                else if text
                then attr_el1_ro
                else attr_el1_rw)
            else x)
  permission_chain false text rodata data_mapped bss stack x d = refl
  permission_chain true text rodata data_mapped bss true x d = refl
  permission_chain true text rodata data_mapped true false x d = refl
  permission_chain true text rodata true false false x d = refl
  permission_chain true text true false false false x d = refl
  permission_chain true true false false false false x d = refl
  permission_chain true false false false false false x d = refl

  -- `map_kernel` and the five sections, from any state.
  abbrev with_sections : MemorySections → Mmu → Mmu
  with_sections sections linked =
      let text = map_section pi5 tables attr_el1_ro sections.text (map_kernel pi5 tables linked) in
      let rodata = map_section pi5 tables (bit_or attr_el1_ro attr_pxn) sections.rodata text in
      let data_mapped =
        map_section pi5 tables (bit_or attr_el1_rw attr_pxn) sections.data_section rodata in
      let bss = map_section pi5 tables (bit_or attr_el1_rw attr_pxn) sections.bss data_mapped in
      map_section pi5 tables (bit_or attr_el1_rw attr_pxn) sections.stack bss

  sections-entry :
      (sections : MemorySections)
      → AreInside sections
      → (linked : Mmu) (t j : ℕ) → j < 512
      → entry_at (with_sections sections linked).memory t j ≡ (
          if tables.level3_kernel_table == t * 4096
          then make_normal_page_descriptor (kernel_base pi5 + j * 4096) (permissions_of sections j)
          else entry_at linked.memory t j)
  sections-entry sections inside linked t j hj =
      let entry = λ (permissions : ℕ) (section : Section) (h : IsInside pi5 section) (s : Mmu).
        map_section-entry pi5 tables placed permissions section h s t j hj in
      rw
        (
          entry _ _ inside.stack _,
          entry _ _ inside.bss _,
          entry _ _ inside.data_section _,
          entry _ _ inside.rodata _,
          entry _ _ inside.text _,
          map_kernel-entry pi5 tables placed linked t j hj,
        )
        (permission_chain (tables.level3_kernel_table == t * 4096) (in_section pi5 sections.text j)
          (in_section pi5 sections.rodata j) (in_section pi5 sections.data_section j)
          (in_section pi5 sections.bss j) (in_section pi5 sections.stack j)
          (entry_at linked.memory t j) (make_normal_page_descriptor (kernel_base pi5 + j * 4096)))

  -- An entry of one of the tables after `init`.
  pub init-entry :
      (sections : MemorySections)
      → AreInside sections
      → (s : Mmu) (t j : ℕ) → j < 512
      → is_boot_table t ≡ true
      → entry_at (init pi5 tables sections s).1.memory t j ≡ (
          if tables.level3_kernel_table == t * 4096
          then make_normal_page_descriptor (kernel_base pi5 + j * 4096) (permissions_of sections j)
          else if pi5
          then pi5_entry t j
          else virt_entry t j)
  unfolding init
  init-entry sections inside s t j hj table =
      let cleared = clear_boot_tables pi5 tables s in
      let linked = if pi5 then init_pi5 pi5 tables cleared else init_virt pi5 tables cleared in
      sections-entry sections inside linked t j hj
      ∙ elim (Bool-cases (tables.level3_kernel_table == t * 4096)) [
        | inl here ↦ rw here refl
        | inr elsewhere ↦ rw elsewhere (
            entry_at-if pi5 _ _ _ _ t j (init_pi5-entry s t j hj table elsewhere)
              (init_virt-entry s t j hj table elsewhere))
      ]
