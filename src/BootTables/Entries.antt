-- ===== src/BootTables/Entries.antt =====
-- What `MMU::init` of kernel/memory/mmu.cpp writes to each entry of its tables.
use planetoid_os.Base.{
  ℕ, zero, suc, ◌+◌, ◌-◌, ◌*◌, ◌/◌, ◌%◌, ◌^◌, ◌≤◌, ◌<◌, ◌≡◌, ◌≢◌, ap, Bool, ◌&&◌, arith, ltb, leb,
  ◌==◌, if◌then◌else◌, u32_mod, add64, sub64, mul64, update, for_range,
}
use planetoid_os.Descriptor.{make_normal_page_descriptor, attr_el1_rw}
use planetoid_os.Mmu.{Mmu, write_entry}
use planetoid_os.Mmu.Tree.{entry_at}
use planetoid_os.BootTables.{BootTables, Section, kernel_base, map_kernel, map_section}

-- The linker gives each table a page of its own, below 2^48 and not at address 0.
pub record IsPlaced (tables : BootTables) : Type 0 where
  pub level1_aligned : tables.level1_table % 4096 ≡ 0
  pub first_aligned : tables.first % 4096 ≡ 0
  pub second_aligned : tables.second % 4096 ≡ 0
  pub kernel_aligned : tables.level3_kernel_table % 4096 ≡ 0
  pub first_nonzero : tables.first ≢ 0
  pub second_nonzero : tables.second ≢ 0
  pub kernel_nonzero : tables.level3_kernel_table ≢ 0
  pub first_small : tables.first < 2 ^ 48
  pub second_small : tables.second < 2 ^ 48
  pub kernel_small : tables.level3_kernel_table < 2 ^ 48
  pub level1-first : tables.level1_table ≢ tables.first
  pub level1-second : tables.level1_table ≢ tables.second
  pub level1-kernel : tables.level1_table ≢ tables.level3_kernel_table
  pub first-second : tables.first ≢ tables.second
  pub first-kernel : tables.first ≢ tables.level3_kernel_table
  pub second-kernel : tables.second ≢ tables.level3_kernel_table

-- The section begins on a page and lies in the 2 MiB of the kernel.
pub record IsInside (pi5 : Bool) (section : Section) : Type 0 where
  pub aligned : section.start % 4096 ≡ 0
  pub above : kernel_base pi5 ≤ section.start
  pub ordered : section.start ≤ section.end
  pub below : section.end ≤ kernel_base pi5 + 0x200000

pub written-entry :
    (a i x : ℕ) (s : Mmu) (t j : ℕ)
    → a % 4096 ≡ 0
    → i < 512
    → j < 512
    → entry_at (write_entry a i x s).memory t j
      ≡ (if (a == t * 4096) && (i == j) then x else entry_at s.memory t j)
unfolding update
written-entry a i x s t j aligned hi hj = ground arith

-- A loop that writes the entries of one table in order.
pub filled-entry :
    (a : ℕ) (f : ℕ → ℕ) (n k : ℕ) (s : Mmu) (t j : ℕ)
    → a % 4096 ≡ 0
    → k + n ≤ 512
    → j < 512
    → entry_at (for_range n k (λ i s. write_entry a i (f i) s) s).memory t j
      ≡ (if (a == t * 4096) && leb k j && ltb j (k + n) then f j else entry_at s.memory t j)
unfolding for_range
filled-entry a f zero k s t j aligned h hj = ground arith
filled-entry a f (suc n) k s t j aligned h hj = ground (
  arith,
  filled-entry a f n (k + 1) (write_entry a k (f k) s) t j aligned (omega arith) hj,
  written-entry a k (f k) s t j aligned (omega arith) hj,
)

-- Page `j` of the kernel lies in the section.
abbrev pub in_section : Bool → Section → ℕ → Bool
in_section pi5 section j =
    leb section.start (kernel_base pi5 + j * 4096) && ltb (kernel_base pi5 + j * 4096) section.end

module _ (pi5 : Bool) (tables : BootTables) (placed : IsPlaced tables) where
  kernel_base-le : kernel_base pi5 ≤ 0x40000000
  kernel_base-le = ground arith

  kernel_base-aligned : kernel_base pi5 % 4096 ≡ 0
  kernel_base-aligned = ground arith

  -- The index that the loop computes for round `k`.
  section_index :
      (section : Section)
      → IsInside pi5 section
      → (k : ℕ) → section.start + k * 4096 < section.end
      → (index : ℕ) × (index < 512)
        × (sub64 (section.start + k * 0x1000) (kernel_base pi5) / 0x1000 % u32_mod ≡ index)
        × (section.start + k * 4096 ≡ kernel_base pi5 + index * 4096)
  section_index section inside k h = (
    (section.start + k * 4096 - kernel_base pi5) / 4096,
    omega (arith, inside.above, inside.below),
    omega (arith, inside.above, inside.below, kernel_base-le),
    omega (arith, inside.above, inside.aligned, kernel_base-aligned),
  )

  section_loop :
      (permissions : ℕ) (section : Section)
      → IsInside pi5 section
      → (n k : ℕ) (s : Mmu) (t j : ℕ) → section.start + (k + n) * 4096 < section.end + 4096
      → j < 512
      → entry_at
          (for_range n k
            (λ i s.
              let address = section.start + i * 0x1000 in
              let index = sub64 address (kernel_base pi5) / 0x1000 % u32_mod in
              write_entry tables.level3_kernel_table index
                (make_normal_page_descriptor address permissions)
                s)
            s).memory
          t
          j
        ≡ (if (tables.level3_kernel_table == t * 4096)
              && leb (section.start + k * 4096) (kernel_base pi5 + j * 4096)
              && ltb (kernel_base pi5 + j * 4096) (section.start + (k + n) * 4096)
            then make_normal_page_descriptor (kernel_base pi5 + j * 4096) permissions
            else entry_at s.memory t j)
  unfolding for_range
  section_loop permissions section inside zero k s t j h hj = ground arith
  section_loop permissions section inside (suc n) k s t j h hj =
      let (index, small, e, place) = section_index section inside k (omega arith) in
      let address = section.start + k * 0x1000 in
      let raw = sub64 address (kernel_base pi5) / 0x1000 % u32_mod in
      ground (
        arith,
        e,
        place,
        section_loop permissions section inside n (k + 1)
            (write_entry tables.level3_kernel_table raw
              (make_normal_page_descriptor address permissions) s)
            t j (omega arith) hj,
        written-entry tables.level3_kernel_table raw
            (make_normal_page_descriptor address permissions) s t j placed.kernel_aligned
            (rw e small) hj,
        ap (λ (a : ℕ). make_normal_page_descriptor a permissions) place,
      )

  pub map_section-entry :
      (permissions : ℕ) (section : Section)
      → IsInside pi5 section
      → (s : Mmu) (t j : ℕ) → j < 512
      → entry_at (map_section pi5 tables permissions section s).memory t j ≡ (
          if (tables.level3_kernel_table == t * 4096) && in_section pi5 section j
          then make_normal_page_descriptor (kernel_base pi5 + j * 4096) permissions
          else entry_at s.memory t j)
  unfolding map_section
  map_section-entry permissions section inside s t j hj = ground (
    arith,
    section_loop permissions section inside ((section.end - section.start + 0xFFF) / 0x1000) 0 s t j
        (omega (arith, inside.ordered)) hj,
    inside.aligned,
    kernel_base-aligned,
  )

  pub map_kernel-entry :
      (s : Mmu) (t j : ℕ)
      → j < 512
      → entry_at (map_kernel pi5 tables s).memory t j ≡ (
          if tables.level3_kernel_table == t * 4096
          then make_normal_page_descriptor (kernel_base pi5 + j * 4096) attr_el1_rw
          else entry_at s.memory t j)
  unfolding map_kernel
  map_kernel-entry s t j hj =
      let address : add64 (kernel_base pi5) (mul64 j 0x1000) ≡ kernel_base pi5 + j * 4096 =
        omega (arith, kernel_base-le) in
      ground (
        arith,
        filled-entry tables.level3_kernel_table
            (λ i.
              make_normal_page_descriptor (add64 (kernel_base pi5) (mul64 i 0x1000)) attr_el1_rw)
            512 0 s t j placed.kernel_aligned (omega arith) hj,
        ap (λ (a : ℕ). make_normal_page_descriptor a attr_el1_rw) address,
      )
