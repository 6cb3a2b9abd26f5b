-- ===== src/BootTables/Identity.antt =====
-- The translation of the kernel's own addresses after `MMU::init` of kernel/memory/mmu.cpp.
use planetoid_os.Base.{
  ℕ, ◌+◌, ◌*◌, ◌/◌, ◌%◌, ◌^◌, ◌≤◌, ◌<◌, ◌≡◌, refl, ap, ◌∙◌, inl, inr, Bool, true, false, some,
  arith, bit_and, if◌then◌else◌, Bool-cases,
}
use planetoid_os.Base.Bits.{zero-bit_and}
use planetoid_os.Descriptor.{
  make_table_descriptor, make_normal_page_descriptor, get_level1_index, get_level2_index,
  get_level3_index,
}
use planetoid_os.Descriptor.Fields.{
  IsPermissions, table-type, level1-lt, level2-lt, level3-lt, page_of_indices, low_twelve,
}
use planetoid_os.Mmu.{Mmu, normal, get_physical_address}
use planetoid_os.Mmu.Tree.{entry_at, next, leaf, get_physical_address-leaf}
use planetoid_os.Mmu.Entry.{resolve-page_entry}
use planetoid_os.BootTables.{BootTables, MemorySections, kernel_base}
use planetoid_os.BootTables.Entries.{IsPlaced}
use planetoid_os.BootTables.Links.{permissions_of, AreInside, init-entry}
use planetoid_os.BootTables.Established.{
  links, booted, boot_top, top-entry, upper-entry, role-first, role-second,
}

module _ (pi5 : Bool) (tables : BootTables) (placed : IsPlaced tables) (sections : MemorySections)
    (inside : AreInside pi5 tables placed sections) (s : Mmu) where
  abbrev memory : ℕ → ℕ
  memory = booted pi5 tables placed sections inside s

  abbrev top : ℕ
  top = boot_top pi5 tables placed sections inside s

  next-link :
      (t j a : ℕ)
      → a % 4096 ≡ 0
      → a < 2 ^ 48
      → entry_at memory t j ≡ make_table_descriptor a
      → next memory t j ≡ some (a / 4096)
  unfolding next
  next-link t j a aligned small e = rw e (
      ground (
        arith,
        links pi5 tables placed a aligned small,
        table-type a,
        ap (λ (x : ℕ). bit_and x 0b11) e,
        zero-bit_and 0b11,
      ))

  permissions_of-IsPermissions :
      (j : ℕ) → IsPermissions (permissions_of pi5 tables placed sections j)
  permissions_of-IsPermissions j = ground arith

  -- The walk to the page of the kernel's entry `k`.
  virt_walk :
      pi5 ≡ false
      → (k : ℕ) → k < 512
      → leaf memory top 1 0 k
        ≡ make_normal_page_descriptor
            (kernel_base pi5 + k * 4096)
            (permissions_of pi5 tables placed sections k)
  unfolding leaf
  virt_walk virt k hk =
      let first_step =
        next-link top 1 tables.second placed.second_aligned placed.second_small
          (top-entry pi5 tables placed sections inside s 1 (omega arith) ∙ rw virt refl) in
      let page : tables.second / 4096 * 4096 ≡ tables.second =
        omega (arith, placed.second_aligned) in
      let second_step =
        next-link (tables.second / 4096) 0 tables.level3_kernel_table placed.kernel_aligned
          placed.kernel_small
          (upper-entry pi5 tables placed sections inside s (tables.second / 4096) 0 (omega arith)
              (rw (role-second pi5 tables placed) refl)
            ∙ ground (arith, page, placed.level1-second, placed.first-second)) in
      rw (first_step, second_step)
        (init-entry pi5 tables placed sections inside s (tables.level3_kernel_table / 4096) k hk
            (ground (arith, placed.kernel_aligned))
          ∙ ground (arith, placed.kernel_aligned))

  pi5_walk :
      pi5 ≡ true
      → (k : ℕ) → k < 512
      → leaf memory top 0 1 k
        ≡ make_normal_page_descriptor
            (kernel_base pi5 + k * 4096)
            (permissions_of pi5 tables placed sections k)
  unfolding leaf
  pi5_walk pi k hk =
      let first_step =
        next-link top 0 tables.first placed.first_aligned placed.first_small
          (top-entry pi5 tables placed sections inside s 0 (omega arith) ∙ ground arith) in
      let page : tables.first / 4096 * 4096 ≡ tables.first = omega (arith, placed.first_aligned) in
      let second_step =
        next-link (tables.first / 4096) 1 tables.level3_kernel_table placed.kernel_aligned
          placed.kernel_small
          (upper-entry pi5 tables placed sections inside s (tables.first / 4096) 1 (omega arith)
              (rw (role-first pi5 tables placed) refl)
            ∙ ground (arith, page, placed.level1-first)) in
      rw (first_step, second_step)
        (init-entry pi5 tables placed sections inside s (tables.level3_kernel_table / 4096) k hk
            (ground (arith, placed.kernel_aligned))
          ∙ ground (arith, placed.kernel_aligned))

  -- Page `k` of the kernel's 2 MiB.
  abbrev pub IsOnPage : (k va : ℕ) → Type 0
  IsOnPage k va = (kernel_base pi5 + k * 4096 ≤ va) × (va < kernel_base pi5 + (k + 1) * 4096)

  kernel-indices :
      (k va : ℕ)
      → k < 512
      → IsOnPage k va
      → (get_level1_index va ≡ (if pi5 then 0 else 1))
        × (get_level2_index va ≡ (if pi5 then 1 else 0))
        × (get_level3_index va ≡ k)
  kernel-indices k va hk here =
      let page = page_of_indices va (ground arith) in
      ground (arith, level1-lt va, level2-lt va, level3-lt va)

  leaf-kernel :
      (k va : ℕ)
      → k < 512
      → IsOnPage k va
      → leaf memory top (get_level1_index va) (get_level2_index va) (get_level3_index va)
        ≡ make_normal_page_descriptor
            (kernel_base pi5 + k * 4096)
            (permissions_of pi5 tables placed sections k)
  leaf-kernel k va hk here =
      let (e1, e2, e3) = kernel-indices k va hk here in
      elim (Bool-cases pi5) [
        | inl pi ↦
            let at0 : get_level1_index va ≡ 0 = ground arith in
            let at1 : get_level2_index va ≡ 1 = ground arith in
            (λ i. leaf memory top (at0 i) (at1 i) (e3 i)) ∙ pi5_walk pi k hk
        | inr virt ↦
            let at1 : get_level1_index va ≡ 1 = ground arith in
            let at0 : get_level2_index va ≡ 0 = ground arith in
            (λ i. leaf memory top (at1 i) (at0 i) (e3 i)) ∙ virt_walk virt k hk
      ]

  -- After `init` each address of the kernel's 2 MiB translates to itself, by an entry that has the
  -- permissions of the last section that its page lies in.
  pub init-identity :
      (k va : ℕ)
      → k < 512
      → IsOnPage k va
      → (get_physical_address (top * 4096) va memory ≡ va)
        × (leaf memory top (get_level1_index va) (get_level2_index va) (get_level3_index va)
            ≡ make_normal_page_descriptor
                (kernel_base pi5 + k * 4096)
                (permissions_of pi5 tables placed sections k))
  init-identity k va hk here = (
    rw
        (
          get_physical_address-leaf memory top va,
          leaf-kernel k va hk here,
          low_twelve va,
          resolve-page_entry normal (kernel_base pi5 + k * 4096)
              (permissions_of pi5 tables placed sections k) (va % 4096)
              (permissions_of-IsPermissions k) (ground arith) (ground arith) (omega arith),
        )
        (ground arith),
    leaf-kernel k va hk here,
  )
