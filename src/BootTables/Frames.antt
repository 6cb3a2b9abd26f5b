-- ===== src/BootTables/Frames.antt =====
-- `MMU::init` of kernel/memory/mmu.cpp takes and gives back no frame.
use planetoid_os.Base.{
  ℕ, zero, suc, ◌+◌, ◌-◌, ◌/◌, ◌≡◌, refl, ◌∙◌, inl, inr, Bool, arith, if◌then◌else◌, Bool-cases,
  for_range,
}
use planetoid_os.Mmu.{Mmu}
use planetoid_os.BootTables.{
  BootTables, Section, MemorySections, clear_boot_tables, init_pi5, init_virt, map_kernel,
  map_section, init,
}

for_range-physical :
    (step : ℕ → Mmu → Mmu)
    → ((i : ℕ) (s : Mmu) → (step i s).physical ≡ s.physical)
    → (n i : ℕ) (s : Mmu) → (for_range n i step s).physical ≡ s.physical
unfolding for_range
for_range-physical step keeps zero i s = refl
for_range-physical step keeps (suc n) i s =
    for_range-physical step keeps n (i + 1) (step i s) ∙ keeps i s

module _ (pi5 : Bool) (tables : BootTables) where
  clear_boot_tables-physical : (s : Mmu) → (clear_boot_tables pi5 tables s).physical ≡ s.physical
  unfolding clear_boot_tables
  clear_boot_tables-physical s = for_range-physical _ (λ i t. refl) 512 0 s

  init_pi5-physical : (s : Mmu) → (init_pi5 pi5 tables s).physical ≡ s.physical
  unfolding init_pi5
  init_pi5-physical s = for_range-physical _ (λ i t. refl) 512 0 _

  init_virt-physical : (s : Mmu) → (init_virt pi5 tables s).physical ≡ s.physical
  unfolding init_virt
  init_virt-physical s = for_range-physical _ (λ i t. refl) 511 1 _

  map_kernel-physical : (s : Mmu) → (map_kernel pi5 tables s).physical ≡ s.physical
  unfolding map_kernel
  map_kernel-physical s = for_range-physical _ (λ i t. refl) 512 0 s

  map_section-physical :
      (permissions : ℕ) (section : Section) (s : Mmu)
      → (map_section pi5 tables permissions section s).physical ≡ s.physical
  unfolding map_section
  map_section-physical permissions section s =
      for_range-physical _ (λ i t. refl) ((section.end - section.start + 0xFFF) / 0x1000) 0 s

  linked-physical :
      (s : Mmu)
      → (if pi5 then init_pi5 pi5 tables s else init_virt pi5 tables s).physical ≡ s.physical
  linked-physical s = elim (Bool-cases pi5) [
    | inl pi ↦ ground (arith, init_pi5-physical s)
    | inr virt ↦ ground (arith, init_virt-physical s)
  ]

  pub init-physical :
      (sections : MemorySections) (s : Mmu) → (init pi5 tables sections s).1.physical ≡ s.physical
  unfolding init
  init-physical sections s =
      map_section-physical _ sections.stack _
      ∙ map_section-physical _ sections.bss _
      ∙ map_section-physical _ sections.data_section _
      ∙ map_section-physical _ sections.rodata _
      ∙ map_section-physical _ sections.text _
      ∙ map_kernel-physical _
      ∙ linked-physical _
      ∙ clear_boot_tables-physical s
