-- ===== src/PhysicalMemory/Boot.antt =====
-- The state that `init` of kernel/memory/physical_memory.cpp leaves with the memory map of
-- kernel/memory/memory_map.cpp.
use planetoid_os.Base.{
  ℕ, ◌-◌, ◌*◌, ◌/◌, ◌%◌, ◌≤◌, ◌<◌, ◌≡◌, inl, inr, Bool, true, false, not, ◌&&◌, ◌||◌, arith, ltb,
  leb, ◌==◌, if◌then◌else◌, Bool-cases,
}
use planetoid_os.Bitmap.{is_frame_used}
use planetoid_os.Bitmap.Marks.{IsBytes}
use planetoid_os.MemoryMap.{get_memory_map}
use planetoid_os.PhysicalMemory.{
  Platform, PhysicalMemory, physical_memory_base, get_frame_number, init_region, init_regions,
  init_from, init,
}
use planetoid_os.PhysicalMemory.Allocate.{IsWellFormed, managed, available}
use planetoid_os.PhysicalMemory.Init.{
  fill_loop, fill_loop-IsBytes, in_usable, in_kernel, IsLinked, AreWords, init_regions-IsBytes,
  reserve_kernel-IsBytes, is_frame_used-init_from,
}

-- The first frame of the region that `get_memory_map` lists is frame 0, and its frames are counted.
pub init_frame_count :
    (p : Platform) (m : PhysicalMemory)
    → (init p m).frame_count ≡ (if p.pi5 then 0x40000 else 0x100000)
unfolding init init_from get_memory_map init_regions init_region
init_frame_count p m = elim (Bool-cases p.pi5) [ inl pi5 ↦ rw pi5 | inr virt ↦ rw virt ]

in_usable_lem :
    (p : Platform) (g : ℕ)
    → in_usable p (get_memory_map p.pi5) g ≡ ltb g (if p.pi5 then 0x40000 else 0x100000)
unfolding in_usable get_memory_map get_frame_number
in_usable_lem p g = elim (Bool-cases p.pi5) [
  | inl pi5 ↦ rw pi5 (ground arith)
  | inr virt ↦ rw virt (ground arith)
]

memory_map-AreWords : (pi5 : Bool) → AreWords (get_memory_map pi5)
unfolding get_memory_map
memory_map-AreWords true = omega arith
memory_map-AreWords false = omega arith

-- The bitmap that the linker reserves has a bit for every frame of the memory map.
abbrev pub CoversMemory : Platform → Type 0
CoversMemory p = (if p.pi5 then 0x40000 else 0x100000) ≤ 8 * p.bitmap_size

module _ (p : Platform) (m : PhysicalMemory) (linked : IsLinked p) (covers : CoversMemory p)
    (bytes : IsBytes m.bitmap) where
  unfolded_init :
      (g : ℕ)
      → g < 8 * p.bitmap_size
      → is_frame_used (init p m).bitmap g
        ≡ (in_kernel p g || not (in_usable p (get_memory_map p.pi5) g))
  unfolding init
  unfolded_init g =
      is_frame_used-init_from p (get_memory_map p.pi5) m g linked (memory_map-AreWords p.pi5) bytes

  init_used :
      (g : ℕ) → g < (init p m).frame_count → is_frame_used (init p m).bitmap g ≡ in_kernel p g
  init_used g h = ground (arith, init_frame_count p m, in_usable_lem p g, unfolded_init g)

  init-IsBytes : IsBytes (init p m).bitmap
  unfolding init init_from fill_loop
  init-IsBytes = reserve_kernel-IsBytes p linked _ (
      init_regions-IsBytes p (get_memory_map p.pi5) _
        (fill_loop-IsBytes p.bitmap_size m.bitmap bytes))

  pub init-managed :
      (address : ℕ)
      → available p (init p m) address ≡ (
          managed p (init p m) address
          && not (in_kernel p ((address - physical_memory_base p) / 4096)))
  init-managed address = ground (arith, init_used ((address - physical_memory_base p) / 4096))

  -- Boot establishes the invariant that the allocator's calls keep.
  pub init-IsWellFormed : IsWellFormed p (init p m)
  init-IsWellFormed = record {
    bytes = init-IsBytes;
    fits = ground (arith, init_frame_count p m);
    zero_reserved = λ e. ground (arith, init_frame_count p m, init_used 0, linked.starts);
  }

  -- After boot the free frames are the pages of the platform's RAM, 1 GiB from address 0 on the Pi and 4 GiB
  -- from 0x40000000 otherwise, that hold nothing of the kernel, and no other address is free.
  pub init-available :
      (address : ℕ)
      → available p (init p m) address ≡ (
          (address % 4096 == 0)
          && leb (if p.pi5 then 0 else 0x40000000) address
          && ltb address (if p.pi5 then 0x40000000 else 0x140000000)
          && not (in_kernel p ((address - (if p.pi5 then 0 else 0x40000000)) / 4096)))
  init-available address = elim (Bool-cases p.pi5) [
    | inl pi5 ↦ ground (arith, pi5, init-managed address, init_frame_count p m)
    | inr virt ↦ ground (arith, virt, init-managed address, init_frame_count p m)
  ]
