-- ===== src/PhysicalMemory/Init.antt =====
-- `init` of kernel/memory/physical_memory.cpp: which frames are free after boot.
use planetoid_os.Base.{
  ℕ, zero, suc, ◌+◌, ◌*◌, ◌/◌, ◌^◌, ◌≤◌, ◌<◌, ◌≡◌, refl, inl, inr, Bool, false, not, ◌&&◌, ◌||◌,
  List, [], ◌∷◌, arith, ltb, leb, if◌then◌else◌, Bool-cases, All, sub64, update, for_range,
}
use planetoid_os.Bitmap.{Bitmap, is_frame_used}
use planetoid_os.Bitmap.Marks.{IsBytes, is_frame_used-full}
use planetoid_os.MemoryMap.{usable, reserved, device, MemoryRegion}
use planetoid_os.PhysicalMemory.{
  Platform, PhysicalMemory, page_size, physical_memory_base, get_frame_number, set_frame_range_used,
  init_region, init_regions, reserve_kernel, init_from,
}
use planetoid_os.PhysicalMemory.Ranges.{
  within, base_lem, mark_free-IsBytes, is_frame_used-mark_free, is_frame_used-set_frame_range_used,
  set_frame_range_used-IsBytes,
}

unfoldable pub fill_loop : ℕ → ℕ → Bitmap → Bitmap
fill_loop n i = for_range n i λ j bitmap. update bitmap j 0xFF

fill_lem :
    (n i : ℕ) (bitmap : Bitmap) (j : ℕ)
    → fill_loop n i bitmap j ≡ (if within i n j then 0xFF else bitmap j)
unfolding fill_loop for_range update
fill_lem zero i bitmap j = ground arith
fill_lem (suc n) i bitmap j = ground (arith, fill_lem n (i + 1) (update bitmap i 0xFF) j)

pub fill_loop-IsBytes :
    (size : ℕ) (bitmap : Bitmap) → IsBytes bitmap → IsBytes (fill_loop size 0 bitmap)
fill_loop-IsBytes size bitmap bytes i = ground (arith, fill_lem size 0 bitmap i, bytes i)

-- Frame `g` lies in the region, and the region is usable.
abbrev pub in_region : Platform → MemoryRegion → ℕ → Bool
in_region p region g = elim region.type [
  | usable ↦ within (get_frame_number p region.base) (region.size / page_size) g
  | reserved ↦ false
  | device ↦ false
]

-- Frame `g` lies in a region that the memory map lists as usable.
unfoldable pub in_usable : Platform → List MemoryRegion → ℕ → Bool
in_usable p [] g = false
in_usable p (region ∷ regions) g = in_region p region g || in_usable p regions g

-- Frame `g` holds a byte of the kernel's image, or on the Pi one below it.
abbrev pub in_kernel : Platform → ℕ → Bool
in_kernel p g =
    let address = physical_memory_base p + g * 4096 in
    (p.pi5 && ltb address p.kernel_start)
    || (leb p.kernel_start (address + 4095) && ltb address p.kernel_end)

-- Where the linker puts the kernel.
pub record IsLinked (p : Platform) : Type 0 where
  pub above : physical_memory_base p ≤ p.kernel_start
  pub ordered : p.kernel_start ≤ p.kernel_end
  pub fits : p.kernel_end + 4096 ≤ 2 ^ 64
  pub starts : 0 < p.kernel_start

-- Every size is a `uint64_t`.
abbrev pub AreWords : List MemoryRegion → Type 0
AreWords = All λ region. region.size < 2 ^ 64

get_frame_number-lt : (p : Platform) (a : ℕ) → get_frame_number p a < 2 ^ 52
unfolding get_frame_number
get_frame_number-lt p a = omega arith

module _ (p : Platform) where
  region-IsBytes :
      (region : MemoryRegion) (m : PhysicalMemory)
      → IsBytes m.bitmap
      → IsBytes (init_region p region m).bitmap
  unfolding init_region
  region-IsBytes region m bytes i = ground (
    arith,
    mark_free-IsBytes (region.size / page_size) (get_frame_number p region.base) m.bitmap bytes i,
    bytes i,
  )

  is_frame_used-init_region :
      (region : MemoryRegion) (m : PhysicalMemory) (g : ℕ)
      → region.size < 2 ^ 64
      → IsBytes m.bitmap
      → is_frame_used (init_region p region m).bitmap g
        ≡ (if in_region p region g then false else is_frame_used m.bitmap g)
  unfolding init_region
  is_frame_used-init_region region m g small bytes = ground (
    arith,
    is_frame_used-mark_free (region.size / page_size) (get_frame_number p region.base) m.bitmap
        bytes g (omega (arith, get_frame_number-lt p region.base)),
  )

  pub init_regions-IsBytes :
      (regions : List MemoryRegion) (m : PhysicalMemory)
      → IsBytes m.bitmap
      → IsBytes (init_regions p regions m).bitmap
  unfolding init_regions
  init_regions-IsBytes [] m bytes = bytes
  init_regions-IsBytes (region ∷ regions) m bytes =
      init_regions-IsBytes regions (init_region p region m) (region-IsBytes region m bytes)

  is_frame_used-init_regions :
      (regions : List MemoryRegion) (m : PhysicalMemory) (g : ℕ)
      → AreWords regions
      → IsBytes m.bitmap
      → is_frame_used (init_regions p regions m).bitmap g
        ≡ (if in_usable p regions g then false else is_frame_used m.bitmap g)
  unfolding init_regions in_usable
  is_frame_used-init_regions [] m g small bytes = refl
  is_frame_used-init_regions (region ∷ regions) m g small bytes = ground (
    arith,
    is_frame_used-init_regions regions (init_region p region m) g small.1
        (region-IsBytes region m bytes),
    is_frame_used-init_region region m g small.0 bytes,
  )

  module _ (linked : IsLinked p) where
    -- The first of the two reservations, which only the Pi makes.
    reserve_below : Bitmap → Bitmap
    reserve_below bitmap =
        if p.pi5 then set_frame_range_used p 0x00000000 p.kernel_start bitmap else bitmap

    reserve_below-IsBytes : (bitmap : Bitmap) → IsBytes bitmap → IsBytes (reserve_below bitmap)
    unfolding reserve_below
    reserve_below-IsBytes bitmap bytes i =
        ground (arith, set_frame_range_used-IsBytes p 0 p.kernel_start bitmap bytes i, bytes i)

    is_frame_used-reserve_below :
        (bitmap : Bitmap) (g : ℕ)
        → IsBytes bitmap
        → is_frame_used (reserve_below bitmap) g ≡ (
            (p.pi5 && ltb (physical_memory_base p + g * 4096) p.kernel_start)
            || is_frame_used bitmap g)
    unfolding reserve_below
    is_frame_used-reserve_below bitmap g bytes = elim (Bool-cases p.pi5) [
      | inl pi5 ↦ ground (
        arith,
        is_frame_used-set_frame_range_used p 0 p.kernel_start bitmap g bytes (ground arith)
            (omega (arith, linked.ordered, linked.fits)),
      )
      | inr virt ↦ rw virt
    ]

    pub reserve_kernel-IsBytes :
        (bitmap : Bitmap) → IsBytes bitmap → IsBytes (reserve_kernel p bitmap)
    unfolding reserve_kernel reserve_below
    reserve_kernel-IsBytes bitmap bytes =
        set_frame_range_used-IsBytes p _ _ _ (reserve_below-IsBytes bitmap bytes)

    is_frame_used-reserve_kernel :
        (bitmap : Bitmap) (g : ℕ)
        → IsBytes bitmap
        → is_frame_used (reserve_kernel p bitmap) g ≡ (in_kernel p g || is_frame_used bitmap g)
    unfolding reserve_kernel reserve_below
    is_frame_used-reserve_kernel bitmap g bytes = ground (
      arith,
      is_frame_used-set_frame_range_used p p.kernel_start (sub64 p.kernel_end p.kernel_start)
          (reserve_below bitmap) g (reserve_below-IsBytes bitmap bytes) linked.above
          (omega (arith, linked.ordered, linked.fits)),
      is_frame_used-reserve_below bitmap g bytes,
      base_lem p,
      linked.ordered,
      linked.fits,
    )

  -- After `init` a frame that the bitmap covers is in use exactly if the memory map lists it in no
  -- usable region, or it belongs to the kernel.
  pub is_frame_used-init_from :
      (regions : List MemoryRegion) (m : PhysicalMemory) (g : ℕ)
      → IsLinked p
      → AreWords regions
      → IsBytes m.bitmap
      → g < 8 * p.bitmap_size
      → is_frame_used (init_from p regions m).bitmap g
        ≡ (in_kernel p g || not (in_usable p regions g))
  unfolding init_from fill_loop
  is_frame_used-init_from regions m g linked small bytes covered = ground (
    arith,
    is_frame_used-reserve_kernel linked
        (init_regions p regions
          (record { bitmap = fill_loop p.bitmap_size 0 m.bitmap; frame_count = 0 })).bitmap
        g (init_regions-IsBytes regions _ (fill_loop-IsBytes p.bitmap_size m.bitmap bytes)),
    is_frame_used-init_regions regions
        (record { bitmap = fill_loop p.bitmap_size 0 m.bitmap; frame_count = 0 }) g small
        (fill_loop-IsBytes p.bitmap_size m.bitmap bytes),
    is_frame_used-full (fill_loop p.bitmap_size 0 m.bitmap) g
        (ground (arith, fill_lem p.bitmap_size 0 m.bitmap (g / 8))),
  )
