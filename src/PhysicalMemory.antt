-- ===== src/PhysicalMemory.antt =====
-- kernel/memory/physical_memory.cpp. The symbols that the linker defines, and the platform that the
-- build chooses, are a record of parameters.
pub mod Ranges
pub mod Allocate
pub mod Free
pub mod Init
pub mod Boot
use planetoid_os.Base.{
  ℕ, zero, suc, ◌+◌, ◌-◌, ◌/◌, ◌%◌, Bool, not, List, [], ◌∷◌, bit_and, ltb, leb, ◌==◌,
  if◌then◌else◌, add64, sub64, mul64, not64, update, for_range,
}
use planetoid_os.Bitmap.{Bitmap, set_frame_used, set_frame_free, is_frame_used}
use planetoid_os.MemoryMap.{RegionType, usable, reserved, device, MemoryRegion, get_memory_map}

-- `OS_PLATFORM_PI5`, `__text_start`, `__stack_top`, and the distance from `__physical_bitmap_start`
-- to `__physical_bitmap_end`.
pub record Platform : Type 0 where
  pub pi5 : Bool
  pub kernel_start : ℕ
  pub kernel_end : ℕ
  pub bitmap_size : ℕ

abbrev pub page_size : ℕ
page_size = 4096

abbrev pub physical_memory_base : Platform → ℕ
physical_memory_base p = if p.pi5 then 0x00000000 else 0x40000000

pub record PhysicalMemory : Type 0 where
  pub bitmap : Bitmap
  pub frame_count : ℕ

unfoldable pub get_frame_number : Platform → ℕ → ℕ
get_frame_number p address = sub64 address (physical_memory_base p) / page_size

-- The loop of `set_frame_range_used`, and that of `init` over one region.
abbrev pub mark_used : (count first_frame : ℕ) → Bitmap → Bitmap
mark_used count first_frame =
    for_range count 0 λ frame bitmap. set_frame_used bitmap (add64 first_frame frame)

abbrev pub mark_free : (count first_frame : ℕ) → Bitmap → Bitmap
mark_free count first_frame =
    for_range count 0 λ frame bitmap. set_frame_free bitmap (add64 first_frame frame)

abbrev pub align_down : ℕ → ℕ
align_down address = bit_and address (not64 (page_size - 1))

unfoldable pub set_frame_range_used : Platform → (address size : ℕ) → Bitmap → Bitmap
set_frame_range_used p address size bitmap =
    let aligned_start = align_down address in
    let aligned_end = align_down (sub64 (add64 (add64 address size) page_size) 1) in
    let first_frame = get_frame_number p aligned_start in
    let frame_count_in_range = sub64 aligned_end aligned_start / page_size in
    mark_used frame_count_in_range first_frame bitmap

-- One round of the loop over the memory map. `continue` leaves the state alone.
unfoldable pub init_region : Platform → MemoryRegion → PhysicalMemory → PhysicalMemory
init_region p region m = elim region.type [
  | usable ↦
      let first_frame = get_frame_number p region.base in
      let frame_count_in_region = region.size / page_size in
      record {
        bitmap = mark_free frame_count_in_region first_frame m.bitmap;
        frame_count = add64 m.frame_count frame_count_in_region;
      }
  | reserved ↦ m
  | device ↦ m
]

unfoldable pub init_regions : Platform → List MemoryRegion → PhysicalMemory → PhysicalMemory
init_regions p [] m = m
init_regions p (region ∷ regions) m = init_regions p regions (init_region p region m)

unfoldable pub reserve_kernel : Platform → Bitmap → Bitmap
reserve_kernel p bitmap =
    let below = if p.pi5 then set_frame_range_used p 0x00000000 p.kernel_start bitmap else bitmap in
    set_frame_range_used p p.kernel_start (sub64 p.kernel_end p.kernel_start) below

-- `init` for a given memory map; `m` is the state before.
unfoldable pub init_from : Platform → List MemoryRegion → PhysicalMemory → PhysicalMemory
init_from p regions m =
    let filled = for_range p.bitmap_size 0 (λ i bitmap. update bitmap i 0xFF) m.bitmap in
    let listed = init_regions p regions (record { bitmap = filled; frame_count = 0 }) in
    record listed { bitmap = reserve_kernel p listed.bitmap }

unfoldable pub init : Platform → PhysicalMemory → PhysicalMemory
unfolding init_from
init p m = init_from p (get_memory_map p.pi5) m

abbrev pub frame_address : Platform → ℕ → ℕ
frame_address p frame = add64 (physical_memory_base p) (mul64 frame page_size)

-- The loop of `allocate_frame`, at `frame` with `left` rounds to go.
unfoldable pub allocate_from : Platform → (left frame : ℕ) → PhysicalMemory → ℕ × PhysicalMemory
allocate_from p zero frame m = (0, m)
allocate_from p (suc left) frame m =
    let next = allocate_from p left (frame + 1) m in
    if is_frame_used m.bitmap frame
    then next
    else (frame_address p frame, record m { bitmap = set_frame_used m.bitmap frame })

unfoldable pub allocate_frame : Platform → PhysicalMemory → ℕ × PhysicalMemory
unfolding allocate_from
allocate_frame p m = allocate_from p m.frame_count 0 m

unfoldable pub free_frame : Platform → ℕ → PhysicalMemory → PhysicalMemory
free_frame p address m =
    if ltb address (physical_memory_base p)
    then m
    else if not (address % page_size == 0)
    then m
    else let frame = get_frame_number p address in
      if leb m.frame_count frame then m else record m { bitmap = set_frame_free m.bitmap frame }
