-- ===== src/Examples/Frames.antt =====
-- A machine of eight frames, for kernel/memory/physical_memory.cpp.
use planetoid_os.Base.{◌≡◌, ◌≢◌, ◌⊎◌, true, false, List, [], ◌∷◌, arith}
use planetoid_os.Bitmap.{is_frame_used}
use planetoid_os.Bitmap.Marks.{IsBytes}
use planetoid_os.MemoryMap.{MemoryRegion, usable, reserved}
use planetoid_os.PhysicalMemory.{
  Platform, PhysicalMemory, init, allocate_from, allocate_frame, free_frame,
}
use planetoid_os.PhysicalMemory.Allocate.{
  IsWellFormed, available, NoneAvailable, IsAllocation, allocate_frame_lem,
}
use planetoid_os.PhysicalMemory.Free.{free_frame-available}
use planetoid_os.PhysicalMemory.Init.{IsLinked}
use planetoid_os.PhysicalMemory.Boot.{init-available}

abbrev pub virt : Platform
virt = record {
  pi5 = false;
  kernel_start = 0x40080000;
  kernel_end = 0x40100000;
  bitmap_size = 0x20000;
}

-- The frames 0 to 3 are in use.
abbrev pub few : PhysicalMemory
few = record { bitmap = λ i. 0x0F; frame_count = 8 }

abbrev blank : PhysicalMemory
blank = record { bitmap = λ i. 0; frame_count = 0 }

pub few-IsWellFormed : IsWellFormed virt few
few-IsWellFormed = record {
  bytes = λ i. omega arith;
  fits = omega arith;
  zero_reserved = λ e. absurd (omega arith);
}

virt-IsLinked : IsLinked virt
virt-IsLinked = record {
  above = omega arith;
  ordered = omega arith;
  fits = omega arith;
  starts = omega arith;
}

blank-IsBytes : IsBytes blank.bitmap
blank-IsBytes i = omega arith

few_succeeds : (allocate_frame virt few).0 ≢ 0
unfolding allocate_frame allocate_from is_frame_used
few_succeeds e = absurd (omega arith)

allocate_frame_lem_example :
    (((allocate_frame virt few).0 ≢ 0) × IsAllocation virt few (allocate_frame virt few))
    ⊎ (NoneAvailable virt few × (allocate_frame virt few ≡ (0, few)))
allocate_frame_lem_example = allocate_frame_lem virt few few-IsWellFormed

free_frame-available_example : available virt (free_frame virt 0x40002000 few) 0x40002000 ≡ true
free_frame-available_example =
    free_frame-available virt few few-IsWellFormed 0x40002000 0x40002000 (omega arith)

init-available_example : available virt (init virt blank) 0x40200000 ≡ true
init-available_example =
    init-available virt blank virt-IsLinked (omega arith) blank-IsBytes 0x40200000

abbrev two_regions : List MemoryRegion
two_regions =
    record { base = 0x40000000; size = 0x8000; type = usable }
    ∷ record { base = 0x40008000; size = 0x8000; type = reserved }
    ∷ []
