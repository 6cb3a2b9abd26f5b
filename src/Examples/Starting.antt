-- ===== src/Examples/Starting.antt =====
-- An image of the virt platform, for kernel/kernel.cpp and `MMU::init` of kernel/memory/mmu.cpp.
use planetoid_os.Base.{◌+◌, ◌*◌, ◌≡◌, false, none, [], arith}
use planetoid_os.Mmu.{Mmu, get_physical_address}
use planetoid_os.Mmu.Tree.{IsTree, leaf}
use planetoid_os.Descriptor.{
  make_normal_page_descriptor, get_level1_index, get_level2_index, get_level3_index,
}
use planetoid_os.BootTables.{BootTables, MemorySections, kernel_base}
use planetoid_os.BootTables.Entries.{IsPlaced}
use planetoid_os.BootTables.Links.{AreInside, permissions_of}
use planetoid_os.BootTables.Established.{boot_roles, booted, boot_top, init-IsTree}
use planetoid_os.BootTables.Identity.{init-identity}
use planetoid_os.KernelHeap.{Block}
use planetoid_os.KernelMain.{KernelState, start_mmu, start_memory}
use planetoid_os.KernelMain.Memory.{IsLoaded, IsMemoryStarted, start_memory-IsMemoryStarted}
use planetoid_os.Examples.Frames.{virt}
use planetoid_os.Examples.Tasks.{three}

abbrev tables : BootTables
tables = record {
  level1_table = 0x400A0000;
  level3_kernel_table = 0x400A1000;
  first = 0x400A2000;
  second = 0x400A3000;
}

abbrev sections : MemorySections
sections = record {
  text = record { start = 0x40080000; end = 0x40090000 };
  rodata = record { start = 0x40090000; end = 0x40098000 };
  data_section = record { start = 0x40098000; end = 0x400A0000 };
  bss = record { start = 0x400A0000; end = 0x400F0000 };
  stack = record { start = 0x400F0000; end = 0x40100000 };
}

placed : IsPlaced tables
placed = omega arith

inside : AreInside false tables placed sections
inside = omega arith

abbrev no_block : Block
no_block = record { size = 0; free = false; large = false; next = 0 }

-- Memory before any of it is started.
abbrev raw : Mmu
raw = record {
  memory = λ a. 0;
  physical = record { bitmap = λ i. 0; frame_count = 0 };
  maintenance = [];
}

init-IsTree_example :
    IsTree
      (boot_top false tables placed sections inside raw)
      (boot_roles false tables placed)
      (booted false tables placed sections inside raw)
init-IsTree_example = init-IsTree false tables placed sections inside raw

-- An address in the read-only data.
init-identity_example :
    (get_physical_address
        (boot_top false tables placed sections inside raw * 4096)
        0x40091234
        (booted false tables placed sections inside raw)
      ≡ 0x40091234)
    × (leaf
          (booted false tables placed sections inside raw)
          (boot_top false tables placed sections inside raw)
          (get_level1_index 0x40091234)
          (get_level2_index 0x40091234)
          (get_level3_index 0x40091234)
        ≡ make_normal_page_descriptor
            (kernel_base false + 0x91 * 4096)
            (permissions_of false tables placed sections 0x91))
init-identity_example =
    init-identity false tables placed sections inside raw 0x91 0x40091234 (omega arith)
      (omega arith)

abbrev unstarted : KernelState
unstarted = record {
  handlers = λ i. none;
  devices = record {
    scheduler = three;
    context = none;
    timer = record { timer_ticks = 0; timer_frequency = 0; tval = 0; ctl = 0 };
    gic = [];
  };
  registers = record { ttbr0 = 0; mair = 0; tcr = 0 };
  sctlr = 0;
  heap = record {
    blocks = λ a. no_block;
    first_block = 0;
    memory = record { virtual_bitmap = λ i. 0; mmu = raw };
  };
  mutex = record { locked = false; wait_queue = record { head = 0; tail = 0 } };
  output = [];
}

unstarted-IsLoaded : IsLoaded virt tables sections unstarted
unstarted-IsLoaded = record {
  linked = omega arith;
  covers = omega arith;
  placed = placed;
  in_image = omega arith;
  inside = inside;
  frame_bytes = λ i. omega arith;
  page_bytes = λ i. omega arith;
}

start_memory-IsMemoryStarted_example :
    IsMemoryStarted virt 0x400A0
      (start_memory virt tables (start_mmu virt tables sections unstarted)).heap
start_memory-IsMemoryStarted_example =
    start_memory-IsMemoryStarted virt tables sections unstarted unstarted-IsLoaded
